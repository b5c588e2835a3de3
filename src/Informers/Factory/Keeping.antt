-- ===== src/Informers/Factory/Keeping.antt =====
-- A factory keeps the informer that it has for a type.
use mathlib.Core.Path.{subst}
use eventing_gitlab.Base.{
  ℕ, ◌≡◌, refl, sym, ap, ◌∙◌, inl, inr, Option, none, some, List, ◌∷◌, String, Bool-cases,
  Option-cases, [], ◌==◌, eq_iff, eq_refl, if◌then◌else◌, arith,
}
use eventing_gitlab.Base.Dict.{lookup}
use eventing_gitlab.Source.EventTypes.{has_key}
use eventing_gitlab.Informers.Factory.{
  SharedInformerFactory, with_namespace, with_tweak_list_options, apply_all,
  new_shared_informer_factory_with_options, new_filtered_shared_informer_factory, resync_period,
  start_one, start_each, start, shutdown, informer_for,
}
use eventing_gitlab.Informers.Factory.Steps.{
  Step, requested, started, shut_down, Run, done, next, start_each-informers,
}

module _ {I : Type 0} where
  lookup-cons :
      (t u : String) (i j : I) (m : List (String × I))
      → lookup t m ≡ some i
      → lookup u m ≡ none
      → lookup t ((u, j) ∷ m) ≡ some i
  unfolding lookup
  lookup-cons t u i j m h k = elim (Bool-cases (t == u)) [
    | inl same ↦ absurd (ground (arith, ap (λ x. lookup x m) ((eq_iff t u).0 same)))
    | inr other ↦ rw other h
  ]

  lookup_self : (t : String) (i : I) (m : List (String × I)) → lookup t ((t, i) ∷ m) ≡ some i
  unfolding lookup
  lookup_self t i m = rw (eq_refl t) refl

module _ {I T K : Type 0} (set_transform : Option T → I → I) where
  -- An informer that the factory has is given as it is.
  pub informer_for-some :
      (t : String) (new_func : ℕ → I) (f : SharedInformerFactory I T K) (i : I)
      → lookup t f.informers ≡ some i
      → informer_for set_transform t new_func f ≡ (i, f)
  unfolding informer_for
  informer_for-some t new_func f i h = rw (h, informer_for) refl

  -- A new informer is put in front of those that the factory has.
  pub informer_for-none :
      (t : String) (new_func : ℕ → I) (f : SharedInformerFactory I T K)
      → lookup t f.informers ≡ none
      → let i = set_transform f.transform (new_func (resync_period t f)) in
        informer_for set_transform t new_func f ≡ (i, record f { informers = (t, i) ∷ f.informers })
  unfolding informer_for
  informer_for-none t new_func f h = rw (h, informer_for) refl

  -- The informer that is given is kept.
  informer_for-lookup :
      (t : String) (new_func : ℕ → I) (f : SharedInformerFactory I T K)
      → let r = informer_for set_transform t new_func f in lookup t r.1.informers ≡ some r.0
  informer_for-lookup t new_func f = elim (Option-cases (lookup t f.informers)) [
    | inl absent ↦
        rw (informer_for-none t new_func f absent)
          (lookup_self t (set_transform f.transform (new_func (resync_period t f))) f.informers)
    | inr (i, there) ↦ rw (informer_for-some t new_func f i there) there
  ]

  Step-lookup :
      (t : String) (i : I) {f g : SharedInformerFactory I T K}
      → Step set_transform f g
      → lookup t f.informers ≡ some i
      → lookup t g.informers ≡ some i
  unfolding start shutdown
  Step-lookup t i (requested u new_func f) h = elim (Option-cases (lookup u f.informers)) [
    | inl absent ↦ rw (informer_for-none u new_func f absent) (
        lookup-cons t u i (set_transform f.transform (new_func (resync_period u f))) f.informers h
          absent)
    | inr (j, there) ↦ rw (informer_for-some u new_func f j there) h
  ]
  Step-lookup t i (started iteration f visits) h = elim (Bool-cases f.shutting_down) [
    | inl down ↦
        subst
          (λ b. lookup t (if b then f else start_each (iteration f.informers) f).informers ≡ some i)
          (sym down) h
    | inr up ↦
        subst
          (λ b. lookup t (if b then f else start_each (iteration f.informers) f).informers ≡ some i)
          (sym up) (ap (lookup t) (start_each-informers (iteration f.informers) f) ∙ h)
  ]
  Step-lookup t i (shut_down f) h = h

  pub Run-lookup :
      (t : String) (i : I) {f g : SharedInformerFactory I T K}
      → Run set_transform f g
      → lookup t f.informers ≡ some i
      → lookup t g.informers ≡ some i
  Run-lookup t i (done f) h = h
  Run-lookup t i (next f g k step run) h = Run-lookup t i run (Step-lookup t i step h)

  -- What is given once is given after any calls, and changes nothing then.
  pub informer_for-Run :
      (t : String) (new_func new_func' : ℕ → I) (f g : SharedInformerFactory I T K)
      → Run set_transform (informer_for set_transform t new_func f).1 g
      → informer_for set_transform t new_func' g ≡ ((informer_for set_transform t new_func f).0, g)
  informer_for-Run t new_func new_func' f g run =
      let i = (informer_for set_transform t new_func f).0 in
      informer_for-some t new_func' g i (Run-lookup t i run (informer_for-lookup t new_func f))

  -- No call changes the namespace and the function that tweaks.
  abbrev SameScope : (f g : SharedInformerFactory I T K) → Type 0
  SameScope f g = (g.namespace ≡ f.namespace) × (g.tweak_list_options ≡ f.tweak_list_options)

  start_one-scope : (e : String × I) (f : SharedInformerFactory I T K) → SameScope f (start_one e f)
  unfolding start_one
  start_one-scope (t, i) f = elim (Bool-cases (has_key t f.started_informers)) [
    | inl already ↦ rw (already) (refl, refl)
    | inr fresh ↦ rw (fresh) (refl, refl)
  ]

  start_each-scope :
      (es : List (String × I)) (f : SharedInformerFactory I T K) → SameScope f (start_each es f)
  unfolding start_each
  start_each-scope [] f = (refl, refl)
  start_each-scope (e ∷ es) f =
      let (p, q) = start_each-scope es (start_one e f) in
      let (p', q') = start_one-scope e f in (p ∙ p', q ∙ q')

  Step-scope : {f g : SharedInformerFactory I T K} → Step set_transform f g → SameScope f g
  unfolding start shutdown
  Step-scope (requested u new_func f) = elim (Option-cases (lookup u f.informers)) [
    | inl absent ↦ rw (informer_for-none u new_func f absent) (refl, refl)
    | inr (j, there) ↦ rw (informer_for-some u new_func f j there) (refl, refl)
  ]
  Step-scope (started iteration f visits) = elim (Bool-cases f.shutting_down) [
    | inl down ↦
        subst (λ b. SameScope f (if b then f else start_each (iteration f.informers) f)) (sym down)
          (refl, refl)
    | inr up ↦
        subst (λ b. SameScope f (if b then f else start_each (iteration f.informers) f)) (sym up)
          (start_each-scope (iteration f.informers) f)
  ]
  Step-scope (shut_down f) = (refl, refl)

  pub Run-scope : {f g : SharedInformerFactory I T K} → Run set_transform f g → SameScope f g
  Run-scope (done f) = (refl, refl)
  Run-scope (next f g k step run) =
      let (p, q) = Run-scope run in let (p', q') = Step-scope step in (p ∙ p', q ∙ q')

  pub new_filtered-scope :
      (default_resync : ℕ) (namespace : String) (tweak : Option K) {f : SharedInformerFactory I T K}
      → Run set_transform (new_filtered_shared_informer_factory default_resync namespace tweak) f
      → (f.namespace ≡ namespace) × (f.tweak_list_options ≡ tweak)
  unfolding new_filtered_shared_informer_factory new_shared_informer_factory_with_options apply_all
      with_namespace with_tweak_list_options
  new_filtered-scope default_resync namespace tweak run = Run-scope run
