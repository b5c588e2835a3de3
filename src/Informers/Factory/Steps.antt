-- ===== src/Informers/Factory/Steps.antt =====
-- The calls of a factory one after the other, and what holds after all of them.
use mathlib.Core.Path.{subst}
use eventing_gitlab.Base.{
  ℕ, ◌≡◌, ◌↔◌, refl, sym, ap, ◌∙◌, inl, inr, Option, none, some, List, [], ◌∷◌, map, String, Bool,
  arith, In, All, Distinct, Bool-cases, ◌==◌, eq_iff, if◌then◌else◌,
}
use eventing_gitlab.Base.Dict.{lookup}
use eventing_gitlab.Source.EventTypes.{has_key}
use eventing_gitlab.Source.EventTypes.Laws.{has_key_iff}
use eventing_gitlab.Informers.Factory.{
  SharedInformerFactory, resync_period, start_one, start_each, start, shutdown, informer_for,
}

-- One call that changes the factory.
pub data Step {I T K : Type 0} (set_transform : Option T → I → I)
    : SharedInformerFactory I T K → SharedInformerFactory I T K → Type 0 where
  requested :
      (informer_type : String) (new_func : ℕ → I) (f : SharedInformerFactory I T K)
      → Step set_transform f (informer_for set_transform informer_type new_func f).1
  started :
      (iteration : List (String × I) → List (String × I)) (f : SharedInformerFactory I T K)
      → ((e : String × I) (xs : List (String × I)) → In e (iteration xs) ↔ In e xs)
      → Step set_transform f (start iteration f)
  shut_down : (f : SharedInformerFactory I T K) → Step set_transform f (shutdown f)

-- A sequence of calls.
pub data Run {I T K : Type 0} (set_transform : Option T → I → I)
    : SharedInformerFactory I T K → SharedInformerFactory I T K → Type 0 where
  done : (f : SharedInformerFactory I T K) → Run set_transform f f
  next :
      (f g h : SharedInformerFactory I T K)
      → Step set_transform f g
      → Run set_transform g h
      → Run set_transform f h

abbrev pub keys : {I : Type 0} → List (String × I) → List String
keys = map (λ e. e.0)

All-weaken :
    {A : Type 0} {P Q : A → Type 0} → ((a : A) → P a → Q a) → (xs : List A) → All P xs → All Q xs
All-weaken f [] h = tt
All-weaken f (x ∷ xs) (p, h) = (f x p, All-weaken f xs h)

lookup-none :
    {I : Type 0} (t : String) (m : List (String × I)) → lookup t m ≡ none → ¬ In t (keys m)
unfolding lookup
lookup-none t [] h k = k
lookup-none t ((j, i) ∷ m) h k = elim (Bool-cases (t == j)) [
  | inl same ↦ absurd (ground arith)
  | inr other ↦ elim k [
    | inl here ↦ absurd (ground (arith, eq_iff t j))
    | inr there ↦ lookup-none t m (ground arith) there
  ]
]

module _ {I T K : Type 0} where
  -- One informer of each type, the running ones are among them, they are the started ones, and no
  -- type runs twice.
  abbrev pub WellFormed : SharedInformerFactory I T K → Type 0
  WellFormed f =
      Distinct (keys f.informers)
      × All (λ e. In e f.informers) f.running
      × (keys f.running ≡ f.started_informers)
      × Distinct f.started_informers

  pub start_one-informers :
      (e : String × I) (f : SharedInformerFactory I T K) → (start_one e f).informers ≡ f.informers
  unfolding start_one
  start_one-informers (t, i) f = elim (Bool-cases (has_key t f.started_informers)) [
    | inl already ↦ rw (already) refl
    | inr fresh ↦ rw (fresh) refl
  ]

  pub start_each-informers :
      (es : List (String × I)) (f : SharedInformerFactory I T K)
      → (start_each es f).informers ≡ f.informers
  unfolding start_each
  start_each-informers [] f = refl
  start_each-informers (e ∷ es) f =
      start_each-informers es (start_one e f) ∙ start_one-informers e f

  -- The branches of `start_one`.
  abbrev by_started : String × I → Bool → SharedInformerFactory I T K → SharedInformerFactory I T K
  by_started (t, i) already f =
      if already
      then f
      else record f { started_informers = t ∷ f.started_informers; running = (t, i) ∷ f.running }

  pub start_one-WellFormed :
      (e : String × I) (f : SharedInformerFactory I T K)
      → In e f.informers
      → WellFormed f
      → WellFormed (start_one e f)
  unfolding start_one
  start_one-WellFormed (t, i) f there (one, among, same, once) =
      elim (Bool-cases (has_key t f.started_informers)) [
        | inl already ↦
            subst (λ b. WellFormed (by_started (t, i) b f)) (sym already) (one, among, same, once)
        | inr fresh ↦
            subst (λ b. WellFormed (by_started (t, i) b f)) (sym fresh)
              (
                one,
                (there, among),
                ap (λ ts. t ∷ ts) same,
                ((λ h. absurd (ground (arith, has_key_iff t f.started_informers))), once),
              )
      ]

  start_each-WellFormed :
      (es : List (String × I)) (f : SharedInformerFactory I T K)
      → ((e : String × I) → In e es → In e f.informers)
      → WellFormed f
      → WellFormed (start_each es f)
  unfolding start_each
  start_each-WellFormed [] f there h = h
  start_each-WellFormed (e ∷ es) f there h =
      start_each-WellFormed es (start_one e f)
        (λ x k. subst (In x) (sym (start_one-informers e f)) (there x (inr k)))
        (start_one-WellFormed e f (there e (inl refl)) h)

  pub start-WellFormed :
      (iteration : List (String × I) → List (String × I)) (f : SharedInformerFactory I T K)
      → ((e : String × I) (xs : List (String × I)) → In e (iteration xs) ↔ In e xs)
      → WellFormed f
      → WellFormed (start iteration f)
  unfolding start
  start-WellFormed iteration f visits h = elim (Bool-cases f.shutting_down) [
    | inl down ↦
        subst (λ b. WellFormed (if b then f else start_each (iteration f.informers) f)) (sym down) h
    | inr up ↦
        subst (λ b. WellFormed (if b then f else start_each (iteration f.informers) f)) (sym up)
          (start_each-WellFormed (iteration f.informers) f (λ e. (visits e f.informers).0) h)
  ]

  informer_for-WellFormed :
      (set_transform : Option T → I → I) (t : String) (new_func : ℕ → I)
      (f : SharedInformerFactory I T K)
      → WellFormed f
      → WellFormed (informer_for set_transform t new_func f).1
  unfolding informer_for
  informer_for-WellFormed set_transform t new_func f (one, among, same, once) =
      by_lookup (lookup t f.informers) refl
    where
      added : I
      added = set_transform f.transform (new_func (resync_period t f))

      by_lookup :
          (o : Option I)
          → lookup t f.informers ≡ o
          → WellFormed (
              (elim o as (λ x. I × SharedInformerFactory I T K) [
                | some informer ↦ (informer, f)
                | none ↦ (added, record f { informers = (t, added) ∷ f.informers })
              ]).1)
      by_lookup (some informer) h = (one, among, same, once)
      by_lookup none h = (
        (lookup-none t f.informers h, one),
        All-weaken (λ e k. inr k) f.running among,
        same,
        once,
      )

  pub Step-WellFormed :
      (set_transform : Option T → I → I) {f g : SharedInformerFactory I T K}
      → Step set_transform f g
      → WellFormed f
      → WellFormed g
  unfolding shutdown
  Step-WellFormed set_transform (requested t new_func f) h =
      informer_for-WellFormed set_transform t new_func f h
  Step-WellFormed set_transform (started iteration f visits) h =
      start-WellFormed iteration f visits h
  Step-WellFormed set_transform (shut_down f) h = h

  pub Run-WellFormed :
      (set_transform : Option T → I → I) {f g : SharedInformerFactory I T K}
      → Run set_transform f g
      → WellFormed f
      → WellFormed g
  Run-WellFormed set_transform (done f) h = h
  Run-WellFormed set_transform (next f g k step run) h =
      Run-WellFormed set_transform run (Step-WellFormed set_transform step h)
