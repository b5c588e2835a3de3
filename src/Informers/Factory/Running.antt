-- ===== src/Informers/Factory/Running.antt =====
-- Which informers run.
use mathlib.Core.Path.{subst}
use eventing_gitlab.Base.{
  ℕ, ◌≡◌, ◌↔◌, refl, sym, ap, ◌∙◌, inl, inr, Option, none, some, List, [], ◌∷◌, String, true, false,
  In, All, Distinct, Bool-cases, if◌then◌else◌,
}
use eventing_gitlab.Base.Dict.{lookup}
use eventing_gitlab.Source.EventTypes.{has_key}
use eventing_gitlab.Source.EventTypes.Laws.{has_key_iff}
use eventing_gitlab.Informers.Factory.{
  SharedInformerFactory, with_namespace, with_tweak_list_options, apply_all,
  new_shared_informer_factory_with_options, new_filtered_shared_informer_factory, start_one,
  start_each, start, shutdown, resync_period, informer_for,
}
use eventing_gitlab.Informers.Factory.Steps.{
  Step, requested, started, shut_down, Run, done, next, keys, WellFormed, start_one-informers,
  start_each-informers, start_one-WellFormed, Run-WellFormed,
}

pub All-In : {A : Type 0} (P : A → Type 0) (a : A) (xs : List A) → All P xs → In a xs → P a
All-In P a [] h k = absurd k
All-In P a (x ∷ xs) (p, h) (inl e) = subst P (sym e) p
All-In P a (x ∷ xs) (p, h) (inr k) = All-In P a xs h k

module _ {I : Type 0} where
  pub In-keys : (t : String) (i : I) (m : List (String × I)) → In (t, i) m → In t (keys m)
  In-keys t i [] k = absurd k
  In-keys t i ((u, j) ∷ m) (inl e) = inl (ap (λ p. p.0) e)
  In-keys t i ((u, j) ∷ m) (inr k) = inr (In-keys t i m k)

  pub keys-In : (t : String) (m : List (String × I)) → In t (keys m) → (i : I) × In (t, i) m
  keys-In t [] k = absurd k
  keys-In t ((u, j) ∷ m) (inl e) = (j, inl (ap (λ x. (x, j)) e))
  keys-In t ((u, j) ∷ m) (inr k) = let (i, h) = keys-In t m k in (i, inr h)

  keys_unique :
      (t : String) (i j : I) (m : List (String × I))
      → Distinct (keys m)
      → In (t, i) m
      → In (t, j) m
      → i ≡ j
  keys_unique t i j [] d h h' = absurd h
  keys_unique t i j ((u, k) ∷ m) (fresh, d) (inl e) (inl e') =
      ap (λ p. p.1) e ∙ sym (ap (λ p. p.1) e')
  keys_unique t i j ((u, k) ∷ m) (fresh, d) (inl e) (inr h) =
      absurd (fresh (subst (λ x. In x (keys m)) (ap (λ p. p.0) e) (In-keys t j m h)))
  keys_unique t i j ((u, k) ∷ m) (fresh, d) (inr h) (inl e) =
      absurd (fresh (subst (λ x. In x (keys m)) (ap (λ p. p.0) e) (In-keys t i m h)))
  keys_unique t i j ((u, k) ∷ m) (fresh, d) (inr h) (inr h') = keys_unique t i j m d h h'

module _ {I T K : Type 0} where
  -- Whatever calls follow one another on a new factory, there is one informer of each type, those
  -- that run are among them, they are of the types that count as started, and no type runs twice.
  pub new_factory-WellFormed :
      (set_transform : Option T → I → I) (default_resync : ℕ) (namespace : String)
      (tweak : Option K) (f : SharedInformerFactory I T K)
      → Run set_transform (new_filtered_shared_informer_factory default_resync namespace tweak) f
      → WellFormed f
  unfolding new_filtered_shared_informer_factory new_shared_informer_factory_with_options apply_all
      with_namespace with_tweak_list_options
  new_factory-WellFormed set_transform default_resync namespace tweak f run =
      Run-WellFormed set_transform run (tt, tt, refl, tt)

  start_one-keeps :
      (e x : String × I) (f : SharedInformerFactory I T K)
      → In x f.running
      → In x (start_one e f).running
  unfolding start_one
  start_one-keeps (t, i) x f there = elim (Bool-cases (has_key t f.started_informers)) [
    | inl already ↦ rw (already) there
    | inr fresh ↦ rw (fresh) (inr there)
  ]

  start_each-keeps :
      (es : List (String × I)) (x : String × I) (f : SharedInformerFactory I T K)
      → In x f.running
      → In x (start_each es f).running
  unfolding start_each
  start_each-keeps [] x f there = there
  start_each-keeps (e ∷ es) x f there =
      start_each-keeps es x (start_one e f) (start_one-keeps e x f there)

  start_one-shutting_down :
      (e : String × I) (f : SharedInformerFactory I T K)
      → (start_one e f).shutting_down ≡ f.shutting_down
  unfolding start_one
  start_one-shutting_down (t, i) f = elim (Bool-cases (has_key t f.started_informers)) [
    | inl already ↦ rw (already) refl
    | inr fresh ↦ rw (fresh) refl
  ]

  pub start_each-shutting_down :
      (es : List (String × I)) (f : SharedInformerFactory I T K)
      → (start_each es f).shutting_down ≡ f.shutting_down
  unfolding start_each
  start_each-shutting_down [] f = refl
  start_each-shutting_down (e ∷ es) f =
      start_each-shutting_down es (start_one e f) ∙ start_one-shutting_down e f

  start_one-runs :
      (e : String × I) (f : SharedInformerFactory I T K)
      → WellFormed f
      → In e f.informers
      → In e (start_one e f).running
  unfolding start_one
  start_one-runs (t, i) f (one, among, same, once) there =
      elim (Bool-cases (has_key t f.started_informers)) [
        | inr fresh ↦ rw (fresh) (inl refl)
        | inl already ↦ rw (already) (
            let marked : In t (keys f.running) =
              subst (In t) (sym same) ((has_key_iff t f.started_informers).0 already) in
            let (j, runs) = keys-In t f.running marked in
            subst (λ k. In (t, k) f.running)
              (keys_unique t j i f.informers one
                (All-In (λ e. In e f.informers) (t, j) f.running among runs) there)
              runs)
      ]

  start_each-runs :
      (es : List (String × I)) (f : SharedInformerFactory I T K)
      → WellFormed f
      → ((e : String × I) → In e es → In e f.informers)
      → (x : String × I) → In x es
      → In x (start_each es f).running
  unfolding start_each
  start_each-runs [] f h there x k = absurd k
  start_each-runs (e ∷ es) f h there x (inl here) = start_each-keeps es x (start_one e f) (
      subst (λ y. In y (start_one e f).running) (sym here)
        (start_one-runs e f h (there e (inl refl))))
  start_each-runs (e ∷ es) f h there x (inr k) =
      start_each-runs es (start_one e f) (start_one-WellFormed e f (there e (inl refl)) h)
        (λ y l. subst (In y) (sym (start_one-informers e f)) (there y (inr l))) x k

  pub start_up :
      (iteration : List (String × I) → List (String × I)) (f : SharedInformerFactory I T K)
      → f.shutting_down ≡ false
      → start iteration f ≡ start_each (iteration f.informers) f
  unfolding start
  start_up iteration f up = ap (λ b. if b then f else start_each (iteration f.informers) f) up

  pub start_down :
      (iteration : List (String × I) → List (String × I)) (f : SharedInformerFactory I T K)
      → f.shutting_down ≡ true
      → start iteration f ≡ f
  unfolding start
  start_down iteration f down = ap (λ b. if b then f else start_each (iteration f.informers) f) down

  -- After `Start` on a factory that is not shutting down, in whatever order it visits the map, every
  -- informer that was requested runs, and it is still one that was requested.
  pub start-running :
      (iteration : List (String × I) → List (String × I)) (f : SharedInformerFactory I T K)
      → ((e : String × I) (xs : List (String × I)) → In e (iteration xs) ↔ In e xs)
      → WellFormed f
      → f.shutting_down ≡ false
      → (e : String × I) → In e f.informers
      → In e (start iteration f).running × In e (start iteration f).informers
  start-running iteration f visits h up e there =
      let runs =
        start_each-runs (iteration f.informers) f h (λ x. (visits x f.informers).0) e
          ((visits e f.informers).1 there) in
      let kept = subst (In e) (sym (start_each-informers (iteration f.informers) f)) there in
      subst (λ g. In e g.running × In e g.informers) (sym (start_up iteration f up)) (runs, kept)

  pub informer_for-running :
      (set_transform : Option T → I → I) (t : String) (new_func : ℕ → I)
      (f : SharedInformerFactory I T K)
      → ((informer_for set_transform t new_func f).1.shutting_down ≡ f.shutting_down)
        × ((informer_for set_transform t new_func f).1.running ≡ f.running)
  unfolding informer_for
  informer_for-running set_transform t new_func f = by_lookup (lookup t f.informers)
    where
      added : I
      added = set_transform f.transform (new_func (resync_period t f))

      found : Option I → SharedInformerFactory I T K
      found o =
          (elim o as (λ x. I × SharedInformerFactory I T K) [
            | some informer ↦ (informer, f)
            | none ↦ (added, record f { informers = (t, added) ∷ f.informers })
          ]).1

      by_lookup :
          (o : Option I)
          → ((found o).shutting_down ≡ f.shutting_down) × ((found o).running ≡ f.running)
      by_lookup (some informer) = (refl, refl)
      by_lookup none = (refl, refl)

  Step-after_shutdown :
      (set_transform : Option T → I → I) {f g : SharedInformerFactory I T K}
      → Step set_transform f g
      → f.shutting_down ≡ true
      → (g.shutting_down ≡ true) × (g.running ≡ f.running)
  unfolding shutdown
  Step-after_shutdown set_transform (requested t new_func f) down =
      let (flag, same) = informer_for-running set_transform t new_func f in (flag ∙ down, same)
  Step-after_shutdown set_transform (started iteration f visits) down =
      let same = start_down iteration f down in
      (ap (λ h. h.shutting_down) same ∙ down, ap (λ h. h.running) same)
  Step-after_shutdown set_transform (shut_down f) down = (refl, refl)

  -- Once a factory shuts down, no sequence of calls starts an informer.
  pub Run-after_shutdown :
      (set_transform : Option T → I → I) {f g : SharedInformerFactory I T K}
      → Run set_transform f g
      → f.shutting_down ≡ true
      → (g.shutting_down ≡ true) × (g.running ≡ f.running)
  Run-after_shutdown set_transform (done f) down = (down, refl)
  Run-after_shutdown set_transform (next f g h step run) down =
      let (down', same) = Step-after_shutdown set_transform step down in
      let (down'', same') = Run-after_shutdown set_transform run down' in (down'', same' ∙ same)
