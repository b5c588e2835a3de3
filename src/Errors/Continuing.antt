-- ===== src/Errors/Continuing.antt =====
-- How an action goes on behind a call whose end is known.
use eventing_gitlab.Base.{◌≡◌, refl, ap, ◌∙◌}
use eventing_gitlab.Errors.{Err, Result, ok, err, panic, Action, attempt, ◌>>=◌}

module _ {S A B : Type 0} (m : Action S A) where
  pub bind-ok : (f : A → Action S B) {s s' : S} {a : A} → m s ≡ (ok a, s') → (m >>= f) s ≡ f a s'
  bind-ok f {s} h = ap (λ t. ((λ _. t) >>= f) s) h

  pub bind-err :
      (f : A → Action S B) {s s' : S} {e : Err} → m s ≡ (err e, s') → (m >>= f) s ≡ (err e, s')
  bind-err f {s} h = ap (λ t. ((λ _. t) >>= f) s) h

  pub attempt-ok :
      (f : Result A → Action S B) {s s' : S} {a : A}
      → m s ≡ (ok a, s')
      → (attempt m >>= f) s ≡ f (ok a) s'
  attempt-ok f {s} h = ap (λ t. (attempt (λ _. t) >>= f) s) h

  pub attempt-err :
      (f : Result A → Action S B) {s s' : S} {e : Err}
      → m s ≡ (err e, s')
      → (attempt m >>= f) s ≡ f (err e) s'
  attempt-err f {s} h = ap (λ t. (attempt (λ _. t) >>= f) s) h

  -- Two continuations that agree on what the call returns.
  pub bind-agree :
      (f g : A → Action S B) (s : S)
      → ((a : A) (s' : S) → m s ≡ (ok a, s') → f a s' ≡ g a s')
      → (m >>= f) s ≡ (m >>= g) s
  bind-agree f g s agree = by_outcome (m s) refl
    where
      by_outcome : (r : Result A × S) → m s ≡ r → ((λ _. r) >>= f) s ≡ ((λ _. r) >>= g) s
      by_outcome (ok a, s') h = agree a s' h
      by_outcome (err e, s') h = refl
      by_outcome (panic, s') h = refl

  -- Two calls that agree, with continuations that do.
  pub attempt-agree :
      (n : Action S A) (f g : Result A → Action S B) (s : S)
      → m s ≡ n s
      → ((r : Result A) (s' : S) → f r s' ≡ g r s')
      → (attempt m >>= f) s ≡ (attempt n >>= g) s
  attempt-agree n f g s same agree = by_outcome (m s) ∙ ap (λ t. (attempt (λ _. t) >>= g) s) same
    where
      by_outcome : (r : Result A × S) → (attempt (λ _. r) >>= f) s ≡ (attempt (λ _. r) >>= g) s
      by_outcome (ok a, s') = agree (ok a) s'
      by_outcome (err e, s') = agree (err e) s'
      by_outcome (panic, s') = refl

  -- An action that returns has returned from its call, and from what follows it.
  pub bind-eq-ok :
      (f : A → Action S B) (s : S) {b : B} {s'' : S}
      → (m >>= f) s ≡ (ok b, s'')
      → (a : A) × (s' : S) × (m s ≡ (ok a, s')) × (f a s' ≡ (ok b, s''))
  bind-eq-ok f s {b} {s''} = by_outcome (m s) refl
    where
      by_outcome :
          (r : Result A × S)
          → m s ≡ r
          → ((λ _. r) >>= f) s ≡ (ok b, s'')
          → (a : A) × (s' : S) × (m s ≡ (ok a, s')) × (f a s' ≡ (ok b, s''))
      by_outcome (ok a, s') h e = (a, s', h, e)
      by_outcome (err x, s') h e = cc
      by_outcome (panic, s') h e = cc

  -- Two continuations that agree on how the call ends.
  pub attempt-agree_at :
      (f g : Result A → Action S B) (s : S)
      → ((r : Result A) (s' : S) → m s ≡ (r, s') → f r s' ≡ g r s')
      → (attempt m >>= f) s ≡ (attempt m >>= g) s
  attempt-agree_at f g s agree = by_outcome (m s) refl
    where
      by_outcome :
          (r : Result A × S) → m s ≡ r → (attempt (λ _. r) >>= f) s ≡ (attempt (λ _. r) >>= g) s
      by_outcome (ok a, s') h = agree (ok a) s' h
      by_outcome (err e, s') h = agree (err e) s' h
      by_outcome (panic, s') h = refl
