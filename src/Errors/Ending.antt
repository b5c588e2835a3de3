-- ===== src/Errors/Ending.antt =====
-- What holds at the end of an action, by its result and its last state, and the rules for its parts.
use eventing_gitlab.Base.{◌≡◌, refl}
use eventing_gitlab.Errors.{Err, Result, ok, err, panic, Action, attempt, ◌>>=◌}

module _ {S A B : Type 0} (Q : Result B × S → Type 0) where
  pub Ending-bind :
      (m : Action S A) (f : A → Action S B) (s : S)
      → ((a : A) (s' : S) → m s ≡ (ok a, s') → Q (f a s'))
      → ((e : Err) (s' : S) → m s ≡ (err e, s') → Q (err e, s'))
      → ((s' : S) → Q (panic, s'))
      → Q ((m >>= f) s)
  Ending-bind m f s on_ok on_err on_panic = by_outcome (m s) refl
    where
      by_outcome : (r : Result A × S) → m s ≡ r → Q (((λ _. r) >>= f) s)
      by_outcome (ok a, s') e = on_ok a s' e
      by_outcome (err x, s') e = on_err x s' e
      by_outcome (panic, s') e = on_panic s'

  pub Ending-attempt :
      (m : Action S A) (f : Result A → Action S B) (s : S)
      → ((a : A) (s' : S) → m s ≡ (ok a, s') → Q (f (ok a) s'))
      → ((e : Err) (s' : S) → m s ≡ (err e, s') → Q (f (err e) s'))
      → ((s' : S) → Q (panic, s'))
      → Q ((attempt m >>= f) s)
  Ending-attempt m f s on_ok on_err on_panic = by_outcome (m s) refl
    where
      by_outcome : (r : Result A × S) → m s ≡ r → Q ((attempt (λ _. r) >>= f) s)
      by_outcome (ok a, s') e = on_ok a s' e
      by_outcome (err x, s') e = on_err x s' e
      by_outcome (panic, s') e = on_panic s'
