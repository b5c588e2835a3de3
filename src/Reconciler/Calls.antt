-- ===== src/Reconciler/Calls.antt =====
-- The rules for a call of a service, whose error the reconciler looks at or hands on.
use eventing_gitlab.Base.{◌≡◌, refl, ap}
use eventing_gitlab.Errors.{Err, Result, ok, err, panic, Action, attempt, ◌>>=◌}
use eventing_gitlab.Reconciler.Cluster.{World, calling, Doing}

module _ {C W A B : Type 0} (Q : Result B × World C W → Type 0) where
  pub Ending-calling :
      (m : Action W A) (f : Result A → Doing C W B) (w : World C W)
      → ((a : A) (e : W)
          → m w.environment ≡ (ok a, e)
          → Q (f (ok a) (record w { environment = e })))
      → ((x : Err) (e : W)
          → m w.environment ≡ (err x, e)
          → Q (f (err x) (record w { environment = e })))
      → ((w' : World C W) → Q (panic, w'))
      → Q ((attempt (calling m) >>= f) w)
  Ending-calling m f w on_ok on_err on_panic = by_outcome (m w.environment) refl
    where
      by_outcome :
          (r : Result A × W) → m w.environment ≡ r → Q ((attempt (calling (λ _. r)) >>= f) w)
      by_outcome (ok a, e) h = on_ok a e h
      by_outcome (err x, e) h = on_err x e h
      by_outcome (panic, e) h = on_panic (record w { environment = e })

  pub Ending-call :
      (m : Action W A) (f : A → Doing C W B) (w : World C W)
      → ((a : A) (e : W) → m w.environment ≡ (ok a, e) → Q (f a (record w { environment = e })))
      → ((x : Err) (e : W) → m w.environment ≡ (err x, e) → Q (err x, record w { environment = e }))
      → ((w' : World C W) → Q (panic, w'))
      → Q ((calling m >>= f) w)
  Ending-call m f w on_ok on_err on_panic = by_outcome (m w.environment) refl
    where
      by_outcome : (r : Result A × W) → m w.environment ≡ r → Q ((calling (λ _. r) >>= f) w)
      by_outcome (ok a, e) h = on_ok a e h
      by_outcome (err x, e) h = on_err x e h
      by_outcome (panic, e) h = on_panic (record w { environment = e })

-- A call of a service whose end is known.
module _ {C W A : Type 0} (m : Action W A) (w : World C W) where
  pub calling-ok :
      {a : A} {e : W}
      → m w.environment ≡ (ok a, e)
      → calling m w ≡ (ok a, record w { environment = e })
  calling-ok h = ap (λ t. calling (λ _. t) w) h

  pub calling-err :
      {x : Err} {e : W}
      → m w.environment ≡ (err x, e)
      → calling m w ≡ (err x, record w { environment = e })
  calling-err h = ap (λ t. calling (λ _. t) w) h
