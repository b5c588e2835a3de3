-- ===== src/Runtime/StatusUpdate/Retrying.antt =====
-- What `RetryUpdateConflicts` of knative.dev/pkg/reconciler documents.
use mathlib.Core.Path.{subst}
use eventing_gitlab.Base.{
  ℕ, zero, suc, ◌+◌, ◌≡◌, refl, sym, ap, ◌∙◌, inl, inr, Bool, true, false, arith, if◌then◌else◌,
  Bool-cases, ◌≤◌,
}
use eventing_gitlab.Errors.{Err, Result, ok, err, panic, fail, attempt, crash, ◌>>=◌, pure}
use eventing_gitlab.Errors.Continuing.{attempt-ok, attempt-err}
use eventing_gitlab.Reconciler.Cluster.{World, Doing}
use eventing_gitlab.Runtime.Impl.{ReconcilerImpl, Library}

module _ {C W : Type 0} (is_conflict : Err → Bool) where
  -- What follows an attempt: `again` after a conflict.
  abbrev pub retried : (again : Doing C W (Unit {0})) → Result (Unit {0}) → Doing C W (Unit {0})
  retried again (ok u) = pure u
  retried again (err e) = if is_conflict e then again else fail e
  retried again panic = crash

  -- At most `more` attempts after the one numbered `made`, each after a conflict.
  abbrev pub attempts_from : (ℕ → Doing C W (Unit {0})) → (made more : ℕ) → Doing C W (Unit {0})
  attempts_from f made zero = f made
  attempts_from f made (suc more) = attempt (f made) >>= retried (attempts_from f (suc made) more)

  -- The last attempt: its number, the world that it starts from, and that only the last one allowed
  -- may end with a conflict.
  abbrev pub LastAttempt :
      (ℕ → Doing C W (Unit {0})) → (made more : ℕ) → Result (Unit {0}) × World C W → Type 0
  LastAttempt f made more r =
      (k : ℕ) × (v : World C W) × (made ≤ k)
      × (k ≤ made + more)
      × (f k v ≡ r)
      × ((e : Err) (v' : World C W) → r ≡ (err e, v') → is_conflict e ≡ true → k ≡ made + more)

  LastAttempt-suc :
      (f : ℕ → Doing C W (Unit {0})) (made more : ℕ) (r : Result (Unit {0}) × World C W)
      → LastAttempt f (suc made) more r
      → LastAttempt f made (suc more) r
  LastAttempt-suc f made more r (k, v, low, high, same, last) = (
    k,
    v,
    omega (arith, low),
    omega (arith, high),
    same,
    λ e v' h c. omega (arith, last e v' h c),
  )

  retried-LastAttempt :
      (f : ℕ → Doing C W (Unit {0})) (made more : ℕ) (w : World C W) (again : Doing C W (Unit {0}))
      → ((w' : World C W) → LastAttempt f (suc made) more (again w'))
      → (r : Result (Unit {0}) × World C W) → f made w ≡ r
      → LastAttempt f made (suc more) ((attempt (λ _. r) >>= retried again) w)
  retried-LastAttempt f made more w again later (ok u, w') h =
      (made, w, omega arith, omega arith, h, λ e v' same c. ground arith)
  retried-LastAttempt f made more w again later (panic, w') h =
      (made, w, omega arith, omega arith, h, λ e v' same c. ground arith)
  retried-LastAttempt f made more w again later (err e, w') h = elim (Bool-cases (is_conflict e)) [
    | inl conflict ↦
        subst (λ b. LastAttempt f made (suc more) ((if b then again else fail e) w')) (sym conflict)
          (LastAttempt-suc f made more (again w') (later w'))
    | inr other ↦
        subst (λ b. LastAttempt f made (suc more) ((if b then again else fail e) w')) (sym other)
          (made, w, omega arith, omega arith, h, λ e' v' same c. absurd (ground arith))
  ]

  pub attempts_from-LastAttempt :
      (f : ℕ → Doing C W (Unit {0})) (made more : ℕ) (w : World C W)
      → LastAttempt f made more (attempts_from f made more w)
  attempts_from-LastAttempt f made zero w =
      (made, w, omega arith, omega arith, refl, λ e v' h c. omega arith)
  attempts_from-LastAttempt f made (suc more) w =
      retried-LastAttempt f made more w (attempts_from f (suc made) more)
        (attempts_from-LastAttempt f (suc made) more) (f made w) refl

  pub attempts_from-ok :
      (f : ℕ → Doing C W (Unit {0})) (made more : ℕ) {w w' : World C W}
      → f made w ≡ (ok tt, w')
      → attempts_from f made more w ≡ (ok tt, w')
  attempts_from-ok f made zero h = h
  attempts_from-ok f made (suc more) h =
      attempt-ok (f made) (retried (attempts_from f (suc made) more)) h

  pub attempts_from-failed :
      (f : ℕ → Doing C W (Unit {0})) (made more : ℕ) {w w' : World C W} {e : Err}
      → f made w ≡ (err e, w')
      → is_conflict e ≡ false
      → attempts_from f made more w ≡ (err e, w')
  attempts_from-failed f made zero h other = h
  attempts_from-failed f made (suc more) {w' = w'} {e = e} h other =
      let again = attempts_from f (suc made) more in
      attempt-err (f made) (retried again) h ∙ ap (λ b. (if b then again else fail e) w') other

  pub attempts_from-panic :
      (f : ℕ → Doing C W (Unit {0})) (made more : ℕ) {w w' : World C W}
      → f made w ≡ (panic, w')
      → attempts_from f made more w ≡ (panic, w')
  attempts_from-panic f made zero h = h
  attempts_from-panic f made (suc more) {w} h =
      ap (λ t. (attempt (λ _. t) >>= retried (attempts_from f (suc made) more)) w) h

  pub attempts_from-conflict :
      (f : ℕ → Doing C W (Unit {0})) (made more : ℕ) {w w' : World C W} {e : Err}
      → f made w ≡ (err e, w')
      → is_conflict e ≡ true
      → attempts_from f made (suc more) w ≡ attempts_from f (suc made) more w'
  attempts_from-conflict f made more {w' = w'} {e = e} h conflict =
      let again = attempts_from f (suc made) more in
      attempt-err (f made) (retried again) h ∙ ap (λ b. (if b then again else fail e) w') conflict

-- What `RetryUpdateConflicts` does: it calls the update with the number of the attempt, and again
-- after a conflict as long as `retries` lasts.
pub record Retries {C W : Type 0} (lib : Library C W) (r : ReconcilerImpl C W) : Type 0 where
  pub retries : ℕ
  pub retrying :
      (f : ℕ → Doing C W (Unit {0})) (w : World C W)
      → lib.retry_update_conflicts f w ≡ attempts_from r.client.is_conflict f 0 retries w
