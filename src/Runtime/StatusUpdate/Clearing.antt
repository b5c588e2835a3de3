-- ===== src/Runtime/StatusUpdate/Clearing.antt =====
-- `updateStatus` comes to an end with the status written when the conflicts do.
use eventing_gitlab.Base.{
  ℕ, zero, suc, ◌≡◌, refl, ap, ◌∙◌, ◌⊎◌, inl, inr, true, arith, Bool, Bool-cases, if◌then◌else◌,
  ◌≤◌,
}
use eventing_gitlab.Errors.{Err, ok, err, Action, pure, ◌>>=◌}
use eventing_gitlab.Errors.Continuing.{bind-ok, bind-err}
use eventing_gitlab.Reconciler.Calls.{calling-ok, calling-err}
use eventing_gitlab.Source.Types.{GitLabSource}
use eventing_gitlab.Reconciler.Cluster.{World, calling, Doing}
use eventing_gitlab.Runtime.Impl.{ReconcilerImpl, Library}
use eventing_gitlab.Runtime.StatusUpdate.{write_status, attempt_update, update_status}
use eventing_gitlab.Runtime.StatusUpdate.Retrying.{
  attempts_from, attempts_from-ok, attempts_from-conflict, Retries,
}

module _ {C W : Type 0} (lib : Library C W) (r : ReconcilerImpl C W)
    (desired : GitLabSource C) where
  open r use {client}

  -- The API refuses the update of `existing`, and of the versions got after it, by `n` conflicts in
  -- all, and accepts the next.
  abbrev pub Clears : (existing : GitLabSource C) → (n : ℕ) → W → Type 0
  Clears existing zero e =
      (updated : GitLabSource C) × (e' : W) × (client.update_status existing.metadata.namespace
          (record existing { status = desired.status }) e
        ≡ (ok updated, e'))
  Clears existing (suc n) e =
      (x : Err) × (e' : W) × (latest : GitLabSource C) × (e'' : W) × (client.update_status
          existing.metadata.namespace (record existing { status = desired.status }) e
        ≡ (err x, e'))
      × (client.is_conflict x ≡ true)
      × (client.get desired.metadata.namespace desired.metadata.name e' ≡ (ok latest, e''))
      × Clears latest n e''

  -- The update that `write_status` sends.
  abbrev written : GitLabSource C → Action W (GitLabSource C)
  written existing =
      client.update_status existing.metadata.namespace (record existing { status = desired.status })

  abbrev by_equality : GitLabSource C → Bool → Doing C W (Unit {0})
  by_equality existing same =
      if same then pure tt else calling (written existing) >>= λ updated. pure tt

  write_status_accepted :
      (existing : GitLabSource C) (w : World C W)
      → Clears existing zero w.environment
      → (w' : World C W) × (write_status lib r desired existing w ≡ (ok tt, w'))
  unfolding write_status
  write_status_accepted existing w (updated, e', h) =
      elim (Bool-cases (lib.deep_equal existing.status desired.status)) [
        | inl same ↦ (w, ap (λ b. by_equality existing b w) same)
        | inr other ↦ (
          record w { environment = e' },
          ap (λ b. by_equality existing b w) other
              ∙ bind-ok (calling (written existing)) (λ u. pure tt)
                  (calling-ok (written existing) w h),
        )
      ]

  write_status_refused :
      (existing : GitLabSource C) (w : World C W) {x : Err} {e' : W}
      → written existing w.environment ≡ (err x, e')
      → (write_status lib r desired existing w ≡ (ok tt, w))
        ⊎ (write_status lib r desired existing w ≡ (err x, record w { environment = e' }))
  unfolding write_status
  write_status_refused existing w h =
      elim (Bool-cases (lib.deep_equal existing.status desired.status)) [
        | inl same ↦ inl (ap (λ b. by_equality existing b w) same)
        | inr other ↦ inr (
            ap (λ b. by_equality existing b w) other
            ∙ bind-err (calling (written existing)) (λ u. pure tt)
                (calling-err (written existing) w h))
      ]

  attempt_update_later :
      (first : GitLabSource C) (made : ℕ) (w : World C W) {latest : GitLabSource C} {e : W}
      → client.get desired.metadata.namespace desired.metadata.name w.environment ≡ (ok latest, e)
      → attempt_update lib r first desired (suc made) w
        ≡ write_status lib r desired latest (record w { environment = e })
  unfolding attempt_update
  attempt_update_later first made w h =
      let query = client.get desired.metadata.namespace desired.metadata.name in
      bind-ok (calling query) (write_status lib r desired) (calling-ok query w h)

  attempts_from-Clears :
      (first existing : GitLabSource C) (made n more : ℕ) (v w : World C W)
      → attempt_update lib r first desired made v ≡ write_status lib r desired existing w
      → Clears existing n w.environment
      → n ≤ more
      → (w' : World C W) × (attempts_from client.is_conflict
            (attempt_update lib r first desired)
            made
            more
            v
          ≡ (ok tt, w'))
  attempts_from-Clears first existing made zero more v w tries clears enough =
      let (w', h) = write_status_accepted existing w clears in
      (
        w',
        attempts_from-ok client.is_conflict (attempt_update lib r first desired) made more
            (tries ∙ h),
      )
  attempts_from-Clears first existing made (suc n) zero v w tries clears enough =
      absurd (omega (arith, enough))
  attempts_from-Clears first existing made (suc n) (suc more) v w tries
        (x, e', latest, e'', refused, conflict, got, clears) enough =
      let f = attempt_update lib r first desired in
      let w' : World C W = record w { environment = e' } in
      let (last, later) =
        attempts_from-Clears first latest (suc made) n more w' (record w { environment = e'' })
          (attempt_update_later first made w' got) clears (omega (arith, enough)) in
      elim (write_status_refused existing w refused) [
        | inl h ↦ (w, attempts_from-ok client.is_conflict f made (suc more) (tries ∙ h))
        | inr h ↦ (
          last,
          attempts_from-conflict client.is_conflict f made more (tries ∙ h) conflict ∙ later,
        )
      ]

  -- If the API refuses the status by no more conflicts than `RetryUpdateConflicts` retries, and then
  -- accepts it, `updateStatus` returns no error.
  pub update_status-Clears :
      (again : Retries lib r) (existing : GitLabSource C) (n : ℕ) (w : World C W)
      → Clears existing n w.environment
      → n ≤ again.retries
      → (w' : World C W) × (update_status lib r existing desired w ≡ (ok tt, w'))
  unfolding update_status attempt_update
  update_status-Clears again existing n w clears enough =
      let (w', h) =
        attempts_from-Clears existing existing 0 n again.retries w w refl clears enough in
      (w', again.retrying (attempt_update lib r existing desired) w ∙ h)
