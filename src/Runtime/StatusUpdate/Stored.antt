-- ===== src/Runtime/StatusUpdate/Stored.antt =====
-- What the API holds after `updateStatus`.
use mathlib.Core.Path.{subst}
use eventing_gitlab.Base.{
  ℕ, zero, suc, ◌≡◌, sym, ap, ◌∙◌, ◌⊎◌, inl, inr, true, false, arith, Bool, Bool-cases, Option,
  some, String, if◌then◌else◌,
}
use eventing_gitlab.Errors.{Result, ok, err, panic, Action, pure, ◌>>=◌}
use eventing_gitlab.Source.Types.{GitLabSource, GitLabSourceStatus}
use eventing_gitlab.Reconciler.Cluster.{World, calling, Doing}
use eventing_gitlab.Reconciler.Calls.{Ending-call}
use eventing_gitlab.Runtime.Impl.{ReconcilerImpl, Library}
use eventing_gitlab.Runtime.StatusUpdate.{write_status, attempt_update, update_status}
use eventing_gitlab.Runtime.StatusUpdate.Retrying.{attempts_from-LastAttempt, Retries}

abbrev pub named : {C : Type 0} → GitLabSource C → String × String
named o = (o.metadata.namespace, o.metadata.name)

-- The statuses that the API holds: an update that is accepted stores the status of the object, and
-- `Get` gives the object of the name with the status that is stored.
pub record Store {C W : Type 0} (r : ReconcilerImpl C W) : Type 0 where
  pub stored : W → String × String → Option (GitLabSourceStatus C)
  pub stored-update_status :
      (o : GitLabSource C) (e : W) {updated : GitLabSource C} {e' : W}
      → r.client.update_status o.metadata.namespace o e ≡ (ok updated, e')
      → stored e' (named o) ≡ some o.status
  pub stored-get :
      (namespace name : String) (e : W) {found : GitLabSource C} {e' : W}
      → r.client.get namespace name e ≡ (ok found, e')
      → (named found ≡ (namespace, name)) × (stored e' (namespace, name) ≡ some found.status)

module _ {C W : Type 0} (lib : Library C W) (r : ReconcilerImpl C W) (store : Store r) where
  open store use {stored}

  -- The API holds a status for the name that is semantically equal to the one desired.
  abbrev pub Holds : String × String → GitLabSourceStatus C → W → Type 0
  Holds name desired e =
      (s : GitLabSourceStatus C) × (stored e name ≡ some s) × (lib.deep_equal s desired ≡ true)

  -- Without an error the API holds the status.
  abbrev pub Written : String × String → GitLabSource C → Result (Unit {0}) × World C W → Type 0
  Written name desired (ok u, w') = Holds name desired.status w'.environment
  Written name desired (err e, w') = Unit
  Written name desired (panic, w') = Unit

  module _ (deep_equal-refl : (s : GitLabSourceStatus C) → lib.deep_equal s s ≡ true)
      (desired : GitLabSource C) where
    -- The update that `write_status` sends.
    abbrev written : GitLabSource C → Action W (GitLabSource C)
    written existing =
        r.client.update_status existing.metadata.namespace
          (record existing { status = desired.status })

    abbrev by_equality : GitLabSource C → Bool → Doing C W (Unit {0})
    by_equality existing same =
        if same then pure tt else calling (written existing) >>= λ updated. pure tt

    -- What is known of the version that an attempt starts from.
    abbrev Known : GitLabSource C → World C W → Type 0
    Known existing w =
        (lib.deep_equal existing.status desired.status ≡ false)
        ⊎ (stored w.environment (named existing) ≡ some existing.status)

    stored_before :
        (existing : GitLabSource C) (w : World C W)
        → Known existing w
        → lib.deep_equal existing.status desired.status ≡ true
        → stored w.environment (named existing) ≡ some existing.status
    stored_before existing w (inl other) same = absurd (ground arith)
    stored_before existing w (inr held) same = held

    write_status-Written :
        (existing : GitLabSource C) (w : World C W)
        → Known existing w
        → Written (named existing) desired (write_status lib r desired existing w)
    unfolding write_status
    write_status-Written existing w known =
        elim (Bool-cases (lib.deep_equal existing.status desired.status)) [
          | inl same ↦
              subst (λ b. Written (named existing) desired (by_equality existing b w)) (sym same)
                (existing.status, stored_before existing w known same, same)
          | inr other ↦
              subst (λ b. Written (named existing) desired (by_equality existing b w)) (sym other)
                (Ending-call (Written (named existing) desired) (written existing) (λ u. pure tt) w
                  (λ u e h. (
                    desired.status,
                    store.stored-update_status (record existing { status = desired.status })
                        w.environment h,
                    deep_equal-refl desired.status,
                  ))
                  (λ x e h. tt) (λ w'. tt))
        ]

    attempt_update-Written :
        (existing : GitLabSource C) (k : ℕ) (w : World C W)
        → named existing ≡ named desired
        → lib.deep_equal existing.status desired.status ≡ false
        → Written (named desired) desired (attempt_update lib r existing desired k w)
    unfolding attempt_update
    attempt_update-Written existing zero w same other =
        subst (λ n. Written n desired (write_status lib r desired existing w)) same
          (write_status-Written existing w (inl other))
    attempt_update-Written existing (suc k) w same other =
        Ending-call (Written (named desired) desired)
          (r.client.get desired.metadata.namespace desired.metadata.name)
          (write_status lib r desired) w
          (λ latest e h.
            let (name, held) =
              store.stored-get desired.metadata.namespace desired.metadata.name w.environment h in
            let v : World C W = record w { environment = e } in
            subst (λ n. Written n desired (write_status lib r desired latest v)) name
              (write_status-Written latest v (inr (ap (λ n. stored e n) name ∙ held))))
          (λ x e h. tt) (λ w'. tt)

    -- Where the status differs from that of the version in hand, which is of the same name, and
    -- `updateStatus` returns no error, the API holds a status that equals the desired one.
    pub update_status-Written :
        (again : Retries lib r) (existing : GitLabSource C) (w : World C W)
        → named existing ≡ named desired
        → lib.deep_equal existing.status desired.status ≡ false
        → Written (named desired) desired (update_status lib r existing desired w)
    unfolding update_status
    update_status-Written again existing w same other =
        let f = attempt_update lib r existing desired in
        let (k, v, low, high, h, last) =
          attempts_from-LastAttempt r.client.is_conflict f 0 again.retries w in
        subst (Written (named desired) desired) (h ∙ sym (again.retrying f w))
          (attempt_update-Written existing k v same other)
