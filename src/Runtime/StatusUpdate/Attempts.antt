-- ===== src/Runtime/StatusUpdate/Attempts.antt =====
-- The calls of the API that `updateStatus` makes, one after the other, and how it ends.
use eventing_gitlab.Base.{ℕ, suc, ◌≡◌, ◌⊎◌, true, false}
use eventing_gitlab.Errors.{Err, Result, ok, err, panic}
use eventing_gitlab.Source.Types.{GitLabSource}
use eventing_gitlab.Reconciler.Cluster.{World}
use eventing_gitlab.Runtime.Impl.{ReconcilerImpl, Library}

module _ {C W : Type 0} (lib : Library C W) (r : ReconcilerImpl C W)
    (desired : GitLabSource C) where
  open r use {client}

  -- The version of the resource with the status that is desired.
  abbrev pub with_status : GitLabSource C → GitLabSource C
  with_status existing = record existing { status = desired.status }

  -- No attempt follows this error: it is no conflict, or no attempt is left.
  abbrev pub IsLast : (more : ℕ) → Err → Type 0
  IsLast more x = (client.is_conflict x ≡ false) ⊎ (more ≡ 0)

  mutual
    -- `Writes more existing w t`: from the version `existing` of the resource, with `more` attempts
    -- left behind this one, the status is written, and the end is `t`.
    pub data Writes
        : (more : ℕ) → GitLabSource C → World C W → Result (Unit {0}) × World C W → Type 0 where
      unchanged :
          {more : ℕ} {existing : GitLabSource C} {w : World C W}
          → lib.deep_equal existing.status desired.status ≡ true
          → Writes more existing w (ok tt, w)
      accepted :
          {more : ℕ} {existing : GitLabSource C} {w : World C W} (updated : GitLabSource C) (e : W)
          → lib.deep_equal existing.status desired.status ≡ false
          → client.update_status existing.metadata.namespace (with_status existing) w.environment
            ≡ (ok updated, e)
          → Writes more existing w (ok tt, record w { environment = e })
      refused :
          {more : ℕ} {existing : GitLabSource C} {w : World C W} (x : Err) (e : W)
          → lib.deep_equal existing.status desired.status ≡ false
          → client.update_status existing.metadata.namespace (with_status existing) w.environment
            ≡ (err x, e)
          → IsLast more x
          → Writes more existing w (err x, record w { environment = e })
      crashed :
          {more : ℕ} {existing : GitLabSource C} {w : World C W} (e : W)
          → lib.deep_equal existing.status desired.status ≡ false
          → client.update_status existing.metadata.namespace (with_status existing) w.environment
            ≡ (panic, e)
          → Writes more existing w (panic, record w { environment = e })
      conflicted :
          {more : ℕ} {existing : GitLabSource C} {w : World C W} {t : Result (Unit {0}) × World C W}
          (x : Err) (e : W)
          → lib.deep_equal existing.status desired.status ≡ false
          → client.update_status existing.metadata.namespace (with_status existing) w.environment
            ≡ (err x, e)
          → client.is_conflict x ≡ true
          → Asks more (record w { environment = e }) t
          → Writes (suc more) existing w t

    -- `Asks more w t`: the API is asked for the version that it holds, and that one is written.
    pub data Asks : (more : ℕ) → World C W → Result (Unit {0}) × World C W → Type 0 where
      found :
          {more : ℕ} {w : World C W} {t : Result (Unit {0}) × World C W} (latest : GitLabSource C)
          (e : W)
          → client.get desired.metadata.namespace desired.metadata.name w.environment
            ≡ (ok latest, e)
          → Writes more latest (record w { environment = e }) t
          → Asks more w t
      not_found :
          {more : ℕ} {w : World C W} (x : Err) (e : W)
          → client.get desired.metadata.namespace desired.metadata.name w.environment ≡ (err x, e)
          → IsLast more x
          → Asks more w (err x, record w { environment = e })
      asking_crashed :
          {more : ℕ} {w : World C W} (e : W)
          → client.get desired.metadata.namespace desired.metadata.name w.environment ≡ (panic, e)
          → Asks more w (panic, record w { environment = e })
      asked_again :
          {more : ℕ} {w : World C W} {t : Result (Unit {0}) × World C W} (x : Err) (e : W)
          → client.get desired.metadata.namespace desired.metadata.name w.environment ≡ (err x, e)
          → client.is_conflict x ≡ true
          → Asks more (record w { environment = e }) t
          → Asks (suc more) w t
