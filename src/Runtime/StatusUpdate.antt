-- ===== src/Runtime/StatusUpdate.antt =====
-- `updateStatus` of reconciler.go: the status that a reconciliation leaves is written to the API,
-- again after each conflict.
pub mod Retrying
pub mod Clearing
pub mod Stored
pub mod Attempts
pub mod Writing
use eventing_gitlab.Base.{ℕ, zero, suc, if◌then◌else◌}
use eventing_gitlab.Errors.{pure, ◌>>=◌}
use eventing_gitlab.Source.Types.{GitLabSource}
use eventing_gitlab.Reconciler.Cluster.{calling, Doing}
use eventing_gitlab.Runtime.Impl.{ReconcilerImpl, Library}

module _ {C W : Type 0} (lib : Library C W) (r : ReconcilerImpl C W) where
  -- The end of an attempt, by the version of the resource that it starts from.
  unfoldable pub write_status : (desired existing : GitLabSource C) → Doing C W (Unit {0})
  write_status desired existing =
      if lib.deep_equal existing.status desired.status then pure tt else (do
        updated ← calling (
            r.client.update_status existing.metadata.namespace
              (record existing { status = desired.status }))
        pure tt)

  -- One attempt: the first takes the version in hand, a later one asks the API.
  unfoldable pub attempt_update :
      (existing desired : GitLabSource C) → (attempts : ℕ) → Doing C W (Unit {0})
  unfolding write_status
  attempt_update existing desired zero = write_status desired existing
  attempt_update existing desired (suc attempts) = do
    latest ← calling (r.client.get desired.metadata.namespace desired.metadata.name)
    write_status desired latest

  -- `updateStatus`
  unfoldable pub update_status : (existing desired : GitLabSource C) → Doing C W (Unit {0})
  unfolding attempt_update
  update_status existing desired = lib.retry_update_conflicts (attempt_update existing desired)
