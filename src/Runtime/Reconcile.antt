-- ===== src/Runtime/Reconcile.antt =====
-- `Reconcile` of reconciler.go: one run for the key of a GitLabSource. The resource in hand is the
-- source of the world, which the run sets.
pub mod Leading
pub mod Marking
pub mod Guarding
pub mod Finishing
pub mod Live
pub mod Source
pub mod Absent
pub mod Finding
pub mod Releasing
use eventing_gitlab.Base.{
  Option, none, some, [], ◌∷◌, String, Bool, true, false, not, if◌then◌else◌,
}
use eventing_gitlab.Errors.{
  Severity, warning, Err, errorf, wrap, event, response, foreign, is_event, Result, ok, err, panic,
  pure, fail, crash, attempt, wrapping, modify, ◌>>=◌, ◌>>◌,
}
use eventing_gitlab.Source.Types.{GitLabSource}
use eventing_gitlab.Reconciler.Cluster.{Recorded, calling, Doing, get_source, eventf}
use eventing_gitlab.Runtime.Impl.{ReconcilerImpl, Library, implements}
use eventing_gitlab.Runtime.State.{
  State, Method, do_reconcile_kind, do_observe_kind, do_finalize_kind, new_state,
  is_not_leader_nor_observer, reconcile_method_for,
}
use eventing_gitlab.Runtime.Finalizers.{set_finalizer_if_finalizer, clear_finalizer}
use eventing_gitlab.Runtime.StatusUpdate.{update_status}

-- `reconciler.EventAs`, with the event found: its type, reason, format and argument.
unfoldable pub event_as : Err → Option Recorded
event_as (errorf f a) = none
event_as (wrap f a e) = event_as e
event_as (event s reason f e) =
    some (record { severity = s; reason = reason; format = f; args = e ∷ [] })
event_as (response c) = none
event_as (foreign n) = none

-- How a call has ended that returns an error or none. A panic is not caught, so that it is none of
-- the results of `attempt`.
abbrev pub error_of : {A : Type 0} → Result A → Option Err
error_of (ok a) = none
error_of (err e) = some e
error_of panic = none

-- The resource in hand is now this one.
abbrev pub set_source : {C W : Type 0} → GitLabSource C → Doing C W (Unit {0})
set_source resource = modify (λ w. record w { source = resource })

module _ {C W : Type 0} (lib : Library C W) (r : ReconcilerImpl C W) where
  -- The result of `updateStatus`.
  pub status_written : Result (Unit {0}) → Doing C W (Unit {0})
  status_written (ok u) = pure tt
  status_written (err e) = do
    eventf warning "UpdateFailed" "Failed to update status for %q: %v" (e ∷ [])
    fail e
  status_written panic = crash

  -- The switch that writes the status of the resource back, or not.
  pub synchronize_resource : State → (original resource : GitLabSource C) → Doing C W (Unit {0})
  unfolding update_status status_written
  synchronize_resource s original resource =
      if r.skip_status_updates
      then pure tt
      else if lib.deep_equal original.status resource.status
      then pure tt
      else if not s.is_leader
      then pure tt
      else (do result ← attempt (update_status lib r original resource); status_written result)

  -- "Synchronize the status."
  pub synchronize_status : State → (original : GitLabSource C) → Doing C W (Unit {0})
  unfolding synchronize_resource get_source
  synchronize_status s original = do resource ← get_source; synchronize_resource s original resource

  -- An error that is no event and wraps none.
  pub report_error : Err → Doing C W (Unit {0})
  report_error e =
      if lib.is_skip_key e
      then fail e
      else if lib.is_requeue_key e
      then fail e
      else if r.client.is_conflict e
      then fail e
      else (do eventf warning "InternalError" "%s" (e ∷ []); fail e)

  -- "Report the reconciler event, if any."
  pub report : Option Err → Doing C W (Unit {0})
  unfolding event_as is_event report_error
  report none = pure tt
  report (some e) = elim (event_as e) [
    | none ↦ report_error e
    | some found ↦ do
      eventf found.severity found.reason found.format found.args
      if is_event e then pure tt else fail e
  ]

  -- The end of the run, by what the method has returned.
  pub finish : State → (original : GitLabSource C) → Option Err → Doing C W (Unit {0})
  unfolding synchronize_status report
  finish s original reconcile_event = do synchronize_status s original; report reconcile_event

  -- `PreProcessReconcile` or `PostProcessReconcile`, unless the updates of statuses are skipped.
  pub process : (GitLabSource C → GitLabSource C) → Doing C W (Unit {0})
  process f = modify (λ w. if r.skip_status_updates then w else record w { source = f w.source })

  -- A method that the implementation may lack.
  abbrev run : Option (Doing C W (Unit {0})) → Doing C W (Unit {0})
  run none = pure tt
  run (some do_kind) = do_kind

  -- The branches on the method.
  pub reconcile_by : State → (original : GitLabSource C) → Option Method → Doing C W (Unit {0})
  unfolding finish process set_finalizer_if_finalizer clear_finalizer get_source
  reconcile_by s original (some do_reconcile_kind) = do
    marked ← wrapping "failed to set finalizers: %w" [] (set_finalizer_if_finalizer lib r original)
    set_source marked
    process lib.pre_process_reconcile
    result ← attempt r.reconciler.reconcile_kind
    process (lib.post_process_reconcile original)
    finish s original (error_of result)
  reconcile_by s original (some do_finalize_kind) = do
    set_source original
    result ← attempt (run r.reconciler.finalize_kind)
    resource ← get_source
    updated ←
        wrapping "failed to clear finalizers: %w" []
          (clear_finalizer lib r resource (error_of result))
    set_source updated
    finish s original (error_of result)
  reconcile_by s original (some do_observe_kind) = do
    set_source original
    result ← attempt (run r.reconciler.observe_kind)
    finish s original (error_of result)
  reconcile_by s original none = do set_source original; finish s original none

  abbrev observe_deletion :
      Option ((namespace name : String) → Doing C W (Unit {0})) → State → Doing C W (Unit {0})
  observe_deletion none s = pure tt
  observe_deletion (some observe) s = observe s.namespace s.name

  -- The result of the lister.
  pub reconcile_found : State → Result (GitLabSource C) → Doing C W (Unit {0})
  unfolding reconcile_by reconcile_method_for
  reconcile_found s (ok original) =
      reconcile_by s original
        (reconcile_method_for (implements r.reconciler.finalize_kind) s original)
  reconcile_found s (err e) =
      if r.client.is_not_found e then observe_deletion r.reconciler.observe_deletion s else fail e
  reconcile_found s panic = crash

  -- The run in its state.
  pub reconcile_in : State → Doing C W (Unit {0})
  unfolding is_not_leader_nor_observer reconcile_found
  reconcile_in s =
      if is_not_leader_nor_observer s
      then fail (lib.new_skip_key s.key)
      else (do result ← attempt (calling (r.lister s.namespace s.name)); reconcile_found s result)

  -- The run by the result of `newState`: an invalid key is logged and dropped.
  pub reconcile_state : Result State → Doing C W (Unit {0})
  unfolding reconcile_in
  reconcile_state (ok s) = reconcile_in s
  reconcile_state (err e) = pure tt
  reconcile_state panic = crash

  -- `Reconcile`
  unfoldable pub reconcile : (key : String) → Doing C W (Unit {0})
  unfolding new_state reconcile_state
  reconcile key = reconcile_state (
      new_state lib.split_meta_namespace_key r.is_leader_for (implements r.reconciler.observe_kind)
        key)
