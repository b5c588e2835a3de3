-- ===== src/Runtime/State.antt =====
-- The state of one run of the reconciler, state.go: who leads, and which method is called. The
-- reconciler in hand is a parameter by what it implements; the splitting of the key and the leader
-- election are those of client-go and of knative.dev/pkg.
use eventing_gitlab.Base.{
  ◌≡◌, ◌↔◌, ◌⊎◌, Option, none, some, [], ◌∷◌, String, Bool, true, false, not, ◌&&◌, if◌then◌else◌,
  arith,
}
use eventing_gitlab.Errors.{errorf, Result, ok, err, panic}
use eventing_gitlab.Source.Types.{GitLabSource}

-- `state`, with the read-only interface kept as the test for it.
pub record State : Type 0 where
  pub key : String
  pub namespace : String
  pub name : String
  pub is_roi : Bool
  pub is_leader : Bool

-- `reconciler.DoReconcileKind`, `DoObserveKind` and `DoFinalizeKind`.
pub data Method : Type 0 where
  do_reconcile_kind do_observe_kind do_finalize_kind : Method

-- `newState`
unfoldable pub new_state :
    (split : String → Result (String × String))
    → (is_leader_for : (namespace name : String) → Bool) → (is_roi : Bool) → (key : String)
    → Result State
new_state split is_leader_for is_roi key = elim (split key) [
  | err e ↦ err (errorf "invalid resource key: %s" (key ∷ []))
  | panic ↦ panic
  | ok parts ↦ ok (record {
    key = key;
    namespace = parts.0;
    name = parts.1;
    is_roi = is_roi;
    is_leader = is_leader_for parts.0 parts.1;
  })
]

-- `isNotLeaderNorObserver`
unfoldable pub is_not_leader_nor_observer : State → Bool
is_not_leader_nor_observer s = if not s.is_leader && not s.is_roi then true else false

-- `reconcileMethodFor`: `is_finalizer` is the type assertion for `Finalizer`.
unfoldable pub reconcile_method_for :
    {C : Type 0} → (is_finalizer : Bool) → State → GitLabSource C → Option Method
reconcile_method_for is_finalizer s o =
    if not o.metadata.deleting
    then (if s.is_leader
        then some do_reconcile_kind
        else if s.is_roi
        then some do_observe_kind
        else none)
    else if s.is_leader && is_finalizer
    then some do_finalize_kind
    else none

-- For a reconciler that is a `Finalizer`: `ReconcileKind` is chosen exactly for a leader and a
-- resource that is not being deleted, `FinalizeKind` exactly for a leader and a resource that is
-- being deleted, and no method exactly where `isNotLeaderNorObserver` holds or the instance does
-- not lead and the resource is being deleted.
pub reconcile_method_for-eq-some_iff :
    {C : Type 0} (s : State) (o : GitLabSource C)
    → ((reconcile_method_for true s o ≡ some do_reconcile_kind)
        ↔ ((s.is_leader ≡ true) × (o.metadata.deleting ≡ false)))
      × ((reconcile_method_for true s o ≡ some do_finalize_kind)
          ↔ ((s.is_leader ≡ true) × (o.metadata.deleting ≡ true)))
      × ((reconcile_method_for true s o ≡ none) ↔ (
          (is_not_leader_nor_observer s ≡ true)
          ⊎ ((s.is_leader ≡ false) × (o.metadata.deleting ≡ true))))
unfolding reconcile_method_for is_not_leader_nor_observer
reconcile_method_for-eq-some_iff s o = (ground arith, ground arith, ground arith)
