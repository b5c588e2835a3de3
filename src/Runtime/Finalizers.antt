-- ===== src/Runtime/Finalizers.antt =====
-- The finalizer of a GitLabSource, by merge patches or by server-side apply:
-- `setFinalizerIfFinalizer`, `clearFinalizer` and what they call, of reconciler.go. The patches, maps
-- of texts, can be marshalled.
pub mod Laws
pub mod Sending
use eventing_gitlab.Base.{
  Option, none, some, List, [], ◌∷◌, ◌++◌, String, Bool, true, false, ◌==◌, not, if◌then◌else◌,
}
use eventing_gitlab.Errors.{
  Severity, normal, warning, Err, errorf, wrap, as_event, Result, ok, err, panic, Action, pure,
  fail, crash, attempt, ◌>>=◌, ◌>>◌,
}
use eventing_gitlab.Source.Types.{GitLabSource}
use eventing_gitlab.Source.EventTypes.{has_key, sort_strings}
use eventing_gitlab.Reconciler.Cluster.{calling, Doing, eventf}
use eventing_gitlab.Runtime.Impl.{
  Patch, merge_patch, apply_patch, ReconcilerImpl, Library, implements,
}

-- `Delete` of a set.
pub delete_key : String → List String → List String
delete_key k [] = []
delete_key k (x ∷ xs) = if k == x then delete_key k xs else x ∷ delete_key k xs

-- The elements of a set made of a list, each once.
pub once_each : List String → List String
unfolding has_key
once_each [] = []
once_each (x ∷ xs) = if has_key x xs then once_each xs else x ∷ once_each xs

-- `sets.List`: in order.
pub set_list : List String → List String
unfolding once_each sort_strings
set_list xs = sort_strings (once_each xs)

abbrev is_normal : Severity → Bool
is_normal normal = true
is_normal warning = false

-- Whether `clearFinalizer` takes its finalizer away, by the result of `FinalizeKind`.
pub released : Option Err → Bool
unfolding as_event
released none = true
released (some e) = elim (as_event e) [ none ↦ false | some severity ↦ is_normal severity ]

-- The messages of the events about an update: of a failure and of a success.
abbrev by_merge_patch : String × String
by_merge_patch = ("Failed to update finalizers for %q: %v", "Updated %q finalizers")

abbrev by_server_side_apply : String × String
by_server_side_apply = (
  "Failed to update finalizers for %q via server-side apply: %v",
  "Updated finalizers for %q via server-side apply",
)

module _ {C W : Type 0} (lib : Library C W) (r : ReconcilerImpl C W) where
  -- The result of `patcher.Patch`.
  unfoldable pub patched :
      (messages : String × String) → Result (GitLabSource C) → Doing C W (GitLabSource C)
  patched messages (ok updated) = do eventf normal "FinalizerUpdate" messages.1 []; pure updated
  patched messages (err e) =
      if r.client.is_conflict e
      then fail e
      else (do eventf warning "FinalizerUpdateFailed" messages.0 (e ∷ []); fail e)
  patched messages panic = crash

  unfoldable pub send_patch :
      GitLabSource C → Patch → (messages : String × String) → Doing C W (GitLabSource C)
  unfolding patched
  send_patch resource patch messages = do
    result ←
        attempt (calling (r.client.patch resource.metadata.namespace resource.metadata.name patch))
    patched messages result

  -- The merge patch with these finalizers.
  unfoldable pub send_merge_patch :
      GitLabSource C → (finalizers : List String) → Doing C W (GitLabSource C)
  unfolding send_patch
  send_merge_patch resource finalizers =
      send_patch resource (merge_patch finalizers resource.metadata.resource_version) by_merge_patch

  -- `updateFinalizersFilteredMergePatch`
  unfoldable pub update_finalizers_filtered_merge_patch :
      GitLabSource C → (desired : List String) → Doing C W (GitLabSource C)
  unfolding send_merge_patch has_key set_list delete_key
  update_finalizers_filtered_merge_patch resource desired =
      let existing = resource.metadata.finalizers in
      if has_key r.finalizer_name desired
      then (if has_key r.finalizer_name existing
          then pure resource
          else send_merge_patch resource (existing ++ r.finalizer_name ∷ []))
      else if has_key r.finalizer_name existing
      then send_merge_patch resource (set_list (delete_key r.finalizer_name existing))
      else pure resource

  -- The configuration with these finalizers, for the kinds found of the object.
  unfoldable pub apply_as :
      GitLabSource C
      → (finalizers : List String) → Result (List (String × String))
      → Doing C W (GitLabSource C)
  unfolding send_patch
  apply_as resource finalizers (ok []) = fail (errorf "failed to determine GVK for resource: %w" [])
  apply_as resource finalizers (ok ((api_version, kind) ∷ gvks)) =
      send_patch resource
        (apply_patch api_version kind resource.metadata.name resource.metadata.uid
          resource.metadata.namespace finalizers r.finalizer_field_manager r.force_apply_finalizers)
        by_server_side_apply
  apply_as resource finalizers (err e) = fail (wrap "failed to determine GVK for resource: %w" [] e)
  apply_as resource finalizers panic = crash

  unfoldable pub send_apply :
      GitLabSource C → (finalizers : List String) → Doing C W (GitLabSource C)
  unfolding apply_as
  send_apply resource finalizers = apply_as resource finalizers (lib.object_kinds resource)

  -- `updateFinalizersFilteredServerSideApply`
  unfoldable pub update_finalizers_filtered_server_side_apply :
      GitLabSource C → (desired : List String) → Doing C W (GitLabSource C)
  unfolding send_apply has_key
  update_finalizers_filtered_server_side_apply resource desired =
      let existing = resource.metadata.finalizers in
      if has_key r.finalizer_name desired
      then (if has_key r.finalizer_name existing
          then pure resource
          else send_apply resource (r.finalizer_name ∷ []))
      else if has_key r.finalizer_name existing
      then send_apply resource []
      else pure resource

  -- `updateFinalizersFiltered`
  unfoldable pub update_finalizers_filtered :
      GitLabSource C → (desired : List String) → Doing C W (GitLabSource C)
  unfolding update_finalizers_filtered_server_side_apply update_finalizers_filtered_merge_patch
  update_finalizers_filtered resource desired =
      if r.use_server_side_apply_for_finalizers
      then update_finalizers_filtered_server_side_apply resource desired
      else update_finalizers_filtered_merge_patch resource desired

  -- `setFinalizerIfFinalizer`
  unfoldable pub set_finalizer_if_finalizer : GitLabSource C → Doing C W (GitLabSource C)
  unfolding update_finalizers_filtered
  set_finalizer_if_finalizer resource =
      let existing = resource.metadata.finalizers in
      if not (implements r.reconciler.finalize_kind)
      then pure resource
      else update_finalizers_filtered resource
          (if resource.metadata.deleting then existing else r.finalizer_name ∷ existing)

  -- The result of the query for the resource, after an error `e` of the update.
  unfoldable pub queried :
      GitLabSource C → Err → Result (GitLabSource C) → Doing C W (GitLabSource C)
  queried resource e (ok found) = fail e
  queried resource e (err x) = if r.client.is_not_found x then pure resource else fail e
  queried resource e panic = crash

  -- The end of `clearFinalizer`, by the result of the update.
  unfoldable pub cleared : GitLabSource C → Result (GitLabSource C) → Doing C W (GitLabSource C)
  unfolding queried
  cleared resource (ok updated) = pure updated
  cleared resource (err e) = do
    result ← attempt (calling (r.client.get resource.metadata.namespace resource.metadata.name))
    queried resource e result
  cleared resource panic = crash

  -- `clearFinalizer`
  unfoldable pub clear_finalizer : GitLabSource C → Option Err → Doing C W (GitLabSource C)
  unfolding released delete_key update_finalizers_filtered cleared
  clear_finalizer resource reconcile_event =
      let existing = resource.metadata.finalizers in
      if not (implements r.reconciler.finalize_kind)
      then pure resource
      else if not resource.metadata.deleting
      then pure resource
      else (do
        result ← attempt (
            update_finalizers_filtered resource
              (if released reconcile_event then delete_key r.finalizer_name existing else existing))
        cleared resource result)
