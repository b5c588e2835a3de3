-- ===== src/Runtime/Impl.antt =====
-- The generated reconciler as a value, and the interfaces that it is built from: `Interface`,
-- `Finalizer`, `ReadOnlyInterface` and `reconcilerImpl` of reconciler.go. An interface that the
-- implementation may lack is an `Option`. The logger and the frozen configuration, which the
-- reconciler only hands on in its context, are left out.
use eventing_gitlab.Base.{ℕ, Option, none, some, List, String, Bool, true, false}
use eventing_gitlab.Errors.{Err, Result, Action}
use eventing_gitlab.Source.Types.{GitLabSource, GitLabSourceStatus}
use eventing_gitlab.Reconciler.Cluster.{Doing}

-- A patch of the finalizers: a merge patch, or the configuration of a server-side apply.
pub data Patch : Type 0 where
  merge_patch : (finalizers : List String) → (resource_version : String) → Patch
  apply_patch :
      (api_version kind name uid namespace : String)
      → (finalizers : List String) → (field_manager : String) → (force : Bool) → Patch

-- The calls of the client of GitLabSources, and the tests of their errors. `update_status` writes
-- the object's status.
pub record SourceClient (C W : Type 0) : Type 0 where
  pub patch : (namespace name : String) → Patch → Action W (GitLabSource C)
  pub get : (namespace name : String) → Action W (GitLabSource C)
  pub update_status : (namespace : String) → GitLabSource C → Action W (GitLabSource C)
  pub is_not_found : Err → Bool
  pub is_conflict : Err → Bool

-- `Interface`, with the other interfaces that `Reconcile` asks the implementation for.
pub record Interface (C W : Type 0) : Type 0 where
  pub reconcile_kind : Doing C W (Unit {0})
  pub finalize_kind : Option (Doing C W (Unit {0}))
  pub observe_kind : Option (Doing C W (Unit {0}))
  pub observe_deletion : Option ((namespace name : String) → Doing C W (Unit {0}))

-- `reconcilerImpl`. `lister` is `Lister.GitLabSources(namespace).Get(name)`, and `is_leader_for`
-- is the method of `LeaderAwareFuncs`.
pub record ReconcilerImpl (C W : Type 0) : Type 0 where
  pub is_leader_for : (namespace name : String) → Bool
  pub client : SourceClient C W
  pub lister : (namespace name : String) → Action W (GitLabSource C)
  pub reconciler : Interface C W
  pub finalizer_name : String
  pub use_server_side_apply_for_finalizers : Bool
  pub finalizer_field_manager : String
  pub force_apply_finalizers : Bool
  pub skip_status_updates : Bool

-- What `Reconcile` calls of the libraries: the splitting of a key, the error of a skipped key and
-- the tests of errors, the semantic equality of statuses, the work before and after
-- `ReconcileKind`, and the group, version and kind of an object.
pub record Library (C W : Type 0) : Type 0 where
  pub split_meta_namespace_key : String → Result (String × String)
  pub new_skip_key : String → Err
  pub is_skip_key : Err → Bool
  pub is_requeue_key : Err → Bool
  pub deep_equal : GitLabSourceStatus C → GitLabSourceStatus C → Bool
  pub pre_process_reconcile : GitLabSource C → GitLabSource C
  pub post_process_reconcile : (original : GitLabSource C) → GitLabSource C → GitLabSource C
  pub object_kinds : GitLabSource C → Result (List (String × String))
  pub retry_update_conflicts : (ℕ → Doing C W (Unit {0})) → Doing C W (Unit {0})

-- The type assertion for an interface.
abbrev pub implements : {A : Type 0} → Option A → Bool
implements none = false
implements (some a) = true
