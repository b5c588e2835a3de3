-- ===== src/Runtime/New.antt =====
-- `NewReconciler` of reconciler.go and `NewImpl` of controller.go: the reconciler that a list of
-- options gives, and the sources that a new leader enqueues. `logger.Fatal` ends the program, as a
-- panic does. `ConfigStore`, `DemoteFunc` and `PromoteFunc`, which are only handed on, and the work
-- queue, the logger and the recorder are left out.
pub mod Laws
use eventing_gitlab.Base.{
  Option, none, some, List, [], ◌∷◌, String, Bool, true, false, ◌==◌, if◌then◌else◌,
}
use eventing_gitlab.Errors.{Result, ok, err, panic, Action}
use eventing_gitlab.Source.Types.{GitLabSource}
use eventing_gitlab.Runtime.Impl.{SourceClient, Interface, ReconcilerImpl}

-- A `controller.Options`. An option of text is not given when it is empty.
pub record Options (C : Type 0) : Type 0 where
  pub finalizer_name : String
  pub agent_name : String
  pub skip_status_updates : Bool
  pub promote_filter_func : Option (GitLabSource C → Bool)
  pub use_server_side_apply_for_finalizers : Bool
  pub finalizer_field_manager : String
  pub force_apply_finalizers : Bool

abbrev pub default_finalizer_name : String
default_finalizer_name = "gitlabsources.sources.knative.dev"

abbrev pub default_controller_agent_name : String
default_controller_agent_name = "gitlabsource-controller"

-- `if opts.X != "" { x = opts.X }`
pub given : (option value : String) → String
given option value = if option == "" then value else option

-- What `NewImpl` makes: the reconciler, the name of its recorder, and the filter of its
-- `PromoteFunc`.
pub record Impl (C W : Type 0) : Type 0 where
  pub rec : ReconcilerImpl C W
  pub agent_name : String
  pub promote_filter_func : Option (GitLabSource C → Bool)

-- The names and the filter of the options given, of which there is at most one.
agent_name_of : {C : Type 0} → List (Options C) → String
unfolding given
agent_name_of [] = default_controller_agent_name
agent_name_of (opts ∷ options) = given opts.agent_name default_controller_agent_name

filter_of : {C : Type 0} → List (Options C) → Option (GitLabSource C → Bool)
filter_of [] = none
filter_of (opts ∷ options) = opts.promote_filter_func

-- Whether the filter lets a source pass; without one every source does.
abbrev pub accepts : {C : Type 0} → Option (GitLabSource C → Bool) → GitLabSource C → Bool
accepts none elt = true
accepts (some filter) elt = filter elt

module _ {C W : Type 0} where
  -- The options that name the finalizer or skip the updates.
  pub with_names : Options C → ReconcilerImpl C W → ReconcilerImpl C W
  unfolding given
  with_names opts rec = record rec {
    finalizer_name = given opts.finalizer_name rec.finalizer_name;
    skip_status_updates = if opts.skip_status_updates then true else rec.skip_status_updates;
  }

  -- The body of the loop over the options.
  pub apply_options : Options C → ReconcilerImpl C W → Result (ReconcilerImpl C W)
  unfolding with_names
  apply_options opts rec =
      if opts.use_server_side_apply_for_finalizers
      then (if opts.finalizer_field_manager == ""
          then panic
          else ok (record (with_names opts rec) {
            use_server_side_apply_for_finalizers = true;
            finalizer_field_manager = opts.finalizer_field_manager;
            force_apply_finalizers = opts.force_apply_finalizers;
          }))
      else ok (with_names opts rec)

  -- The reconciler before its options.
  abbrev pub default_impl :
      (is_leader_for : String → String → Bool)
      → SourceClient C W
      → (lister : String → String → Action W (GitLabSource C)) → Interface C W
      → ReconcilerImpl C W
  default_impl is_leader_for client lister r = record {
    is_leader_for = is_leader_for;
    client = client;
    lister = lister;
    reconciler = r;
    finalizer_name = default_finalizer_name;
    use_server_side_apply_for_finalizers = false;
    finalizer_field_manager = "";
    force_apply_finalizers = false;
    skip_status_updates = false;
  }

  -- At most one options struct is supported.
  pub apply_each : List (Options C) → ReconcilerImpl C W → Result (ReconcilerImpl C W)
  unfolding apply_options
  apply_each [] rec = ok rec
  apply_each (opts ∷ []) rec = apply_options opts rec
  apply_each (opts ∷ more ∷ options) rec = panic

  -- `NewReconciler`: `is_leader_aware` is the type assertion for `reconciler.LeaderAware`.
  pub new_reconciler :
      (is_leader_for : String → String → Bool)
      → SourceClient C W
      → (lister : String → String → Action W (GitLabSource C)) → Interface C W
      → (is_leader_aware : Bool) → List (Options C)
      → Result (ReconcilerImpl C W)
  unfolding apply_each
  new_reconciler is_leader_for client lister r is_leader_aware options =
      let rec = apply_each options (default_impl is_leader_for client lister r) in
      if is_leader_aware then panic else rec

  -- `NewImpl`, for the options that its functions give.
  pub new_impl :
      (is_leader_for : String → String → Bool)
      → SourceClient C W
      → (lister : String → String → Action W (GitLabSource C)) → Interface C W
      → List (Options C)
      → Result (Impl C W)
  unfolding apply_each given
  new_impl is_leader_for client lister r options =
      elim (apply_each options (default_impl is_leader_for client lister r)) [
        | err e ↦ err e
        | panic ↦ panic
        | ok rec ↦ ok (record {
          rec = rec;
          agent_name = agent_name_of options;
          promote_filter_func = filter_of options;
        })
      ]

module _ {C : Type 0} where
  -- `PromoteFunc` of `NewImpl`, and without a filter that of `NewReconciler`: the names that are
  -- enqueued of the sources that the lister gives.
  pub enqueued : Option (GitLabSource C → Bool) → List (GitLabSource C) → List (String × String)
  enqueued filter [] = []
  enqueued filter (elt ∷ all) =
      let rest = enqueued filter all in
      if accepts filter elt then (elt.metadata.namespace, elt.metadata.name) ∷ rest else rest

  pub promote :
      Option (GitLabSource C → Bool)
      → Result (List (GitLabSource C))
      → Result (List (String × String))
  unfolding enqueued
  promote filter (ok all) = ok (enqueued filter all)
  promote filter (err e) = err e
  promote filter panic = panic
