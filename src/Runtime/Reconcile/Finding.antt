-- ===== src/Runtime/Reconcile/Finding.antt =====
-- A run of the leader for a source that is in the lister's cache.
use eventing_gitlab.Base.{◌≡◌, ap, ◌∙◌, String, true, false, arith, if◌then◌else◌}
use eventing_gitlab.Errors.{ok, fail, attempt, ◌>>=◌}
use eventing_gitlab.Errors.Continuing.{attempt-ok}
use eventing_gitlab.Source.Types.{GitLabSource}
use eventing_gitlab.Reconciler.Cluster.{World, calling}
use eventing_gitlab.Reconciler.Calls.{calling-ok}
use eventing_gitlab.Runtime.Impl.{ReconcilerImpl, Library, implements}
use eventing_gitlab.Runtime.State.{State, new_state, is_not_leader_nor_observer}
use eventing_gitlab.Runtime.Reconcile.{reconcile_found, reconcile_in, reconcile_state, reconcile}

module _ {C W : Type 0} (lib : Library C W) (r : ReconcilerImpl C W)
    (key namespace name : String) where
  -- The state of the run.
  abbrev pub state_of : State
  state_of = record {
    key = key;
    namespace = namespace;
    name = name;
    is_roi = implements r.reconciler.observe_kind;
    is_leader = r.is_leader_for namespace name;
  }

  leads-state : r.is_leader_for namespace name ≡ true → is_not_leader_nor_observer state_of ≡ false
  unfolding is_not_leader_nor_observer
  leads-state leads = ground arith

  module _ (original : GitLabSource C) (w : World C W) (e : W) where
    -- The run goes on with the source that the lister gives.
    pub reconcile-found :
        lib.split_meta_namespace_key key ≡ ok (namespace, name)
        → r.is_leader_for namespace name ≡ true
        → r.lister namespace name w.environment ≡ (ok original, e)
        → reconcile lib r key w
          ≡ reconcile_found lib r state_of (ok original) (record w { environment = e })
    unfolding reconcile reconcile_state new_state reconcile_in
    reconcile-found split leads found =
        let lister = r.lister namespace name in
        ap
          (λ parts.
            reconcile_state lib r
              (new_state (λ k. parts) r.is_leader_for (implements r.reconciler.observe_kind) key) w)
          split
        ∙ ap
            (λ b.
              (if b
                  then fail (lib.new_skip_key key)
                  else attempt (calling lister) >>= reconcile_found lib r state_of)
                w)
            (leads-state leads)
        ∙ attempt-ok (calling lister) (reconcile_found lib r state_of) (calling-ok lister w found)
