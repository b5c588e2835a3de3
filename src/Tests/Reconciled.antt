-- ===== src/Tests/Reconciled.antt =====
-- Whole runs of `Reconcile`: of the leader, whose sinks cannot be resolved, and of a follower.
use eventing_gitlab.Base.{◌≡◌, refl, inl, none, some, true, false, arith, In, if◌then◌else◌}
use eventing_gitlab.Errors.{foreign, ok, err, pure}
use eventing_gitlab.Source.Types.{GitLabSource}
use eventing_gitlab.Source.EventTypes.{has_key}
use eventing_gitlab.Source.EventTypes.Laws.{has_key_iff}
use eventing_gitlab.Reconciler.Cluster.{World, Doing}
use eventing_gitlab.Reconciler.Kind.{reconcile_kind}
use eventing_gitlab.Runtime.Impl.{Interface, ReconcilerImpl}
use eventing_gitlab.Runtime.StatusUpdate.{update_status}
use eventing_gitlab.Runtime.StatusUpdate.Clearing.{update_status-Clears}
use eventing_gitlab.Runtime.Reconcile.{reconcile}
use eventing_gitlab.Runtime.Reconcile.Leading.{reconcile_follower}
use eventing_gitlab.Runtime.Reconcile.Live.{Live, start, Ends, reconcile-Ends}
use eventing_gitlab.Runtime.Reconcile.Guarding.{with_methods, reconcile_guarded}
use eventing_gitlab.Runtime.Reconcile.Source.{FailedBy, reconcile-FailedBy}
use eventing_gitlab.Tests.Board.{Board, board_manager}
use eventing_gitlab.Tests.Cluster.{Cluster, running}
use eventing_gitlab.Tests.Instance.{
  finalizer, demo, broken, library, leader, implementation, retries, store, processing, patching,
  equal_statuses-refl, reconciler_of,
}

-- The leader finds the source.
abbrev live : Live library leader "default/demo" running
live = record {
  namespace = "default";
  name = "demo";
  original = demo;
  environment = running.environment;
  split = refl;
  leads = refl;
  found = refl;
  alive = refl;
  bears = inl refl;
}

reconcile-FailedBy_example :
    FailedBy board_manager broken library leader processing
      (store implementation)
      (retries implementation)
      refl
      refl
      "default/demo"
      running
      live
      (reconcile_kind board_manager broken (start library leader "default/demo" running live))
      (reconcile library leader "default/demo" running)
reconcile-FailedBy_example =
    reconcile-FailedBy board_manager broken library leader processing (store implementation)
      (retries implementation) refl refl "default/demo" running live

-- An implementation that does nothing.
abbrev idle : Interface Board Cluster
idle = record {
  reconcile_kind = pure tt;
  finalize_kind = none;
  observe_kind = none;
  observe_deletion = none;
}

abbrev idle_live : Live library (reconciler_of idle) "default/demo" running
idle_live = record {
  namespace = "default";
  name = "demo";
  original = demo;
  environment = running.environment;
  split = refl;
  leads = refl;
  found = refl;
  alive = refl;
  bears = inl refl;
}

reconcile-Ends_example :
    Ends library
      (reconciler_of idle)
      "default/demo"
      running
      idle_live
      (store idle)
      equal_statuses-refl
      (retries idle)
      (ok tt, start library (reconciler_of idle) "default/demo" running idle_live)
      (reconcile library (reconciler_of idle) "default/demo" running)
reconcile-Ends_example =
    reconcile-Ends library (reconciler_of idle) "default/demo" running idle_live (store idle)
      equal_statuses-refl (retries idle) refl refl

abbrev follower : ReconcilerImpl Board Cluster
follower = record leader { is_leader_for = λ namespace name. false }

reconcile_follower_example :
    reconcile library follower "default/demo" running ≡ (err (foreign 1), running)
reconcile_follower_example =
    reconcile_follower library follower "default/demo" running refl (λ namespace name h. refl)

-- Methods that fail where they are not meant to run.
abbrev marked_only : Doing Board Cluster (Unit {0})
marked_only w =
    if has_key finalizer w.source.metadata.finalizers then (ok tt, w) else (err (foreign 3), w)

abbrev deleting_only : Doing Board Cluster (Unit {0})
deleting_only w = if w.source.metadata.deleting then (ok tt, w) else (err (foreign 3), w)

on_marked :
    (w : World Board Cluster)
    → In finalizer w.source.metadata.finalizers
    → pure tt w ≡ marked_only w
on_marked w h = ground (arith, has_key_iff finalizer w.source.metadata.finalizers)

on_deleting :
    (w : World Board Cluster) → w.source.metadata.deleting ≡ true → pure tt w ≡ deleting_only w
on_deleting w h = ground arith

reconcile_guarded_example :
    reconcile library (with_methods (pure tt) (pure tt) (reconciler_of idle)) "default/demo" running
    ≡ reconcile library
        (with_methods marked_only deleting_only (reconciler_of idle))
        "default/demo"
        running
reconcile_guarded_example =
    reconcile_guarded library (reconciler_of idle) (patching idle) (pure tt) marked_only (pure tt)
      deleting_only (λ o. refl) on_marked on_deleting "default/demo" running

-- The status observed at the next generation, and the API with one conflict to come.
abbrev observed : GitLabSource Board
observed = record demo { status = record (demo.status) { observed_generation = 2 } }

abbrev contended : World Board Cluster
contended = record running {
  environment = record (running.environment) { stored = some demo.status; conflicts = 1 };
}

update_status-Clears_example :
    (w : World Board Cluster) × (update_status library leader demo observed contended ≡ (ok tt, w))
update_status-Clears_example =
    update_status-Clears library leader observed (retries implementation) demo 1 contended
      (
        foreign 409,
        record (contended.environment) { conflicts = 0 },
        demo,
        record (contended.environment) { conflicts = 0 },
        refl,
        refl,
        refl,
        (
          record demo { status = observed.status },
          record (contended.environment) { conflicts = 0; stored = some observed.status },
          refl,
        ),
      )
      (omega arith)
