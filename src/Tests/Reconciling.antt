-- ===== src/Tests/Reconciling.antt =====
-- The reconciler on the running source, and the finalizer on it.
use eventing_gitlab.Base.{◌≡◌, refl, some}
use eventing_gitlab.Errors.{ok}
use eventing_gitlab.Source.Status.{is_true, mark_deployed, mark_sink, mark_webhook}
use eventing_gitlab.Reconciler.Adapter.{reconcile_adapter}
use eventing_gitlab.Reconciler.Adapter.Laws.{Adapted, reconcile_adapter-Adapted}
use eventing_gitlab.Reconciler.Sync.{sync_webhook}
use eventing_gitlab.Reconciler.Sync.Laws.{NotReady}
use eventing_gitlab.Reconciler.Sync.Hooks.{SyncedWebhook, sync_webhook-SyncedWebhook}
use eventing_gitlab.Reconciler.Kind.{reconcile_kind, finalize_kind}
use eventing_gitlab.Reconciler.Kind.Laws.{reconcile_kind-NotReady}
use eventing_gitlab.Reconciler.Kind.Settling.{Settled, reconcile_kind-Settled}
use eventing_gitlab.Reconciler.Kind.Finalizing.{Finalized, finalize_kind-Finalized}
use eventing_gitlab.Tests.Board.{board_manager}
use eventing_gitlab.Tests.Cluster.{services, running}

reconcile_kind-Settled_example :
    Settled board_manager services running (reconcile_kind board_manager services running)
reconcile_kind-Settled_example = reconcile_kind-Settled board_manager services running

reconcile_kind-NotReady_example :
    NotReady board_manager services (reconcile_kind board_manager services running)
reconcile_kind-NotReady_example = reconcile_kind-NotReady board_manager services running

sync_webhook-SyncedWebhook_example :
    SyncedWebhook board_manager services "http://demo.default" running
      (sync_webhook board_manager services "http://demo.default" running)
sync_webhook-SyncedWebhook_example =
    sync_webhook-SyncedWebhook board_manager services "http://demo.default" running

reconcile_adapter-Adapted_example : Adapted services running (reconcile_adapter services running)
reconcile_adapter-Adapted_example = reconcile_adapter-Adapted services running

finalize_kind-Finalized_example :
    Finalized board_manager services (some 3) running (finalize_kind board_manager services running)
finalize_kind-Finalized_example = finalize_kind-Finalized board_manager services running

finalize_kind_deletes : (finalize_kind board_manager services running).0 ≡ ok tt
unfolding finalize_kind
finalize_kind_deletes = refl

-- The webhook is edited and keeps its ID, and the source is ready.
reconcile_kind_settles :
    ((reconcile_kind board_manager services running).0 ≡ ok tt)
    × ((reconcile_kind board_manager services running).1.source.status.webhook_id ≡ some 3)
    × ((reconcile_kind board_manager services running).1.source.status.conditions.sum ≡ is_true)
unfolding reconcile_kind mark_deployed mark_sink mark_webhook
reconcile_kind_settles = (refl, refl, refl)
