-- ===== src/Reconciler/Kind/Laws.antt =====
-- The status that `ReconcileKind` leaves.
use mathlib.Core.Path.{subst}
use eventing_gitlab.Base.{ℕ, inl, inr, Option, none, some, [], ◌∷◌, String, Bool-cases}
use eventing_gitlab.Errors.{Result, ok, err, panic}
use eventing_gitlab.Errors.Ending.{Ending-attempt, Ending-bind}
use eventing_gitlab.Source.Status.{
  ConditionManager, sink_provided, deployed, mark_no_sink, mark_webhook, mark_not_deployed,
}
use eventing_gitlab.Reconciler.Cluster.{World, Service, Services, update_status}
use eventing_gitlab.Reconciler.Adapter.{resolve_sink_url, reconcile_adapter}
use eventing_gitlab.Reconciler.Sync.{sync_webhook}
use eventing_gitlab.Reconciler.Sync.Laws.{NotReady, sync_webhook-NotReady}
use eventing_gitlab.Reconciler.Kind.{
  url_known, adapter_reconciled, sink_resolved, declare_events, reconcile_kind,
}

module _ {C W : Type 0} (mgr : ConditionManager C) (env : Services C W) where
  url_known-NotReady :
      (url : Option String) (w : World C W) → NotReady mgr env (url_known mgr env url w)
  unfolding url_known
  url_known-NotReady none w = tt
  url_known-NotReady (some url) w =
      Ending-bind (NotReady mgr env) (sync_webhook mgr env url)
        (λ hook_id. update_status (λ s. mark_webhook mgr (record s { webhook_id = some hook_id })))
        w (λ a w' h. tt)
        (λ e w' h. subst (NotReady mgr env {A = ℕ}) h (sync_webhook-NotReady mgr env url w))
        (λ w'. tt)

  adapter_reconciled-NotReady :
      (r : Result Service) (w : World C W) → NotReady mgr env (adapter_reconciled mgr env r w)
  unfolding adapter_reconciled mark_not_deployed
  adapter_reconciled-NotReady (err e) w = (
    "FailedSync",
    record { format = "Error reconciling receive adapter: %s"; args = e ∷ [] },
    mgr.ready-mark_false deployed "FailedSync"
        (record { format = "Error reconciling receive adapter: %s"; args = e ∷ [] })
        w.source.status.conditions,
  )
  adapter_reconciled-NotReady panic w = tt
  adapter_reconciled-NotReady (ok adapter) w = elim (Bool-cases adapter.ready) [
    | inl up ↦ rw (up, NotReady) (url_known-NotReady adapter.url _)
    | inr down ↦ rw (down, NotReady) tt
  ]

  sink_resolved-NotReady :
      (r : Result (Option String)) (w : World C W) → NotReady mgr env (sink_resolved mgr env r w)
  unfolding sink_resolved mark_no_sink
  sink_resolved-NotReady (err e) w = (
    "SinkNotFound",
    record { format = "The sink does not exist or its URI is not set"; args = [] },
    mgr.ready-mark_false sink_provided "SinkNotFound"
        (record { format = "The sink does not exist or its URI is not set"; args = [] })
        w.source.status.conditions,
  )
  sink_resolved-NotReady panic w = tt
  sink_resolved-NotReady (ok uri) w =
      Ending-attempt (NotReady mgr env) (reconcile_adapter env) (adapter_reconciled mgr env) _
        (λ a w' h. adapter_reconciled-NotReady (ok a) w')
        (λ e w' h. adapter_reconciled-NotReady (err e) w') (λ w'. tt)

  -- Whenever `ReconcileKind` returns an error or a warning event, the `Ready` condition of the
  -- status that it leaves is false.
  pub reconcile_kind-NotReady : (w : World C W) → NotReady mgr env (reconcile_kind mgr env w)
  unfolding reconcile_kind declare_events
  reconcile_kind-NotReady w =
      Ending-attempt (NotReady mgr env) (resolve_sink_url env) (sink_resolved mgr env)
        ((declare_events mgr env w).1) (λ a w' h. sink_resolved-NotReady (ok a) w')
        (λ e w' h. sink_resolved-NotReady (err e) w') (λ w'. tt)
