-- ===== src/Reconciler/Kind/Keeping.antt =====
-- `ReconcileKind` leaves the metadata of the source as it is.
use mathlib.Core.Path.{subst}
use eventing_gitlab.Base.{
  ◌≡◌, sym, ap, ◌∙◌, inl, inr, Option, none, some, String, Bool-cases, Bool, if◌then◌else◌,
}
use eventing_gitlab.Errors.{Err, Result, ok, err, panic, ◌>>=◌}
use eventing_gitlab.Errors.Ending.{Ending-attempt, Ending-bind}
use eventing_gitlab.Source.Types.{GitLabSource}
use eventing_gitlab.Source.Status.{
  ConditionManager, mark_webhook, mark_deployed, mark_not_deployed, mark_sink,
}
use eventing_gitlab.Reconciler.Cluster.{World, Service, Services, update_status, get_source}
use eventing_gitlab.Reconciler.Adapter.{resolve_sink_url, reconcile_adapter}
use eventing_gitlab.Reconciler.Adapter.Laws.{
  Adapted, reconcile_adapter-Adapted, reconcile_adapter-source,
}
use eventing_gitlab.Reconciler.Sync.{sync_webhook}
use eventing_gitlab.Reconciler.Sync.Keeping.{Keeps, Kept, sync_webhook-Keeps}
use eventing_gitlab.Reconciler.Kind.Ready.{not_ready}
use eventing_gitlab.Reconciler.Kind.{
  url_known, adapter_reconciled, sink_resolved, declare_events, reconcile_kind,
}

module _ {C W : Type 0} (mgr : ConditionManager C) (env : Services C W) (src : GitLabSource C) where
  url_known-Keeps :
      (url : Option String) (w : World C W)
      → Kept mgr env src w
      → Keeps src (url_known mgr env url w)
  unfolding url_known
  url_known-Keeps none w kept = kept
  url_known-Keeps (some url) w kept =
      let synced = sync_webhook-Keeps mgr env src url w kept in
      Ending-bind (Keeps src) (sync_webhook mgr env url)
        (λ hook_id. update_status (λ s. mark_webhook mgr (record s { webhook_id = some hook_id })))
        w (λ a w' h. subst (λ t. Keeps src t) h synced)
        (λ e w' h. subst (λ t. Keeps src t) h synced) (λ w'. tt)

  -- The branches of `ReconcileKind` on `adapter.IsReady()`.
  abbrev by_readiness : Service → Bool → World C W → Result (Unit {0}) × World C W
  by_readiness adapter up =
      if up
      then (update_status (mark_deployed mgr) >>= λ _. url_known mgr env adapter.url)
      else update_status (mark_not_deployed mgr "NotReady" not_ready)

  adapter_reconciled-Keeps :
      (r : Result Service) (w : World C W)
      → Kept mgr env src w
      → Keeps src (adapter_reconciled mgr env r w)
  unfolding adapter_reconciled
  adapter_reconciled-Keeps (err e) w kept = kept
  adapter_reconciled-Keeps panic w kept = tt
  adapter_reconciled-Keeps (ok adapter) w kept = elim (Bool-cases adapter.ready) [
    | inl up ↦
        subst (λ b. Keeps src (by_readiness adapter b w)) (sym up)
          (url_known-Keeps adapter.url (update_status (mark_deployed mgr) w).1 kept)
    | inr down ↦ subst (λ b. Keeps src (by_readiness adapter b w)) (sym down) kept
  ]

  adapter_failed :
      (w : World C W) (e : Err) (w' : World C W)
      → reconcile_adapter env w ≡ (err e, w')
      → w'.source ≡ w.source
  adapter_failed w e w' h =
      let same : w' ≡ record w { environment = w'.environment } =
        subst (Adapted env w) h (reconcile_adapter-Adapted env w) in
      ap (λ v. v.source) same

  Kept-by : (w w' : World C W) → w'.source ≡ w.source → Kept mgr env src w → Kept mgr env src w'
  Kept-by w w' same kept = ap (λ o. o.metadata) same ∙ kept

  sink_resolved-Keeps :
      (r : Result (Option String)) (w : World C W)
      → Kept mgr env src w
      → Keeps src (sink_resolved mgr env r w)
  unfolding sink_resolved
  sink_resolved-Keeps (err e) w kept = kept
  sink_resolved-Keeps panic w kept = tt
  sink_resolved-Keeps (ok uri) w kept =
      let marked = (update_status (mark_sink mgr uri) w).1 in
      Ending-attempt (Keeps src) (reconcile_adapter env) (adapter_reconciled mgr env) marked
        (λ adapter w' h.
          adapter_reconciled-Keeps (ok adapter) w'
            (Kept-by marked w' (reconcile_adapter-source env marked h) kept))
        (λ e w' h.
          adapter_reconciled-Keeps (err e) w'
            (Kept-by marked w' (adapter_failed marked e w' h) kept))
        (λ w'. tt)

  -- `ReconcileKind` leaves the metadata of the source as it is, however it ends that
  -- it returns.
  pub reconcile_kind-Keeps : (w : World C W) → w.source ≡ src → Keeps src (reconcile_kind mgr env w)
  unfolding reconcile_kind declare_events resolve_sink_url get_source
  reconcile_kind-Keeps w same =
      let declared = (declare_events mgr env w).1 in
      let kept : Kept mgr env src declared = ap (λ o. o.metadata) same in
      Ending-attempt (Keeps src) (resolve_sink_url env) (sink_resolved mgr env) declared
        (λ uri w' h. sink_resolved-Keeps (ok uri) w' (sym (ap (λ t. t.1.source.metadata) h) ∙ kept))
        (λ e w' h. sink_resolved-Keeps (err e) w' (sym (ap (λ t. t.1.source.metadata) h) ∙ kept))
        (λ w'. tt)
