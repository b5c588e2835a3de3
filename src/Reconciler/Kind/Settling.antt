-- ===== src/Reconciler/Kind/Settling.antt =====
-- The status that `ReconcileKind` leaves when it returns no error.
use mathlib.Core.Path.{subst}
use eventing_gitlab.Base.{
  ◌≡◌, refl, sym, ap, ◌∙◌, inl, inr, Option, none, some, String, Bool-cases, ℕ, Bool, true,
  if◌then◌else◌,
}
use eventing_gitlab.Errors.{Result, ok, err, panic, ◌>>=◌}
use eventing_gitlab.Errors.Ending.{Ending-attempt, Ending-bind}
use eventing_gitlab.Source.Types.{GitLabSourceStatus}
use eventing_gitlab.Source.Status.{
  ConditionManager, mark_sink, mark_webhook, mark_deployed, mark_not_deployed,
}
use eventing_gitlab.Reconciler.Cluster.{World, Service, Services, update_status, get_source}
use eventing_gitlab.Reconciler.Adapter.{resolve_sink_url, reconcile_adapter}
use eventing_gitlab.Reconciler.Adapter.Laws.{reconcile_adapter-source}
use eventing_gitlab.Reconciler.Sync.{sync_webhook}
use eventing_gitlab.Reconciler.Sync.Hooks.{sync_webhook-source}
use eventing_gitlab.Reconciler.Kind.{
  url_known, adapter_reconciled, sink_resolved, declare_events, reconcile_kind,
}
use eventing_gitlab.Reconciler.Kind.Ready.{not_ready, Outcome, SettledStatus, Outcome-SettledStatus}

module _ {C W : Type 0} (mgr : ConditionManager C) (env : Services C W) where
  -- The ID is what `syncWebhook` gives for the URL.
  abbrev FromSync : String → ℕ → Type 0
  FromSync url hook_id =
      (v : World C W) × (v' : World C W) × (sync_webhook mgr env url v ≡ (ok hook_id, v'))

  abbrev Ended : Service → GitLabSourceStatus C → Result (Unit {0}) × World C W → Type 0
  Ended adapter s (ok u, w') = Outcome mgr FromSync adapter s w'.source.status
  Ended adapter s (err e, w') = Unit
  Ended adapter s (panic, w') = Unit

  url_known-Ended :
      (adapter : Service) (url : Option String) (s : GitLabSourceStatus C) (w : World C W)
      → adapter.ready ≡ true
      → adapter.url ≡ url
      → w.source.status ≡ mark_deployed mgr s
      → Ended adapter s (url_known mgr env url w)
  unfolding url_known
  url_known-Ended adapter none s w up known e = inr (inl (up, known, e))
  url_known-Ended adapter (some url) s w up known e =
      Ending-bind (Ended adapter s) (sync_webhook mgr env url)
        (λ hook_id. update_status (λ t. mark_webhook mgr (record t { webhook_id = some hook_id })))
        w
        (λ hook_id w' h. inr (
          inr (
            up,
            url,
            known,
            hook_id,
            (w, w', h),
            ap (λ t. mark_webhook mgr (record t { webhook_id = some hook_id }))
                (ap (λ src. src.status) (sync_webhook-source mgr env url w h) ∙ e),
          )))
        (λ x w' h. tt) (λ w'. tt)

  -- The branches of `ReconcileKind` on `adapter.IsReady()`.
  abbrev by_readiness : Service → Bool → World C W → Result (Unit {0}) × World C W
  by_readiness adapter up =
      if up
      then (update_status (mark_deployed mgr) >>= λ _. url_known mgr env adapter.url)
      else update_status (mark_not_deployed mgr "NotReady" not_ready)

  adapter_reconciled-Ended :
      (adapter : Service) (w : World C W)
      → Ended adapter w.source.status (adapter_reconciled mgr env (ok adapter) w)
  unfolding adapter_reconciled
  adapter_reconciled-Ended adapter w = elim (Bool-cases adapter.ready) [
    | inl up ↦
        subst (λ b. Ended adapter w.source.status (by_readiness adapter b w)) (sym up)
          (url_known-Ended adapter adapter.url w.source.status
            (update_status (mark_deployed mgr) w).1 up refl refl)
    | inr down ↦
        subst (λ b. Ended adapter w.source.status (by_readiness adapter b w)) (sym down)
          (inl (down, refl))
  ]

  -- How `ReconcileKind` ends without an error from the world `w`: its call of `reconcileAdapter`
  -- gives an adapter, by which the status is settled.
  abbrev pub Settled : World C W → Result (Unit {0}) × World C W → Type 0
  Settled w (ok u, w') =
      (adapter : Service) × (v : World C W) × (v' : World C W) × (reconcile_adapter env v
        ≡ (ok adapter, v'))
      × SettledStatus mgr FromSync adapter w.source.status w'.source.status
  Settled w (err e, w') = Unit
  Settled w (panic, w') = Unit

  Ended-Settled :
      (uri : Option String) (adapter : Service) (v v' w : World C W)
      (r : Result (Unit {0}) × World C W)
      → reconcile_adapter env v ≡ (ok adapter, v')
      → Ended adapter (mark_sink mgr uri w.source.status) r
      → Settled w r
  Ended-Settled uri adapter v v' w (ok u, w') h e = (
    adapter,
    v,
    v',
    h,
    Outcome-SettledStatus mgr FromSync adapter uri w.source.status w'.source.status e,
  )
  Ended-Settled uri adapter v v' w (err x, w') h e = tt
  Ended-Settled uri adapter v v' w (panic, w') h e = tt

  sink_resolved-Settled :
      (r : Result (Option String)) (w : World C W) → Settled w (sink_resolved mgr env r w)
  unfolding sink_resolved adapter_reconciled
  sink_resolved-Settled (err e) w = tt
  sink_resolved-Settled panic w = tt
  sink_resolved-Settled (ok uri) w =
      let marked = (update_status (mark_sink mgr uri) w).1 in
      Ending-attempt (Settled w) (reconcile_adapter env) (adapter_reconciled mgr env) marked
        (λ adapter w' h.
          Ended-Settled uri adapter marked w' w (adapter_reconciled mgr env (ok adapter) w') h (
            subst (λ s. Ended adapter s (adapter_reconciled mgr env (ok adapter) w'))
              (ap (λ src. src.status) (reconcile_adapter-source env marked h))
              (adapter_reconciled-Ended adapter w')))
        (λ e w' h. tt) (λ w'. tt)

  -- When `ReconcileKind` returns no error, a call of `reconcileAdapter` has given an adapter, and one
  -- of three holds: the adapter is not ready, `Deployed` and `Ready` are false with this reason, and
  -- the webhook's ID is as before; the adapter is ready without a URL, `Deployed` is true, and the
  -- webhook's condition and ID are as before; or the adapter is ready with a URL, `Deployed` and the
  -- webhook's condition are true, the webhook's ID is one that `syncWebhook` gives for this URL, and
  -- `Ready` is true just where there is a sink URI.
  pub reconcile_kind-Settled : (w : World C W) → Settled w (reconcile_kind mgr env w)
  unfolding reconcile_kind declare_events resolve_sink_url get_source
  reconcile_kind-Settled w =
      let declared = (declare_events mgr env w).1 in
      Ending-attempt (Settled w) (resolve_sink_url env) (sink_resolved mgr env) declared
        (λ uri w' h.
          let same : w'.source.status ≡ declared.source.status =
            sym (ap (λ t. t.1.source.status) h) in
          from w' uri same)
        (λ e w' h. tt) (λ w'. tt)
    where
      from :
          (w' : World C W) (uri : Option String)
          → w'.source.status ≡ (declare_events mgr env w).1.source.status
          → Settled w (sink_resolved mgr env (ok uri) w')
      from w' uri same =
          by_result (sink_resolved mgr env (ok uri) w') (sink_resolved-Settled (ok uri) w')
        where
          by_result : (r : Result (Unit {0}) × World C W) → Settled w' r → Settled w r
          by_result (ok u, v) (adapter, x, y, h, s) = (
            adapter,
            x,
            y,
            h,
            subst (λ t. SettledStatus mgr FromSync adapter t v.source.status) same s,
          )
          by_result (err e, v) s = tt
          by_result (panic, v) s = tt
