-- ===== src/Reconciler/Kind.antt =====
-- `ReconcileKind` and `FinalizeKind`.
pub mod Laws
pub mod Finalizing
pub mod Ready
pub mod Settling
pub mod Keeping
use eventing_gitlab.Base.{
  ℕ, Option, none, some, List, [], ◌∷◌, map, String, Bool, false, if◌then◌else◌, nat_eq,
}
use eventing_gitlab.Errors.{
  crash, warning, Err, wrap, event, as_response, Result, ok, err, panic, pure, fail, attempt, ◌>>=◌,
  ◌>>◌,
}
use eventing_gitlab.Source.Types.{CloudEventAttributes}
use eventing_gitlab.Source.Status.{
  ConditionManager, mark_sink, mark_no_sink, mark_webhook, mark_deployed, mark_not_deployed,
}
use eventing_gitlab.Source.EventTypes.{event_types, as_event_source}
use eventing_gitlab.Client.Webhooks.{WebhookClient}
use eventing_gitlab.Reconciler.Cluster.{
  Service, Services, calling, Doing, get_source, update_status, eventf,
}
use eventing_gitlab.Reconciler.Adapter.{resolve_sink_url, reconcile_adapter}
use eventing_gitlab.Reconciler.Sync.{sync_webhook}

-- `CreateCloudEventAttributes`
pub create_cloud_event_attributes : (source : String) → List String → List CloudEventAttributes
create_cloud_event_attributes source types = map (λ t. record { type = t; source = source }) types

-- `isDenied`
pub is_denied : Err → Bool
is_denied e = elim (as_response e) [ none ↦ false | some status ↦ nat_eq status 401 ]

module _ {C W : Type 0} (mgr : ConditionManager C) (env : Services C W) where
  -- The end of `ReconcileKind`, by the adapter's URL.
  pub url_known : Option String → Doing C W (Unit {0})
  unfolding sync_webhook
  url_known none = pure tt
  url_known (some url) = do
    hook_id ← sync_webhook mgr env url
    update_status (λ s. mark_webhook mgr (record s { webhook_id = some hook_id }))

  -- `ReconcileKind` behind `reconcileAdapter`.
  pub adapter_reconciled : Result Service → Doing C W (Unit {0})
  unfolding url_known
  adapter_reconciled (err e) = do
    update_status (
        mark_not_deployed mgr "FailedSync"
          (record { format = "Error reconciling receive adapter: %s"; args = e ∷ [] }))
    fail (wrap "reconciling receive adapter: %w" [] e)
  adapter_reconciled panic = crash
  adapter_reconciled (ok adapter) =
      if adapter.ready
      then (do update_status (mark_deployed mgr); url_known adapter.url)
      else update_status (
          mark_not_deployed mgr "NotReady"
            (record { format = "Receive adapter Service is not ready"; args = [] }))

  -- `ReconcileKind` behind `resolveSinkURL`.
  pub sink_resolved : Result (Option String) → Doing C W (Unit {0})
  unfolding reconcile_adapter adapter_reconciled
  sink_resolved (err e) = do
    update_status (mark_no_sink mgr)
    fail (event warning "BadSinkURI" "Could not resolve sink URI: %s" e)
  sink_resolved panic = crash
  sink_resolved (ok sink_uri) = do
    update_status (mark_sink mgr sink_uri)
    result ← attempt (reconcile_adapter env)
    adapter_reconciled result

  -- The first statement of `ReconcileKind`.
  pub declare_events : Doing C W (Unit {0})
  unfolding create_cloud_event_attributes get_source
  declare_events = do
    src ← get_source
    update_status (λ s. record s {
      cloud_event_attributes =
          create_cloud_event_attributes (as_event_source src) (event_types env.iteration src);
    })

  -- `ReconcileKind`: an event or an error that is returned is the error of the action.
  unfoldable pub reconcile_kind : Doing C W (Unit {0})
  unfolding declare_events resolve_sink_url sink_resolved
  reconcile_kind = do declare_events; result ← attempt (resolve_sink_url env); sink_resolved result

  -- `FinalizeKind` behind the call of `r.gitlabCg.Get`.
  pub finalize_with : (hook_id : ℕ) → Result (WebhookClient W) → Doing C W (Unit {0})
  unfolding is_denied
  finalize_with hook_id (ok cli) = do
    calling (cli.delete hook_id)
    update_status (λ s. record s { webhook_id = none })
  finalize_with hook_id panic = crash
  finalize_with hook_id (err e) =
      if env.is_not_found e
      then eventf warning "FailedWebhookDelete"
          "GitLab API token missing while finalizing event source. Ignoring: %s" (e ∷ [])
      else if is_denied e
      then eventf warning "FailedWebhookDelete"
          "Access denied to GitLab API while finalizing event source. Ignoring: %s" (e ∷ [])
      else fail (event warning "ClientError" "Error obtaining GitLab webhook client: %s" e)

  -- `FinalizeKind` by the hook's ID in the status.
  pub finalize_hook : Option ℕ → Doing C W (Unit {0})
  unfolding finalize_with get_source
  finalize_hook none = pure tt
  finalize_hook (some hook_id) = do
    src ← get_source
    result ← attempt (calling (env.get_client src))
    finalize_with hook_id result

  -- `FinalizeKind`
  unfoldable pub finalize_kind : Doing C W (Unit {0})
  unfolding finalize_hook get_source
  finalize_kind = do src ← get_source; finalize_hook src.status.webhook_id
