-- ===== src/Reconciler/Sync/Keeping.antt =====
-- `syncWebhook` leaves the metadata of the source as it is.
use eventing_gitlab.Base.{
  ℕ, ◌≡◌, inl, inr, Option, none, some, String, Bool, true, false, Bool-cases,
}
use eventing_gitlab.Errors.{Err, Result, ok, err, panic}
use eventing_gitlab.Source.Types.{GitLabSource}
use eventing_gitlab.Source.Status.{ConditionManager}
use eventing_gitlab.Client.Webhooks.{WebhookClient}
use eventing_gitlab.Reconciler.Cluster.{World, Services, get_source}
use eventing_gitlab.Reconciler.Calls.{Ending-calling}
use eventing_gitlab.Reconciler.Sync.{
  is_hook_not_found, no_webhook, added, add_webhook, edited, retrieved, sync_with, client_of,
  sync_webhook,
}

-- The metadata is that of `src`, however a call has ended that returns.
abbrev pub Keeps : {C W A : Type 0} → GitLabSource C → Result A × World C W → Type 0
Keeps src (ok a, w) = w.source.metadata ≡ src.metadata
Keeps src (err e, w) = w.source.metadata ≡ src.metadata
Keeps src (panic, w) = Unit

module _ {C W : Type 0} (mgr : ConditionManager C) (env : Services C W) (src : GitLabSource C) where
  abbrev pub Kept : World C W → Type 0
  Kept w = w.source.metadata ≡ src.metadata

  no_webhook-Keeps :
      (retried : Bool) (marked reason format : String) (e : Err) (w : World C W)
      → Kept w
      → Keeps src (no_webhook mgr env retried marked reason format e w)
  unfolding no_webhook
  no_webhook-Keeps retried marked reason format e w kept = kept

  module _ (cli : WebhookClient W) (url : String) where
    add_webhook-Keeps : (w : World C W) → Kept w → Keeps src (add_webhook mgr env cli url w)
    unfolding add_webhook get_source added
    add_webhook-Keeps w kept =
        Ending-calling (Keeps src) (cli.add w.source.spec.event_types url w.source.spec.ssl_verify)
          (added mgr env) w (λ a e h. kept)
          (λ x e h.
            no_webhook-Keeps true "WebhookError" "WebhookError" "Error adding webhook: %s" x
              (record w { environment = e }) kept)
          (λ w'. tt)

    retrieved-Keeps :
        (hook_id : ℕ) (r : Result ℕ) (w : World C W)
        → Kept w
        → Keeps src (retrieved mgr env cli url hook_id r w)
    unfolding retrieved get_source edited
    retrieved-Keeps hook_id (ok h) w kept =
        Ending-calling (Keeps src)
          (cli.edit hook_id w.source.spec.event_types url w.source.spec.ssl_verify)
          (edited mgr env hook_id) w (λ a e h. kept)
          (λ x e h.
            no_webhook-Keeps true "WebhookError" "WebhookError" "Error updating webhook: %s" x
              (record w { environment = e }) kept)
          (λ w'. tt)
    retrieved-Keeps hook_id panic w kept = tt
    retrieved-Keeps hook_id (err e) w kept = elim (Bool-cases (is_hook_not_found e)) [
      | inl gone ↦ rw (gone, Keeps) (add_webhook-Keeps w kept)
      | inr other ↦
          rw (other, Keeps)
            (no_webhook-Keeps true "WebhookError" "WebhookError" "Error retrieving webhook: %s" e w
              kept)
    ]

    sync_with-Keeps :
        (hook : Option ℕ) (w : World C W) → Kept w → Keeps src (sync_with mgr env cli url hook w)
    unfolding sync_with
    sync_with-Keeps none w kept = add_webhook-Keeps w kept
    sync_with-Keeps (some hook_id) w kept =
        Ending-calling (Keeps src) (cli.get hook_id) (retrieved mgr env cli url hook_id) w
          (λ a e h. retrieved-Keeps hook_id (ok a) (record w { environment = e }) kept)
          (λ x e h. retrieved-Keeps hook_id (err x) (record w { environment = e }) kept) (λ w'. tt)

  client_of-Keeps :
      (url : String) (r : Result (WebhookClient W)) (w : World C W)
      → Kept w
      → Keeps src (client_of mgr env url r w)
  unfolding client_of get_source
  client_of-Keeps url (ok cli) w kept = sync_with-Keeps cli url w.source.status.webhook_id w kept
  client_of-Keeps url panic w kept = tt
  client_of-Keeps url (err e) w kept = elim (Bool-cases (env.is_not_found e)) [
    | inl gone ↦
        rw (gone, Keeps)
          (no_webhook-Keeps false "MissingCredentials" "AuthError"
            "Error obtaining credentials for GitLab API: %s" e w kept)
    | inr other ↦
        rw (other, Keeps)
          (no_webhook-Keeps true "ClientError" "ClientError"
            "Error obtaining GitLab webhook client: %s" e w kept)
  ]

  pub sync_webhook-Keeps :
      (url : String) (w : World C W) → Kept w → Keeps src (sync_webhook mgr env url w)
  unfolding sync_webhook get_source
  sync_webhook-Keeps url w kept =
      Ending-calling (Keeps src) (env.get_client w.source) (client_of mgr env url) w
        (λ a e h. client_of-Keeps url (ok a) (record w { environment = e }) kept)
        (λ x e h. client_of-Keeps url (err x) (record w { environment = e }) kept) (λ w'. tt)
