-- ===== src/Reconciler/Sync/Laws.antt =====
-- What `syncWebhook` has done when it returns.
use eventing_gitlab.Base.{
  ℕ, ◌≡◌, inl, inr, Option, none, some, ◌∷◌, [], String, Bool, true, false, Bool-cases,
}
use eventing_gitlab.Errors.{Err, normal, Result, ok, err, panic}
use eventing_gitlab.Source.Status.{
  Message, ConditionManager, mark_no_webhook, ready, webhook_configured, is_false,
}
use eventing_gitlab.Client.Webhooks.{WebhookClient}
use eventing_gitlab.Reconciler.Cluster.{World, Services, Recorded, get_source}
use eventing_gitlab.Reconciler.Calls.{Ending-calling}
use eventing_gitlab.Reconciler.Sync.{
  is_hook_not_found, no_webhook, added, add_webhook, edited, retrieved, sync_with, client_of,
  sync_webhook,
}

-- The event that tells of a new webhook.
abbrev pub webhook_created : Recorded
webhook_created = record {
  severity = normal;
  reason = "WebHookCreated";
  format = "Project webhook created successfully";
  args = [];
}

module _ {C W : Type 0} (mgr : ConditionManager C) (env : Services C W) where
  -- An error leaves the source not ready.
  abbrev pub NotReady : {A : Type 0} → Result A × World C W → Type 0
  NotReady (ok a, w) = Unit
  NotReady (panic, w) = Unit
  NotReady (err e, w) =
      (reason : String) × (m : Message) × (mgr.get w.source.status.conditions ready
        ≡ is_false reason m)

  no_webhook-NotReady :
      (retried : Bool) (marked reason format : String) (e : Err) (w : World C W)
      → NotReady (no_webhook mgr env retried marked reason format e w)
  unfolding no_webhook mark_no_webhook
  no_webhook-NotReady retried marked reason format e w = (
    marked,
    record { format = format; args = e ∷ [] },
    mgr.ready-mark_false webhook_configured marked (record { format = format; args = e ∷ [] })
        w.source.status.conditions,
  )

  module _ (cli : WebhookClient W) (url : String) where
    add_webhook-NotReady : (w : World C W) → NotReady (add_webhook mgr env cli url w)
    unfolding add_webhook get_source added
    add_webhook-NotReady w =
        Ending-calling NotReady (cli.add w.source.spec.event_types url w.source.spec.ssl_verify)
          (added mgr env) w (λ a e h. tt)
          (λ x e h.
            no_webhook-NotReady true "WebhookError" "WebhookError" "Error adding webhook: %s" x
              (record w { environment = e }))
          (λ w'. tt)

    retrieved-NotReady :
        (hook_id : ℕ) (r : Result ℕ) (w : World C W)
        → NotReady (retrieved mgr env cli url hook_id r w)
    unfolding retrieved get_source edited
    retrieved-NotReady hook_id (ok h) w =
        Ending-calling NotReady
          (cli.edit hook_id w.source.spec.event_types url w.source.spec.ssl_verify)
          (edited mgr env hook_id) w (λ a e h. tt)
          (λ x e h.
            no_webhook-NotReady true "WebhookError" "WebhookError" "Error updating webhook: %s" x
              (record w { environment = e }))
          (λ w'. tt)
    retrieved-NotReady hook_id panic w = tt
    retrieved-NotReady hook_id (err e) w = elim (Bool-cases (is_hook_not_found e)) [
      | inl gone ↦ rw (gone, NotReady) (add_webhook-NotReady w)
      | inr other ↦
          rw (other, NotReady)
            (no_webhook-NotReady true "WebhookError" "WebhookError" "Error retrieving webhook: %s" e
              w)
    ]

    sync_with-NotReady :
        (hook : Option ℕ) (w : World C W) → NotReady (sync_with mgr env cli url hook w)
    unfolding sync_with
    sync_with-NotReady none w = add_webhook-NotReady w
    sync_with-NotReady (some hook_id) w =
        Ending-calling NotReady (cli.get hook_id) (retrieved mgr env cli url hook_id) w
          (λ a e h. retrieved-NotReady hook_id (ok a) (record w { environment = e }))
          (λ x e h. retrieved-NotReady hook_id (err x) (record w { environment = e })) (λ w'. tt)

  client_of-NotReady :
      (url : String) (r : Result (WebhookClient W)) (w : World C W)
      → NotReady (client_of mgr env url r w)
  unfolding client_of get_source
  client_of-NotReady url (ok cli) w = sync_with-NotReady cli url w.source.status.webhook_id w
  client_of-NotReady url panic w = tt
  client_of-NotReady url (err e) w = elim (Bool-cases (env.is_not_found e)) [
    | inl gone ↦
        rw (gone, NotReady)
          (no_webhook-NotReady false "MissingCredentials" "AuthError"
            "Error obtaining credentials for GitLab API: %s" e w)
    | inr other ↦
        rw (other, NotReady)
          (no_webhook-NotReady true "ClientError" "ClientError"
            "Error obtaining GitLab webhook client: %s" e w)
  ]

  pub sync_webhook-NotReady : (url : String) (w : World C W) → NotReady (sync_webhook mgr env url w)
  unfolding sync_webhook get_source
  sync_webhook-NotReady url w =
      Ending-calling NotReady (env.get_client w.source) (client_of mgr env url) w
        (λ a e h. client_of-NotReady url (ok a) (record w { environment = e }))
        (λ x e h. client_of-NotReady url (err x) (record w { environment = e })) (λ w'. tt)
