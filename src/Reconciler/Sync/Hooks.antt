-- ===== src/Reconciler/Sync/Hooks.antt =====
-- The calls that `syncWebhook` makes once it has a client: one `Add`, or one `Get` and then one
-- `Edit`, one `Add` or nothing.
use mathlib.Core.Path.{subst}
use eventing_gitlab.Base.{
  ℕ, ◌≡◌, ◌≢◌, refl, ◌⊎◌, inl, inr, Option, none, some, ◌∷◌, String, true, false, arith, Bool-cases,
}
use eventing_gitlab.Errors.{Err, as_response, Result, ok, err, panic}
use eventing_gitlab.Source.Status.{ConditionManager}
use eventing_gitlab.Client.Webhooks.{WebhookClient}
use eventing_gitlab.Reconciler.Cluster.{World, Services, get_source}
use eventing_gitlab.Reconciler.Calls.{Ending-calling}
use eventing_gitlab.Reconciler.Sync.{
  is_hook_not_found, no_webhook, added, add_webhook, edited, retrieved, sync_with, client_of,
  sync_webhook,
}
use eventing_gitlab.Reconciler.Sync.Laws.{webhook_created}

is_hook_not_found-true : (e : Err) → is_hook_not_found e ≡ true → as_response e ≡ some 404
unfolding is_hook_not_found
is_hook_not_found-true e h = ground arith

is_hook_not_found-false : (e : Err) → is_hook_not_found e ≡ false → as_response e ≢ some 404
unfolding is_hook_not_found
is_hook_not_found-false e h same = ground arith

-- How the sync ends with no call.
abbrev pub Untouched : {C W : Type 0} → World C W → Result ℕ × World C W → Type 0
Untouched w (ok hook_id, w') = ⊥
Untouched w (err e, w') = w'.environment ≡ w.environment
Untouched w (panic, w') = Unit

module _ {C W : Type 0} (cli : WebhookClient W) (url : String) where
  -- How the sync ends with one `Add` from the world `w`.
  abbrev pub Added : World C W → Result ℕ × World C W → Type 0
  Added w (ok hook_id, w') =
      (cli.add w.source.spec.event_types url w.source.spec.ssl_verify w.environment
        ≡ (ok hook_id, w'.environment))
      × (w'.source ≡ w.source)
      × (w'.recorded ≡ webhook_created ∷ w.recorded)
  Added w (err e, w') =
      (x : Err) × (cli.add w.source.spec.event_types url w.source.spec.ssl_verify w.environment
        ≡ (err x, w'.environment))
  Added w (panic, w') = Unit

  -- How it ends with one `Edit` of the hook.
  abbrev pub Edited : ℕ → World C W → Result ℕ × World C W → Type 0
  Edited hook_id w (ok result, w') =
      (result ≡ hook_id)
      × (cli.edit hook_id w.source.spec.event_types url w.source.spec.ssl_verify w.environment
          ≡ (ok tt, w'.environment))
      × (w'.source ≡ w.source)
      × (w'.recorded ≡ w.recorded)
  Edited hook_id w (err e, w') =
      (x : Err) × (cli.edit hook_id w.source.spec.event_types url w.source.spec.ssl_verify
          w.environment
        ≡ (err x, w'.environment))
  Edited hook_id w (panic, w') = Unit

  -- How it ends where the status has no hook, or has the hook `hook_id`.
  abbrev pub Synced : Option ℕ → World C W → Result ℕ × World C W → Type 0
  Synced none w r = Added w r
  Synced (some hook_id) w r =
      ((hook : ℕ) × (e : W) × (cli.get hook_id w.environment ≡ (ok hook, e))
        × Edited hook_id (record w { environment = e }) r)
      ⊎ ((x : Err) × (e : W) × (cli.get hook_id w.environment ≡ (err x, e))
          × (as_response x ≡ some 404)
          × Added (record w { environment = e }) r)
      ⊎ ((x : Err) × (e : W) × (cli.get hook_id w.environment ≡ (err x, e))
          × (as_response x ≢ some 404)
          × Untouched (record w { environment = e }) r)
      ⊎ (r.0 ≡ panic)

  module _ (mgr : ConditionManager C) (env : Services C W) where
    add_webhook-Added : (w : World C W) → Added w (add_webhook mgr env cli url w)
    unfolding add_webhook get_source added no_webhook
    add_webhook-Added w =
        Ending-calling (Added w) (cli.add w.source.spec.event_types url w.source.spec.ssl_verify)
          (added mgr env) w (λ a e h. (h, refl, refl)) (λ x e h. (x, h)) (λ w'. tt)

    retrieved-Edited :
        (hook_id hook : ℕ) (w : World C W)
        → Edited hook_id w (retrieved mgr env cli url hook_id (ok hook) w)
    unfolding retrieved get_source edited no_webhook
    retrieved-Edited hook_id hook w =
        Ending-calling (Edited hook_id w)
          (cli.edit hook_id w.source.spec.event_types url w.source.spec.ssl_verify)
          (edited mgr env hook_id) w (λ a e h. (refl, h, refl, refl)) (λ x e h. (x, h)) (λ w'. tt)

    retrieved-gone :
        (hook_id : ℕ) (x : Err) (w : World C W)
        → is_hook_not_found x ≡ true
        → Added w (retrieved mgr env cli url hook_id (err x) w)
    unfolding retrieved
    retrieved-gone hook_id x w gone = rw (gone, Added) (add_webhook-Added w)

    retrieved-failed :
        (hook_id : ℕ) (x : Err) (w : World C W)
        → is_hook_not_found x ≡ false
        → Untouched w (retrieved mgr env cli url hook_id (err x) w)
    unfolding retrieved no_webhook
    retrieved-failed hook_id x w other = rw (other, Untouched) refl

    sync_with-Synced :
        (hook : Option ℕ) (w : World C W) → Synced hook w (sync_with mgr env cli url hook w)
    unfolding sync_with
    sync_with-Synced none w = add_webhook-Added w
    sync_with-Synced (some hook_id) w =
        Ending-calling (Synced (some hook_id) w) (cli.get hook_id)
          (retrieved mgr env cli url hook_id) w
          (λ hook e h.
            inl (hook, e, h, retrieved-Edited hook_id hook (record w { environment = e })))
          (λ x e h. elim (Bool-cases (is_hook_not_found x)) [
            | inl gone ↦ inr (
                inl (
                  x,
                  e,
                  h,
                  is_hook_not_found-true x gone,
                  retrieved-gone hook_id x (record w { environment = e }) gone,
                ))
            | inr other ↦ inr (
                inr (
                  inl (
                    x,
                    e,
                    h,
                    is_hook_not_found-false x other,
                    retrieved-failed hook_id x (record w { environment = e }) other,
                  )))
          ])
          (λ w'. inr (inr (inr refl)))

module _ {C W : Type 0} (mgr : ConditionManager C) (env : Services C W) where
  -- How `syncWebhook` ends: it asks for a client once, and calls nothing else without one.
  abbrev pub SyncedWebhook : (url : String) → World C W → Result ℕ × World C W → Type 0
  SyncedWebhook url w r =
      ((cli : WebhookClient W) × (e : W) × (env.get_client w.source w.environment ≡ (ok cli, e))
        × Synced cli url w.source.status.webhook_id (record w { environment = e }) r)
      ⊎ ((x : Err) × (e : W) × (env.get_client w.source w.environment ≡ (err x, e))
          × Untouched (record w { environment = e }) r)
      ⊎ (r.0 ≡ panic)

  client_of-Untouched :
      (url : String) (x : Err) (w : World C W) → Untouched w (client_of mgr env url (err x) w)
  unfolding client_of no_webhook
  client_of-Untouched url x w = elim (Bool-cases (env.is_not_found x)) [
    | inl gone ↦ rw (gone, Untouched) refl
    | inr other ↦ rw (other, Untouched) refl
  ]

  -- `syncWebhook` adds a hook just where the status has no ID or GitLab answers 404 for it; a hook
  -- that is there is edited and keeps its ID; after any other error of `Get`, and without a client,
  -- it calls neither `Add` nor `Edit`. An event records each new hook.
  pub sync_webhook-SyncedWebhook :
      (url : String) (w : World C W) → SyncedWebhook url w (sync_webhook mgr env url w)
  unfolding sync_webhook get_source client_of
  sync_webhook-SyncedWebhook url w =
      Ending-calling (SyncedWebhook url w) (env.get_client w.source) (client_of mgr env url) w
        (λ cli e h. inl (
          cli,
          e,
          h,
          sync_with-Synced cli url mgr env w.source.status.webhook_id
              (record w { environment = e }),
        ))
        (λ x e h. inr (inl (x, e, h, client_of-Untouched url x (record w { environment = e }))))
        (λ w'. inr (inr refl))

  SyncedWebhook-source :
      (url : String) (w : World C W) (id : ℕ) (w' : World C W)
      → SyncedWebhook url w (ok id, w')
      → w'.source ≡ w.source
  SyncedWebhook-source url w id w' h = ground arith

  -- A sync that succeeds leaves the source as it is.
  pub sync_webhook-source :
      (url : String) (w : World C W) {hook_id : ℕ} {w' : World C W}
      → sync_webhook mgr env url w ≡ (ok hook_id, w')
      → w'.source ≡ w.source
  sync_webhook-source url w {hook_id} {w'} h =
      SyncedWebhook-source url w hook_id w'
        (subst (SyncedWebhook url w) h (sync_webhook-SyncedWebhook url w))
