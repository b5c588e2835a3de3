-- ===== src/Reconciler/Sync.antt =====
-- The webhook: `syncWebhook`, by its switches.
pub mod Laws
pub mod Hooks
pub mod Keeping
use eventing_gitlab.Base.{
  ℕ, Option, none, some, [], ◌∷◌, String, Bool, true, false, if◌then◌else◌, nat_eq,
}
use eventing_gitlab.Errors.{
  crash, normal, warning, Err, wrap, event, as_response, Result, ok, err, panic, pure, fail,
  attempt, ◌>>=◌, ◌>>◌,
}
use eventing_gitlab.Source.Status.{ConditionManager, mark_no_webhook}
use eventing_gitlab.Client.Webhooks.{WebhookClient}
use eventing_gitlab.Reconciler.Cluster.{Services, calling, Doing, get_source, update_status, eventf}

-- `isHookNotFound`
pub is_hook_not_found : Err → Bool
is_hook_not_found e = elim (as_response e) [ none ↦ false | some status ↦ nat_eq status 404 ]

module _ {C W : Type 0} (mgr : ConditionManager C) (env : Services C W) where
  -- `src.Status.MarkNoWebhook` with one error, and the reconciler event with the same message that
  -- is returned. `retried` says whether it is wrapped, which makes the reconciliation fail.
  pub no_webhook : (retried : Bool) → (marked reason format : String) → Err → Doing C W ℕ
  no_webhook retried marked reason format e = do
    update_status (mark_no_webhook mgr marked (record { format = format; args = e ∷ [] }))
    let failure = event warning reason format e
    fail (if retried then wrap "%w" [] failure else failure)

  -- The result of `cli.Add`.
  pub added : Result ℕ → Doing C W ℕ
  unfolding no_webhook
  added (ok hook_id) = do
    eventf normal "WebHookCreated" "Project webhook created successfully" []
    pure hook_id
  added (err e) = no_webhook true "WebhookError" "WebhookError" "Error adding webhook: %s" e
  added panic = crash

  -- `cli.Add` with what follows it, which stands twice in `syncWebhook`.
  pub add_webhook : WebhookClient W → (url : String) → Doing C W ℕ
  unfolding added get_source
  add_webhook cli url = do
    src ← get_source
    result ← attempt (calling (cli.add src.spec.event_types url src.spec.ssl_verify))
    added result

  -- The result of `cli.Edit`.
  pub edited : (hook_id : ℕ) → Result (Unit {0}) → Doing C W ℕ
  unfolding no_webhook
  edited hook_id (ok u) = pure hook_id
  edited hook_id (err e) =
      no_webhook true "WebhookError" "WebhookError" "Error updating webhook: %s" e
  edited hook_id panic = crash

  -- The switch on the result of `cli.Get`.
  pub retrieved : WebhookClient W → (url : String) → (hook_id : ℕ) → Result ℕ → Doing C W ℕ
  unfolding add_webhook edited no_webhook get_source
  retrieved cli url hook_id (ok hook) = do
    src ← get_source
    result ← attempt (calling (cli.edit hook_id src.spec.event_types url src.spec.ssl_verify))
    edited hook_id result
  retrieved cli url hook_id (err e) =
      if is_hook_not_found e
      then add_webhook cli url
      else no_webhook true "WebhookError" "WebhookError" "Error retrieving webhook: %s" e
  retrieved cli url hook_id panic = crash

  -- The part of `syncWebhook` behind the client.
  pub sync_with : WebhookClient W → (url : String) → Option ℕ → Doing C W ℕ
  unfolding add_webhook retrieved
  sync_with cli url none = add_webhook cli url
  sync_with cli url (some hook_id) = do
    result ← attempt (calling (cli.get hook_id))
    retrieved cli url hook_id result

  -- The switch on the result of `cg.Get`.
  pub client_of : (url : String) → Result (WebhookClient W) → Doing C W ℕ
  unfolding sync_with no_webhook get_source
  client_of url (ok cli) = do src ← get_source; sync_with cli url src.status.webhook_id
  client_of url (err e) =
      if env.is_not_found e
      then no_webhook false "MissingCredentials" "AuthError"
          "Error obtaining credentials for GitLab API: %s" e
      else no_webhook true "ClientError" "ClientError" "Error obtaining GitLab webhook client: %s" e
  client_of url panic = crash

  -- `syncWebhook`
  unfoldable pub sync_webhook : (url : String) → Doing C W ℕ
  unfolding client_of get_source
  sync_webhook url = do
    src ← get_source
    result ← attempt (calling (env.get_client src))
    client_of url result
