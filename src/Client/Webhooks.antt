-- ===== src/Client/Webhooks.antt =====
-- The webhook client of a project and the getter that builds it:
-- pkg/client/gitlab/webhook_client.go. The API client of gitlab.com/gitlab-org/api/client-go, with
-- a handle `H` for each client that it makes, is a parameter; `S` is the state of the environment.
pub mod Getter
use eventing_gitlab.Base.{ℕ, Option, none, some, List, [], ◌∷◌, String, Bool, ◌==◌, if◌then◌else◌}
use eventing_gitlab.Errors.{Result, Action, pure, crash, of_result, wrapping, ◌>>=◌}
use eventing_gitlab.Source.Types.{GitLabSource}
use eventing_gitlab.Secret
use eventing_gitlab.Secret.{SecretInterface}
use eventing_gitlab.Client.Hooks.{HookOptions, add_options, edit_options}
use eventing_gitlab.Client.ProjectUrl.{split_gitlab_project_url}

-- The calls of the API client for the hooks of a project. Of a hook its ID is read.
pub record GitLabApi (H S : Type 0) : Type 0 where
  pub new_client : (api_token base_url : String) → Result H
  pub get_project_hook : H → (project : String) → (hook_id : ℕ) → Action S ℕ
  pub add_project_hook : H → (project : String) → HookOptions → Action S ℕ
  pub edit_project_hook : H → (project : String) → (hook_id : ℕ) → HookOptions → Action S (Unit {0})
  pub delete_project_hook : H → (project : String) → (hook_id : ℕ) → Action S (Unit {0})

-- The interface `WebhookClient`. Where the source returns -1 beside an error, there is the error.
pub record WebhookClient (S : Type 0) : Type 0 where
  pub get : (hook_id : ℕ) → Action S ℕ
  pub add : (event_types : List String) → (webhook_url : String) → (tls : Bool) → Action S ℕ
  pub edit :
      (hook_id : ℕ)
      → (event_types : List String) → (webhook_url : String) → (tls : Bool) → Action S (Unit {0})
  pub delete : (hook_id : ℕ) → Action S (Unit {0})

-- `webhookClient`
pub record ProjectClient (H : Type 0) : Type 0 where
  pub cli : H
  pub project_name : String
  pub secret_token : Option String

module _ {H S : Type 0} (api : GitLabApi H S) where
  -- The methods of `webhookClient`.
  unfoldable pub webhook_client : ProjectClient H → WebhookClient S
  webhook_client c = record {
    get = λ hook_id.
        wrapping "getting webhook from project %q: %w" (c.project_name ∷ [])
          (api.get_project_hook c.cli c.project_name hook_id);
    add = λ event_types webhook_url tls.
        wrapping "adding webhook to project %q: %w" (c.project_name ∷ []) (
          api.add_project_hook c.cli c.project_name
            (add_options event_types webhook_url tls c.secret_token));
    edit = λ hook_id event_types webhook_url tls.
        wrapping "editing webhook in project %q: %w" (c.project_name ∷ []) (
          api.edit_project_hook c.cli c.project_name hook_id
            (edit_options event_types webhook_url tls c.secret_token));
    delete = λ hook_id.
        wrapping "deleting webhook from project %q: %w" (c.project_name ∷ [])
          (api.delete_project_hook c.cli c.project_name hook_id);
  }

-- `var secretTokenPtr *string`
abbrev pub token_pointer : String → Option String
token_pointer secret_token = if secret_token == "" then none else some secret_token

-- The two indexed reads of `requestedSecrets`.
abbrev pub two_secrets : {S : Type 0} → List String → Action S (String × String)
two_secrets (api_token ∷ secret_token ∷ _) = pure (api_token, secret_token)
two_secrets _ = crash

module _ {H S : Type 0} (api : GitLabApi H S) (parse : String → Result String)
    (secrets : (namespace : String) → SecretInterface S) where
  -- `WebhookClientGetterWithSecretGetter.Get` up to the construction of the client.
  pub project_client : {C : Type 0} → GitLabSource C → Action S (ProjectClient H)
  project_client src = do
    parts ←
        wrapping "reading components from the given project URL: %w" []
          (of_result (split_gitlab_project_url parse src.spec.project_url))
    requested ← wrapping "retrieving user-provided GitLab secrets: %w" [] (
        Secret.get (secrets src.metadata.namespace)
          (src.spec.access_token ∷ src.spec.secret_token ∷ []))
    tokens ← two_secrets requested
    cli ← wrapping "creating a GitLab client: %w" [] (of_result (api.new_client tokens.0 parts.0))
    pure (record { cli = cli; project_name = parts.1; secret_token = token_pointer tokens.1 })

  -- `WebhookClientGetterWithSecretGetter.Get`
  pub get_client : {C : Type 0} → GitLabSource C → Action S (WebhookClient S)
  unfolding project_client
  get_client src = do c ← project_client src; pure (webhook_client api c)
