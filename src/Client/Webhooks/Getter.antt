-- ===== src/Client/Webhooks/Getter.antt =====
-- How the getter of webhook clients fails.
use eventing_gitlab.Base.{◌≡◌, ◌≢◌, List, [], ◌∷◌, String, arith, length}
use eventing_gitlab.Errors.{Err, wrap, Result, ok, panic, Action, pure, of_result, wrapping, ◌>>=◌}
use eventing_gitlab.Errors.Guarded.{Guarded, Guarded-bind, Guarded-wrapping, wrapping-eq-ok}
use eventing_gitlab.Source.Types.{GitLabSource}
use eventing_gitlab.Secret
use eventing_gitlab.Secret.{SecretInterface, Cache}
use eventing_gitlab.Secret.Failing.{get-Guarded}
use eventing_gitlab.Secret.Laws.{length-get}
use eventing_gitlab.Client.ProjectUrl.{split_gitlab_project_url}
use eventing_gitlab.Client.ProjectUrl.Laws.{
  split_gitlab_project_url-Guarded, split_gitlab_project_url-eq-panic_iff,
}
use eventing_gitlab.Client.Webhooks.{
  GitLabApi, ProjectClient, webhook_client, token_pointer, two_secrets, project_client, get_client,
}

module _ {H S : Type 0} (api : GitLabApi H S) (parse : String → Result String)
    (secrets : (namespace : String) → SecretInterface S) (P : Err → Type 0)
    (closed : (f : String) (a : List String) (e : Err) → P e → P (wrap f a e))
    (parse_h : (url : String) → Guarded P (parse url))
    (secrets_h : (namespace name : String) (s : S) → Guarded P (secrets namespace name s).0)
    (client_h : (token url : String) → Guarded P (api.new_client token url)) where
  two_secrets-Guarded :
      (vals : List String) (s : S) → length vals ≡ 2 → Guarded P (two_secrets vals s).0
  two_secrets-Guarded [] s e = absurd (omega arith)
  two_secrets-Guarded (a ∷ []) s e = absurd (omega arith)
  two_secrets-Guarded (a ∷ b ∷ vals) s e = tt

  module _ {C : Type 0} (src : GitLabSource C) where
    -- The calls of `project_client` in turn, each with the parts that come behind it.
    abbrev tokens_ready : String × String → String × String → Action S (ProjectClient H)
    tokens_ready parts tokens =
        wrapping "creating a GitLab client: %w" [] (of_result (api.new_client tokens.0 parts.0))
        >>= λ cli.
            pure
              (record { cli = cli; project_name = parts.1; secret_token = token_pointer tokens.1 })

    abbrev secrets_ready : String × String → List String → Action S (ProjectClient H)
    secrets_ready parts requested = two_secrets requested >>= tokens_ready parts

    abbrev request_secrets : Action S (List String)
    request_secrets = wrapping "retrieving user-provided GitLab secrets: %w" [] (
        Secret.get (secrets src.metadata.namespace)
          (src.spec.access_token ∷ src.spec.secret_token ∷ []))

    tokens_ready-Guarded :
        (parts tokens : String × String) (s : S) → Guarded P (tokens_ready parts tokens s).0
    tokens_ready-Guarded parts tokens s =
        Guarded-bind P
          (wrapping "creating a GitLab client: %w" [] (of_result (api.new_client tokens.0 parts.0)))
          (λ cli.
            pure
              (record { cli = cli; project_name = parts.1; secret_token = token_pointer tokens.1 }))
          s
          (Guarded-wrapping P closed _ _ (of_result (api.new_client tokens.0 parts.0)) s
            (client_h tokens.0 parts.0))
          (λ cli s' r. tt)

    secrets_ready-Guarded :
        (parts : String × String) (requested : List String) (s : S)
        → length requested ≡ 2
        → Guarded P (secrets_ready parts requested s).0
    secrets_ready-Guarded parts requested s e =
        Guarded-bind P (two_secrets requested) (tokens_ready parts) s
          (two_secrets-Guarded requested s e) (λ tokens s' r. tokens_ready-Guarded parts tokens s')

  project_client-Guarded :
      {C : Type 0} (src : GitLabSource C) (s : S)
      → parse src.spec.project_url ≢ ok ""
      → Guarded P (project_client api parse secrets src s).0
  unfolding project_client
  project_client-Guarded src s path =
      Guarded-bind P
        (wrapping "reading components from the given project URL: %w" []
          (of_result (split_gitlab_project_url parse src.spec.project_url)))
        (λ parts. request_secrets src >>= secrets_ready src parts) s
        (Guarded-wrapping P closed _ _
          (of_result (split_gitlab_project_url parse src.spec.project_url)) s
          (split_gitlab_project_url-Guarded parse P closed src.spec.project_url
            (parse_h src.spec.project_url) path))
        (λ parts s' r.
          Guarded-bind P (request_secrets src) (secrets_ready src parts) s'
            (Guarded-wrapping P closed _ _
              (Secret.get (secrets src.metadata.namespace)
                (src.spec.access_token ∷ src.spec.secret_token ∷ []))
              s'
              (get-Guarded (secrets src.metadata.namespace) P closed
                (secrets_h src.metadata.namespace)
                (src.spec.access_token ∷ src.spec.secret_token ∷ []) s'))
            (λ requested s'' e. secrets_ready-Guarded src parts requested s'' (
              length-get (secrets src.metadata.namespace)
                (src.spec.access_token ∷ src.spec.secret_token ∷ []) s'
                (wrapping-eq-ok _ _
                  (Secret.get (secrets src.metadata.namespace)
                    (src.spec.access_token ∷ src.spec.secret_token ∷ []))
                  s' e))))

  -- Where the project's URL has a path, the getter does not panic, and its errors have every
  -- property that the errors of the URL parser, of the Secret interface and of the API client's
  -- constructor have and that wrapping keeps.
  pub get_client-Guarded :
      {C : Type 0} (src : GitLabSource C) (s : S)
      → parse src.spec.project_url ≢ ok ""
      → Guarded P (get_client api parse secrets src s).0
  unfolding get_client
  get_client-Guarded src s path =
      Guarded-bind P (project_client api parse secrets src) (λ c. pure (webhook_client api c)) s
        (project_client-Guarded src s path) (λ c s' r. tt)

-- Where the parsed path of the project URL is empty, the getter panics, and the environment is as
-- before: no Secret was read.
pub get_client_empty_path :
    {H S C : Type 0} (api : GitLabApi H S) (parse : String → Result String)
    (secrets : (namespace : String) → SecretInterface S) (src : GitLabSource C) (s : S)
    → parse src.spec.project_url ≡ ok ""
    → get_client api parse secrets src s ≡ (panic, s)
unfolding get_client
get_client_empty_path api parse secrets src s path =
    let split : split_gitlab_project_url parse src.spec.project_url ≡ panic =
      (split_gitlab_project_url-eq-panic_iff parse src.spec.project_url (λ e. cc)).1 path in
    ground arith
