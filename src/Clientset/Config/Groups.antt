-- ===== src/Clientset/Config/Groups.antt =====
-- The clients of the two groups: sources_client.go and bindings_client.go. A client is its REST
-- client.
use eventing_gitlab.Base.{ℕ, Option, some, String, Bool, ◌==◌, if◌then◌else◌}
use eventing_gitlab.Errors.{ok, err, panic, Action, ◌>>=◌}

-- `negsuc n` is -(n + 1).
pub data ℤ : Type 0 where
  pos : ℕ → ℤ
  negsuc : ℕ → ℤ

-- A `rest.Config`: `F` is the type of 32-bit floats and `L` that of rate limiters. `other` holds the
-- fields that nothing here reads.
pub record Config (F L O : Type 0) : Type 0 where
  pub group_version : Option (String × String)
  pub api_path : String
  pub negotiated_serializer : Option String
  pub user_agent : String
  pub rate_limiter : Option L
  pub qps : F
  pub burst : ℤ
  pub other : O

-- Packages rest, discovery and flowcontrol of client-go. `H` is the type of HTTP clients, `R` that of
-- REST clients and `D` that of discovery clients; `positive` is the test `> 0`.
pub record RestLibrary (F L O H R D W : Type 0) : Type 0 where
  pub default_kubernetes_user_agent : String
  pub positive : F → Bool
  pub new_token_bucket_rate_limiter : F → ℤ → L
  pub http_client_for : Config F L O → Action W H
  pub rest_client_for_config_and_client : Config F L O → H → Action W R
  pub discovery_for_config_and_client : Config F L O → H → Action W D
  pub new_discovery_client : R → D

-- `if err != nil { panic(err) }`
unfoldable pub or_die : {A W : Type 0} → Action W A → Action W A
or_die m w =
    let (r, w') = m w in elim r [ ok a ↦ (ok a, w') | err e ↦ (panic, w') | panic ↦ (panic, w') ]

module _ {F L O H R D W : Type 0} (lib : RestLibrary F L O H R D W) where
  -- `if config.UserAgent == "" { config.UserAgent = rest.DefaultKubernetesUserAgent() }`
  unfoldable pub with_user_agent : Config F L O → Config F L O
  with_user_agent c = record c {
    user_agent = if c.user_agent == "" then lib.default_kubernetes_user_agent else c.user_agent;
  }

  -- `setConfigDefaults` of either package, which returns no error.
  unfoldable pub sources_config_defaults : Config F L O → Config F L O
  unfolding with_user_agent
  sources_config_defaults c = with_user_agent (record c {
    group_version = some ("sources.knative.dev", "v1alpha1");
    api_path = "/apis";
    negotiated_serializer = some "scheme.Codecs.WithoutConversion";
  })

  unfoldable pub bindings_config_defaults : Config F L O → Config F L O
  unfolding with_user_agent
  bindings_config_defaults c = with_user_agent (record c {
    group_version = some ("bindings.knative.dev", "v1alpha1");
    api_path = "/apis";
    negotiated_serializer = some "scheme.Codecs.WithoutConversion";
  })

  -- `NewForConfigAndClient` of either package
  unfoldable pub sources_for_config_and_client : Config F L O → H → Action W R
  unfolding sources_config_defaults
  sources_for_config_and_client c h =
      lib.rest_client_for_config_and_client (sources_config_defaults c) h

  unfoldable pub bindings_for_config_and_client : Config F L O → H → Action W R
  unfolding bindings_config_defaults
  bindings_for_config_and_client c h =
      lib.rest_client_for_config_and_client (bindings_config_defaults c) h

  -- `NewForConfig` of either package
  unfoldable pub sources_for_config : Config F L O → Action W R
  unfolding sources_config_defaults sources_for_config_and_client
  sources_for_config c = do
    h ← lib.http_client_for (sources_config_defaults c)
    sources_for_config_and_client (sources_config_defaults c) h

  unfoldable pub bindings_for_config : Config F L O → Action W R
  unfolding bindings_config_defaults bindings_for_config_and_client
  bindings_for_config c = do
    h ← lib.http_client_for (bindings_config_defaults c)
    bindings_for_config_and_client (bindings_config_defaults c) h

  -- `NewForConfigOrDie` of either package
  unfoldable pub sources_for_config_or_die : Config F L O → Action W R
  unfolding sources_for_config or_die
  sources_for_config_or_die c = or_die (sources_for_config c)

  unfoldable pub bindings_for_config_or_die : Config F L O → Action W R
  unfolding bindings_for_config or_die
  bindings_for_config_or_die c = or_die (bindings_for_config c)
