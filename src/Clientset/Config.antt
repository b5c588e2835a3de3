-- ===== src/Clientset/Config.antt =====
-- How clients are made of a configuration: pkg/client/clientset/versioned/clientset.go, and
-- sources_client.go and bindings_client.go of its folder typed.
pub mod Groups
pub mod Laws
use eventing_gitlab.Base.{
  ℕ, zero, suc, Option, none, some, [], String, Bool, true, false, ◌&&◌, ◌==◌, if◌then◌else◌,
}
use eventing_gitlab.Errors.{
  Result, ok, err, panic, errorf, Action, pure, fail, crash, attempt, ◌>>=◌,
}
use eventing_gitlab.Clientset.Config.Groups.{
  ℤ, pos, negsuc, Config, RestLibrary, with_user_agent, bindings_for_config_and_client,
  sources_for_config_and_client, or_die,
}

-- `Clientset`
pub record Clientset (D R : Type 0) : Type 0 where
  pub discovery_client : D
  pub bindings_v1alpha1 : R
  pub sources_v1alpha1 : R

abbrev pub not_positive : ℤ → Bool
not_positive (pos zero) = true
not_positive (pos (suc n)) = false
not_positive (negsuc n) = true

module _ {F L O H R D W : Type 0} (lib : RestLibrary F L O H R D W) where
  abbrev pub needs_limiter : Config F L O → Bool
  needs_limiter c = elim c.rate_limiter [ none ↦ lib.positive c.qps | some limiter ↦ false ]

  -- The copy of the configuration that all clients are made of.
  unfoldable pub with_rate_limiter : Config F L O → Result (Config F L O)
  with_rate_limiter c =
      if needs_limiter c
      then (if not_positive c.burst
          then err (
              errorf
                "burst is required to be greater than 0 when RateLimiter is not set and QPS is set to greater than 0"
                [])
          else ok
              (record c { rate_limiter = some (lib.new_token_bucket_rate_limiter c.qps c.burst) }))
      else ok c

  -- `NewForConfigAndClient`, with the copy in hand.
  unfoldable pub clients_for : Config F L O → (http_client : H) → Action W (Clientset D R)
  clients_for c http_client = do
    bindings ← bindings_for_config_and_client lib c http_client
    sources ← sources_for_config_and_client lib c http_client
    discovery ← lib.discovery_for_config_and_client c http_client
    pure (record {
      discovery_client = discovery;
      bindings_v1alpha1 = bindings;
      sources_v1alpha1 = sources;
    })

  -- `NewForConfigAndClient`
  unfoldable pub new_for_config_and_client :
      Config F L O → (http_client : H) → Action W (Clientset D R)
  unfolding with_rate_limiter clients_for
  new_for_config_and_client c http_client = elim (with_rate_limiter c) [
    | err e ↦ fail e
    | panic ↦ crash
    | ok shallow_copy ↦ clients_for shallow_copy http_client
  ]

  -- `NewForConfig`
  unfoldable pub new_for_config : Config F L O → Action W (Clientset D R)
  unfolding new_for_config_and_client with_user_agent
  new_for_config c = do
    let shallow_copy = with_user_agent lib c
    http_client ← lib.http_client_for shallow_copy
    new_for_config_and_client shallow_copy http_client

  -- `NewForConfigOrDie`
  unfoldable pub new_for_config_or_die : Config F L O → Action W (Clientset D R)
  unfolding new_for_config or_die
  new_for_config_or_die c = or_die (new_for_config c)

  -- `New`, which makes the clients of a `rest.Interface`.
  unfoldable pub new_clientset : R → Clientset D R
  new_clientset c = record {
    discovery_client = lib.new_discovery_client c;
    bindings_v1alpha1 = c;
    sources_v1alpha1 = c;
  }
