-- ===== src/Clientset/Config/Laws.antt =====
-- What the clients of a clientset are made of.
use eventing_gitlab.Base.{
  ◌≡◌, ◌≢◌, ◌⊎◌, refl, ap, ◌∙◌, inl, inr, none, some, [], true, false, Bool-cases, Option-cases,
}
use eventing_gitlab.Errors.{Err, Result, ok, err, panic, errorf, Action, pure, ◌>>=◌}
use eventing_gitlab.Errors.Continuing.{bind-eq-ok}
use eventing_gitlab.Clientset.Config.{
  Clientset, not_positive, with_rate_limiter, clients_for, new_for_config_and_client,
}
use eventing_gitlab.Clientset.Config.Groups.{
  Config, RestLibrary, sources_config_defaults, bindings_config_defaults,
  sources_for_config_and_client, bindings_for_config_and_client,
}

abbrev burst_error : Err
burst_error =
    errorf
      "burst is required to be greater than 0 when RateLimiter is not set and QPS is set to greater than 0"
      []

abbrev value_or : {A : Type 0} → A → Result A → A
value_or a (ok x) = x
value_or a (err e) = a
value_or a panic = a

module _ {F L O H R D W : Type 0} (lib : RestLibrary F L O H R D W) where
  -- A clientset whose clients are made one after the other of a configuration and an HTTP client.
  abbrev pub MadeOf : Config F L O → H → W → Result (Clientset D R) × W → Type 0
  MadeOf k h w r =
      (cs : Clientset D R) (w' : W)
      → r ≡ (ok cs, w')
      → (w1 : W) × (w2 : W) × (lib.rest_client_for_config_and_client
            (bindings_config_defaults lib k) h w
          ≡ (ok cs.bindings_v1alpha1, w1))
        × (lib.rest_client_for_config_and_client (sources_config_defaults lib k) h w1
            ≡ (ok cs.sources_v1alpha1, w2))
        × (lib.discovery_for_config_and_client k h w2 ≡ (ok cs.discovery_client, w'))

  clients_for-MadeOf : (k : Config F L O) (h : H) (w : W) → MadeOf k h w (clients_for lib k h w)
  unfolding clients_for sources_for_config_and_client bindings_for_config_and_client
  clients_for-MadeOf k h w cs w' ends =
      let finish : R → R → D → Action W (Clientset D R) = λ b s d.
        pure (record { discovery_client = d; bindings_v1alpha1 = b; sources_v1alpha1 = s }) in
      let discover : R → R → Action W (Clientset D R) =
        λ b s. lib.discovery_for_config_and_client k h >>= finish b s in
      let (b, w1, made, later) =
        bind-eq-ok (bindings_for_config_and_client lib k h)
          (λ b. sources_for_config_and_client lib k h >>= discover b) w ends in
      let (s, w2, made', later') =
        bind-eq-ok (sources_for_config_and_client lib k h) (discover b) w1 later in
      let (d, w3, made'', later'') =
        bind-eq-ok (lib.discovery_for_config_and_client k h) (finish b s) w2 later' in
      let got : record { discovery_client = d; bindings_v1alpha1 = b; sources_v1alpha1 = s } ≡ cs =
        ap (λ r. value_or cs r.0) later'' in
      (
        w1,
        w2,
        made ∙ ap (λ (x : Clientset D R). (ok x.bindings_v1alpha1, w1)) got,
        made' ∙ ap (λ (x : Clientset D R). (ok x.sources_v1alpha1, w2)) got,
        made'' ∙ (λ i. (ok (got i).discovery_client, (later'' i).1)),
      )

  -- The rate limiter that the clients share: that of the configuration or none, or a new one.
  abbrev pub Limited : (c k : Config F L O) → Type 0
  Limited c k =
      (((c.rate_limiter ≢ none) ⊎ (lib.positive c.qps ≡ false)) × (k ≡ c))
      ⊎ ((c.rate_limiter ≡ none)
          × (lib.positive c.qps ≡ true)
          × (not_positive c.burst ≡ false)
          × (k
              ≡ record c { rate_limiter = some (lib.new_token_bucket_rate_limiter c.qps c.burst) }))

  -- A configuration without a rate limiter whose rate is positive and whose burst is not.
  abbrev pub Refused : Config F L O → Type 0
  Refused c = (c.rate_limiter ≡ none) × (lib.positive c.qps ≡ true) × (not_positive c.burst ≡ true)

  with_rate_limiter-cases :
      (c : Config F L O)
      → (Refused c × ((e : Err) × (with_rate_limiter lib c ≡ err e)))
        ⊎ ((k : Config F L O) × Limited c k × (with_rate_limiter lib c ≡ ok k))
  unfolding with_rate_limiter
  with_rate_limiter-cases c = elim (Option-cases c.rate_limiter) [
    | inr (limiter, given) ↦ inr (c, inl (inl (rw given (λ h. cc)), refl), rw given refl)
    | inl absent ↦ elim (Bool-cases (lib.positive c.qps)) [
      | inr low ↦ inr (c, inl (inr low, refl), rw (absent, low) refl)
      | inl high ↦ elim (Bool-cases (not_positive c.burst)) [
        | inl bad ↦ inl ((absent, high, bad), (burst_error, rw (absent, high, bad) refl))
        | inr good ↦ inr (
          record c { rate_limiter = some (lib.new_token_bucket_rate_limiter c.qps c.burst) },
          inr (absent, high, good, refl),
          rw (absent, high, good) refl,
        )
      ]
    ]
  ]

  -- A configuration with a positive rate, no rate limiter and no positive burst is refused, with
  -- nothing asked. Any other gives, if it gives a clientset, one whose three clients are made in turn
  -- of the one HTTP client and of one configuration: the given one, to which a rate limiter is added
  -- if it has none and a positive rate.
  pub new_for_config_and_client-MadeOf :
      (c : Config F L O) (h : H) (w : W)
      → (Refused c × ((e : Err) × (new_for_config_and_client lib c h w ≡ (err e, w))))
        ⊎ ((k : Config F L O) × Limited c k × MadeOf k h w (new_for_config_and_client lib c h w))
  unfolding new_for_config_and_client
  new_for_config_and_client-MadeOf c h w = elim (with_rate_limiter-cases c) [
    | inl (refused, (e, same)) ↦ inl (refused, (e, rw (same, new_for_config_and_client) refl))
    | inr (k, limited, same) ↦
        inr (k, limited, rw (same, new_for_config_and_client) (clients_for-MadeOf k h w))
  ]
