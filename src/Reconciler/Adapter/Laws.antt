-- ===== src/Reconciler/Adapter/Laws.antt =====
-- What `reconcileAdapter` has done when it returns.
use mathlib.Core.Path.{subst}
use eventing_gitlab.Base.{
  ◌≡◌, refl, ap, ◌⊎◌, inl, inr, Option, none, some, List, [], ◌∷◌, ◌++◌, true, false, arith,
  Bool-cases, All,
}
use eventing_gitlab.Errors.{Err, Result, ok, err, panic, attempt, wrapping, ◌>>=◌}
use eventing_gitlab.Source.Types.{ObjectMeta}
use eventing_gitlab.Reconciler.Cluster.{World, Service, Services, calling, get_source}
use eventing_gitlab.Reconciler.Adapter.{
  is_controlled_by, find_owned, owned, generate_knative_service_object, get_owned_knative_service,
  adapter_of, reconcile_adapter,
}

module _ (owner : ObjectMeta) where
  abbrev pub Foreign : Service → Type 0
  Foreign ksvc = is_controlled_by owner ksvc ≡ false

  -- The service is the first of the list that the owner controls.
  abbrev pub FirstOwned : Service → List Service → Type 0
  FirstOwned ksvc items =
      (before : List Service) × (after : List Service) × (items ≡ before ++ ksvc ∷ after)
      × (is_controlled_by owner ksvc ≡ true)
      × All Foreign before

  find_owned-FirstOwned :
      (items : List Service) {ksvc : Service}
      → find_owned owner items ≡ some ksvc
      → FirstOwned ksvc items
  unfolding find_owned
  find_owned-FirstOwned [] e = absurd ground arith
  find_owned-FirstOwned (item ∷ items) {ksvc} e = elim (Bool-cases (is_controlled_by owner item)) [
    | inl mine ↦
        let same : item ≡ ksvc = ground arith in
        ([], items, ap (λ k. k ∷ items) same, ground arith, tt)
    | inr other ↦
        let (before, after, p, q, r) = find_owned-FirstOwned items (ground arith) in
        (item ∷ before, after, ap (λ l. item ∷ l) p, q, (other, r))
  ]

  find_owned-All-Foreign :
      (items : List Service) → find_owned owner items ≡ none → All Foreign items
  unfolding find_owned
  find_owned-All-Foreign [] e = tt
  find_owned-All-Foreign (item ∷ items) e = elim (Bool-cases (is_controlled_by owner item)) [
    | inl mine ↦ absurd ground arith
    | inr other ↦ (other, find_owned-All-Foreign items (ground arith))
  ]

module _ {C W : Type 0} (env : Services C W) where
  -- The service is there before, and nothing is written.
  abbrev pub Existing : World C W → Service → World C W → Type 0
  Existing w ksvc w' =
      (items : List Service) × (e : W) × (env.list_services w.source.metadata.namespace
          w.environment
        ≡ (ok items, e))
      × FirstOwned w.source.metadata ksvc items
      × (w' ≡ record w { environment = e })

  -- The source controls no service, in the environment `e` behind the list.
  abbrev pub Missing : World C W → W → Type 0
  Missing w e =
      ((items : List Service) × (env.list_services w.source.metadata.namespace w.environment
          ≡ (ok items, e))
        × All (Foreign w.source.metadata) items)
      ⊎ ((x : Err) × (env.list_services w.source.metadata.namespace w.environment ≡ (err x, e))
          × (env.is_not_found x ≡ true))

  -- The service is created from the source.
  abbrev pub Created : World C W → Service → World C W → Type 0
  Created w ksvc w' =
      (e : W) × Missing w e
      × (env.create_service w.source.metadata.namespace
            (generate_knative_service_object env w.source) e
          ≡ (ok ksvc, w'.environment))
      × (w' ≡ record w { environment = w'.environment })

  abbrev pub Adapted : World C W → Result Service × World C W → Type 0
  Adapted w (ok ksvc, w') = Existing w ksvc w' ⊎ Created w ksvc w'
  Adapted w (err x, w') = w' ≡ record w { environment = w'.environment }
  Adapted w (panic, w') = Unit

  adapter_of-Adapted :
      (w : World C W) (x : Err) (e : W)
      → env.is_not_found x ≡ true
      → Missing w e
      → Adapted w (adapter_of env (err x) (record w { environment = e }))
  unfolding adapter_of get_source
  adapter_of-Adapted w x e gone missing =
      rw (gone, Adapted)
        (by_outcome
          (env.create_service w.source.metadata.namespace
            (generate_knative_service_object env w.source) e)
          refl)
    where
      by_outcome :
          (r : Result Service × W)
          → env.create_service w.source.metadata.namespace
              (generate_knative_service_object env w.source)
              e
            ≡ r
          → Adapted w (
              wrapping "creating receive adapter: %w" []
                (calling (λ _. r))
                (record w { environment = e }))
      by_outcome (ok k, e') h = inr (e, missing, h, refl)
      by_outcome (err y, e') h = refl
      by_outcome (panic, e') h = tt

  adapter_of-failed :
      (w : World C W) (x : Err) (e : W)
      → env.is_not_found x ≡ false
      → Adapted w (adapter_of env (err x) (record w { environment = e }))
  unfolding adapter_of
  adapter_of-failed w x e other = rw (other, Adapted) refl

  listed-Adapted :
      (w : World C W) (items : List Service) (e : W)
      → env.list_services w.source.metadata.namespace w.environment ≡ (ok items, e)
      → (found : Option Service) → find_owned w.source.metadata items ≡ found
      → Adapted w ((attempt (owned env found) >>= adapter_of env) (record w { environment = e }))
  unfolding owned adapter_of
  listed-Adapted w items e h none f =
      adapter_of-Adapted w env.not_found e env.is_not_found-not_found
        (inl (items, h, find_owned-All-Foreign w.source.metadata items f))
  listed-Adapted w items e h (some ksvc) f =
      inl (items, e, h, find_owned-FirstOwned w.source.metadata items f, refl)

  -- What `reconcileAdapter` returns is the first service in the source's namespace that the source
  -- controls, as it is and with nothing written; or, where the source controls none or the list is
  -- not found, the service that is created once from the source. It changes nothing but the environment.
  pub reconcile_adapter-Adapted : (w : World C W) → Adapted w (reconcile_adapter env w)
  unfolding reconcile_adapter get_owned_knative_service get_source
  reconcile_adapter-Adapted w =
      by_outcome (env.list_services w.source.metadata.namespace w.environment) refl
    where
      by_outcome :
          (r : Result (List Service) × W)
          → env.list_services w.source.metadata.namespace w.environment ≡ r
          → Adapted w (
              (attempt
                    (calling (λ _. r) >>= λ items. owned env (find_owned w.source.metadata items))
                  >>= adapter_of env)
                w)
      by_outcome (ok items, e) h =
          listed-Adapted w items e h (find_owned w.source.metadata items) refl
      by_outcome (err x, e) h = elim (Bool-cases (env.is_not_found x)) [
        | inl gone ↦ adapter_of-Adapted w x e gone (inr (x, h, gone))
        | inr other ↦ adapter_of-failed w x e other
      ]
      by_outcome (panic, e) h = tt

  pub reconcile_adapter-source :
      (w : World C W) {ksvc : Service} {w' : World C W}
      → reconcile_adapter env w ≡ (ok ksvc, w')
      → w'.source ≡ w.source
  reconcile_adapter-source w {ksvc} {w'} h =
      from (subst (Adapted w) h (reconcile_adapter-Adapted w))
    where
      from : Existing w ksvc w' ⊎ Created w ksvc w' → w'.source ≡ w.source
      from (inl (items, e, _, _, same)) = ap (λ v. v.source) same
      from (inr (e, _, _, same)) = ap (λ v. v.source) same
