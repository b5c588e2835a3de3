-- ===== src/Injection/Informers.antt =====
-- The informers of both resources in contexts: informers/sources/v1alpha1/gitlabsource,
-- informers/bindings/v1alpha1/gitlabbinding, and the folder filtered of each.
use eventing_gitlab.Base.{ℕ, List, [], ◌∷◌, some, String}
use eventing_gitlab.Base.Dict.{lookup}
use eventing_gitlab.Errors.{Action, pure, ◌>>=◌, ◌>>◌}
use eventing_gitlab.Informers.Groups.{Caching, sources_group, bindings_group}
use eventing_gitlab.Informers.Groups.Sources.{sources_v1alpha1, git_lab_sources, source_informer}
use eventing_gitlab.Informers.Groups.Bindings.{
  bindings_v1alpha1, git_lab_bindings, binding_informer,
}
use eventing_gitlab.Injection.{Made, Access, Context, get_value, deref, assign}
use eventing_gitlab.Injection.Factories.{get_factory, get_filtered_factory}

module _ {C O H W I T : Type 0} where
  -- `gitlabsource.Get`
  unfoldable pub get_source_informer : Context C O H W → Action (List (Made C O H W I T)) Access
  get_source_informer ctx = get_value ctx.source_informer

  -- `gitlabbinding.Get`
  unfoldable pub get_binding_informer : Context C O H W → Action (List (Made C O H W I T)) Access
  get_binding_informer ctx = get_value ctx.binding_informer

  -- `Get` of the sources' folder filtered
  unfoldable pub get_filtered_source_informer :
      (selector : String) → Context C O H W → Action (List (Made C O H W I T)) Access
  unfolding lookup
  get_filtered_source_informer selector ctx =
      get_value (lookup selector ctx.filtered_source_informers)

  -- `Get` of the bindings' folder filtered
  unfoldable pub get_filtered_binding_informer :
      (selector : String) → Context C O H W → Action (List (Made C O H W I T)) Access
  unfolding lookup
  get_filtered_binding_informer selector ctx =
      get_value (lookup selector ctx.filtered_binding_informers)

  module _ (lib : Caching C H W I T) where
    -- `f.Sources().V1alpha1().GitLabSources()` of a factory, which is at the pointer, and its `Informer()`.
    unfoldable pub source_access_of :
        ℕ → Made C O H W I T → Action (List (Made C O H W I T)) (Access × I)
    unfolding sources_group sources_v1alpha1 git_lab_sources source_informer
    source_access_of p made = do
      let scope = git_lab_sources (sources_v1alpha1 (sources_group made.factory))
      let (informer, factory) = source_informer lib made.client scope made.factory
      assign p (record made { factory = factory })
      pure (record { of_factory = p; scope = scope }, informer)

    -- The same of the factory at a pointer.
    unfoldable pub source_access : ℕ → Action (List (Made C O H W I T)) (Access × I)
    unfolding source_access_of
    source_access p = deref p >>= source_access_of p

    -- `f.Bindings().V1alpha1().GitLabBindings()` of a factory, which is at the pointer, and its `Informer()`.
    unfoldable pub binding_access_of :
        ℕ → Made C O H W I T → Action (List (Made C O H W I T)) (Access × I)
    unfolding bindings_group bindings_v1alpha1 git_lab_bindings binding_informer
    binding_access_of p made = do
      let scope = git_lab_bindings (bindings_v1alpha1 (bindings_group made.factory))
      let (informer, factory) = binding_informer lib made.client scope made.factory
      assign p (record made { factory = factory })
      pure (record { of_factory = p; scope = scope }, informer)

    -- The same of the factory at a pointer.
    unfoldable pub binding_access : ℕ → Action (List (Made C O H W I T)) (Access × I)
    unfolding binding_access_of
    binding_access p = deref p >>= binding_access_of p

    -- `withInformer` of the sources
    unfoldable pub with_source_informer :
        Context C O H W → Action (List (Made C O H W I T)) (Context C O H W × I)
    unfolding get_factory source_access
    with_source_informer ctx = do
      f ← get_factory ctx
      (access, informer) ← source_access f
      pure (record ctx { source_informer = some access }, informer)

    -- `withInformer` of the bindings
    unfoldable pub with_binding_informer :
        Context C O H W → Action (List (Made C O H W I T)) (Context C O H W × I)
    unfolding get_factory binding_access
    with_binding_informer ctx = do
      f ← get_factory ctx
      (access, informer) ← binding_access f
      pure (record ctx { binding_informer = some access }, informer)

    -- The loop of the sources' filtered `withInformer`.
    unfoldable pub with_each_source_informer :
        List String → Context C O H W → Action (List (Made C O H W I T)) (Context C O H W × List I)
    unfolding get_filtered_factory source_access
    with_each_source_informer [] ctx = pure (ctx, [])
    with_each_source_informer (selector ∷ selectors) ctx = do
      f ← get_filtered_factory selector ctx
      (access, informer) ← source_access f
      (ctx', infs) ← with_each_source_informer selectors (record ctx {
        filtered_source_informers = (selector, access) ∷ ctx.filtered_source_informers;
      })
      pure (ctx', informer ∷ infs)

    -- The loop of the bindings' filtered `withInformer`.
    unfoldable pub with_each_binding_informer :
        List String → Context C O H W → Action (List (Made C O H W I T)) (Context C O H W × List I)
    unfolding get_filtered_factory binding_access
    with_each_binding_informer [] ctx = pure (ctx, [])
    with_each_binding_informer (selector ∷ selectors) ctx = do
      f ← get_filtered_factory selector ctx
      (access, informer) ← binding_access f
      (ctx', infs) ← with_each_binding_informer selectors (record ctx {
        filtered_binding_informers = (selector, access) ∷ ctx.filtered_binding_informers;
      })
      pure (ctx', informer ∷ infs)

    -- `withInformer` of the sources' folder filtered
    unfoldable pub with_filtered_source_informers :
        Context C O H W → Action (List (Made C O H W I T)) (Context C O H W × List I)
    unfolding with_each_source_informer
    with_filtered_source_informers ctx = do
      label_selectors ← get_value ctx.label_selectors
      with_each_source_informer label_selectors ctx

    -- `withInformer` of the bindings' folder filtered
    unfoldable pub with_filtered_binding_informers :
        Context C O H W → Action (List (Made C O H W I T)) (Context C O H W × List I)
    unfolding with_each_binding_informer
    with_filtered_binding_informers ctx = do
      label_selectors ← get_value ctx.label_selectors
      with_each_binding_informer label_selectors ctx
