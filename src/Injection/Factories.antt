-- ===== src/Injection/Factories.antt =====
-- client/client.go, informers/factory/factory.go and informers/factory/filtered/filtered_factory.go.
use eventing_gitlab.Base.{ℕ, Option, none, some, List, [], ◌∷◌, ◌++◌, String}
use eventing_gitlab.Base.Dict.{lookup}
use eventing_gitlab.Errors.{Action, pure, ◌>>=◌}
use eventing_gitlab.Informers.Factory.{
  SharedInformerOption, new_shared_informer_factory_with_options, with_namespace,
  with_tweak_list_options,
}
use eventing_gitlab.Informers.Groups.{Clients, Factory, Tweak}
use eventing_gitlab.Injection.{Made, Context, get_value, allocate}

-- `func(l *v1.ListOptions) { l.LabelSelector = selectorVal }`
abbrev pub set_label_selector : String → Tweak
set_label_selector selector options = record options { label_selector = selector }

-- `filtered.WithSelectors`
unfoldable pub with_selectors : {C O H W : Type 0} → List String → Context C O H W → Context C O H W
with_selectors selector ctx = record ctx { label_selectors = some selector }

module _ {I T : Type 0} where
  -- The option for a context that is restricted to a namespace.
  unfoldable pub scope_options : Option String → List (SharedInformerOption I T Tweak)
  unfolding with_namespace
  scope_options none = []
  scope_options (some namespace) = with_namespace namespace ∷ []

  -- The factory of one selector.
  unfoldable pub filtered_factory :
      (namespace_scope : Option String) → (resync_period : ℕ) → (selector : String) → Factory I T
  unfolding scope_options with_tweak_list_options new_shared_informer_factory_with_options
  filtered_factory namespace_scope resync_period selector =
      new_shared_informer_factory_with_options resync_period (
        scope_options namespace_scope
        ++ with_tweak_list_options (some (set_label_selector selector)) ∷ [])

module _ {C O H W I T : Type 0} where
  -- `client.Get`
  unfoldable pub client_in : Context C O H W → Action (List (Made C O H W I T)) (Clients C O H W)
  client_in ctx = get_value ctx.client

  -- `factory.Get`
  unfoldable pub get_factory : Context C O H W → Action (List (Made C O H W I T)) ℕ
  get_factory ctx = get_value ctx.factory

  -- `filtered.Get` of the factories
  unfoldable pub get_filtered_factory :
      (selector : String) → Context C O H W → Action (List (Made C O H W I T)) ℕ
  unfolding lookup
  get_filtered_factory selector ctx = get_value (lookup selector ctx.filtered_factories)

  -- `withInformerFactory` of the factory
  unfoldable pub with_informer_factory :
      Context C O H W → Action (List (Made C O H W I T)) (Context C O H W)
  unfolding client_in scope_options new_shared_informer_factory_with_options
  with_informer_factory ctx = do
    c ← client_in ctx
    p ← allocate (record {
      client = c;
      factory =
          new_shared_informer_factory_with_options ctx.resync_period
            (scope_options ctx.namespace_scope);
    })
    pure (record ctx { factory = some p })

  -- The loop of `withInformerFactory`.
  unfoldable pub with_each_factory :
      Clients C O H W
      → List String
      → Context C O H W
      → Action (List (Made C O H W I T)) (Context C O H W)
  unfolding filtered_factory
  with_each_factory c [] ctx = pure ctx
  with_each_factory c (selector ∷ selectors) ctx = do
    p ← allocate (record {
      client = c;
      factory = filtered_factory ctx.namespace_scope ctx.resync_period selector;
    })
    with_each_factory c selectors
        (record ctx { filtered_factories = (selector, p) ∷ ctx.filtered_factories })

  -- `withInformerFactory` of the filtered factories
  unfoldable pub with_filtered_factories :
      Context C O H W → Action (List (Made C O H W I T)) (Context C O H W)
  unfolding client_in with_each_factory
  with_filtered_factories ctx = do
    c ← client_in ctx
    label_selectors ← get_value ctx.label_selectors
    with_each_factory c label_selectors ctx
