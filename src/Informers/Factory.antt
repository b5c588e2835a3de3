-- ===== src/Informers/Factory.antt =====
-- The factory of shared informers: pkg/client/informers/externalversions/factory.go. A type is known
-- by its name, `I` is the type of the informers and `T` that of their transforms. The goroutines that
-- `Start` makes are the informers that run. Each call holds the factory's lock, so that calls follow
-- one another; the waiting of `Shutdown` for the goroutines is left out.
pub mod Steps
pub mod Running
pub mod Refinement
pub mod Keeping
use eventing_gitlab.Base.{
  ℕ, Option, none, some, List, [], ◌∷◌, String, Bool, true, false, if◌then◌else◌,
}
use eventing_gitlab.Base.Dict.{lookup}
use eventing_gitlab.Source.EventTypes.{has_key}

-- `sharedInformerFactory`. `K` is the type of the functions that tweak list options.
pub record SharedInformerFactory (I T K : Type 0) : Type 0 where
  pub namespace : String
  pub tweak_list_options : Option K
  pub default_resync : ℕ
  pub custom_resync : List (String × ℕ)
  pub transform : Option T
  pub informers : List (String × I)
  pub started_informers : List String
  pub running : List (String × I)
  pub shutting_down : Bool

-- `SharedInformerOption`
abbrev pub SharedInformerOption : (I T K : Type 0) → Type 0
SharedInformerOption I T K = SharedInformerFactory I T K → SharedInformerFactory I T K

-- The entries of a map written to another, a later one in front.
pub set_all : List (String × ℕ) → List (String × ℕ) → List (String × ℕ)
set_all [] m = m
set_all (entry ∷ entries) m = set_all entries (entry ∷ m)

module _ {I T K : Type 0} where
  -- `WithCustomResyncConfig`
  pub with_custom_resync_config : List (String × ℕ) → SharedInformerOption I T K
  unfolding set_all
  with_custom_resync_config resync_config factory = record factory {
    custom_resync = set_all resync_config factory.custom_resync;
  }

  -- `WithTweakListOptions`
  unfoldable pub with_tweak_list_options : Option K → SharedInformerOption I T K
  with_tweak_list_options tweak factory = record factory { tweak_list_options = tweak }

  -- `WithNamespace`
  unfoldable pub with_namespace : String → SharedInformerOption I T K
  with_namespace namespace factory = record factory { namespace = namespace }

  -- `WithTransform`
  pub with_transform : Option T → SharedInformerOption I T K
  with_transform transform factory = record factory { transform = transform }

  unfoldable pub apply_all :
      List (SharedInformerOption I T K) → SharedInformerFactory I T K → SharedInformerFactory I T K
  apply_all [] factory = factory
  apply_all (opt ∷ options) factory = apply_all options (opt factory)

  -- `NewSharedInformerFactoryWithOptions`: `NamespaceAll` is the empty text.
  unfoldable pub new_shared_informer_factory_with_options :
      (default_resync : ℕ) → List (SharedInformerOption I T K) → SharedInformerFactory I T K
  unfolding apply_all
  new_shared_informer_factory_with_options default_resync options = apply_all options (record {
    namespace = "";
    tweak_list_options = none;
    default_resync = default_resync;
    custom_resync = [];
    transform = none;
    informers = [];
    started_informers = [];
    running = [];
    shutting_down = false;
  })

  -- `NewSharedInformerFactory`
  pub new_shared_informer_factory : (default_resync : ℕ) → SharedInformerFactory I T K
  unfolding new_shared_informer_factory_with_options
  new_shared_informer_factory default_resync =
      new_shared_informer_factory_with_options default_resync []

  -- `NewFilteredSharedInformerFactory`
  unfoldable pub new_filtered_shared_informer_factory :
      (default_resync : ℕ) → (namespace : String) → Option K → SharedInformerFactory I T K
  unfolding new_shared_informer_factory_with_options with_namespace with_tweak_list_options
  new_filtered_shared_informer_factory default_resync namespace tweak =
      new_shared_informer_factory_with_options default_resync
        (with_namespace namespace ∷ with_tweak_list_options tweak ∷ [])

  -- One turn of the loop of `Start`.
  pub start_one : String × I → SharedInformerFactory I T K → SharedInformerFactory I T K
  unfolding has_key
  start_one (informer_type, informer) f =
      if has_key informer_type f.started_informers then f else record f {
        started_informers = informer_type ∷ f.started_informers;
        running = (informer_type, informer) ∷ f.running;
      }

  pub start_each : List (String × I) → SharedInformerFactory I T K → SharedInformerFactory I T K
  unfolding start_one
  start_each [] f = f
  start_each (entry ∷ entries) f = start_each entries (start_one entry f)

  -- `Start`: `iteration` is the order in which the loop visits the map.
  pub start :
      (iteration : List (String × I) → List (String × I))
      → SharedInformerFactory I T K
      → SharedInformerFactory I T K
  unfolding start_each
  start iteration f = if f.shutting_down then f else start_each (iteration f.informers) f

  -- `Shutdown`
  unfoldable pub shutdown : SharedInformerFactory I T K → SharedInformerFactory I T K
  shutdown f = record f { shutting_down = true }

  -- `WaitForCacheSync`: what `cache.WaitForCacheSync` answers for each informer that is started.
  pub wait_for_cache_sync :
      (wait : I → Bool) → List (String × I) → SharedInformerFactory I T K → List (String × Bool)
  unfolding has_key
  wait_for_cache_sync wait [] f = []
  wait_for_cache_sync wait ((informer_type, informer) ∷ entries) f =
      let rest = wait_for_cache_sync wait entries f in
      if has_key informer_type f.started_informers
      then (informer_type, wait informer) ∷ rest
      else rest

  -- The resync period of a type.
  unfoldable pub resync_period : String → SharedInformerFactory I T K → ℕ
  unfolding lookup
  resync_period informer_type f = elim (lookup informer_type f.custom_resync) [
    | some period ↦ period
    | none ↦ f.default_resync
  ]

  -- `InformerFor`: `new_func` makes an informer, and `set_transform` is its method.
  unfoldable pub informer_for :
      (set_transform : Option T → I → I)
      → String
      → (new_func : (resync : ℕ) → I) → SharedInformerFactory I T K
      → I × SharedInformerFactory I T K
  unfolding lookup resync_period
  informer_for set_transform informer_type new_func f = elim (lookup informer_type f.informers) [
    | some informer ↦ (informer, f)
    | none ↦
        let informer = set_transform f.transform (new_func (resync_period informer_type f)) in
        (informer, record f { informers = (informer_type, informer) ∷ f.informers })
  ]
