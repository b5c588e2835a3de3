-- ===== src/Informers/Groups.antt =====
-- The groups, versions and informers that a factory gives access to:
-- pkg/client/informers/externalversions, its folders sources and bindings. An object
-- that the source makes with a pointer to the factory is a record without it, and its methods take
-- the factory and give it back.
pub mod Sources
pub mod Bindings
pub mod Generic
pub mod Shared
pub mod Listing
use eventing_gitlab.Base.{ℕ, Option, none, some, List, String}
use eventing_gitlab.Errors.{Action}
use eventing_gitlab.Source.Types.{GitLabSource}
use eventing_gitlab.Binding.Types.{GitLabBinding}
use eventing_gitlab.Clientset.{ListOptions}
use eventing_gitlab.Clientset.Sources.{GitLabSourceInterface}
use eventing_gitlab.Clientset.Bindings.{GitLabBindingInterface}
use eventing_gitlab.Informers.Factory.{SharedInformerFactory}

-- `internalinterfaces.TweakListOptionsFunc`, as what it makes of the options.
abbrev pub Tweak : Type 0
Tweak = ListOptions → ListOptions

-- `versioned.Interface`, with the clients of one namespace.
pub record Clients (C O H W : Type 0) : Type 0 where
  pub git_lab_sources : (namespace : String) → GitLabSourceInterface C O H W
  pub git_lab_bindings : (namespace : String) → GitLabBindingInterface C O H W

-- A `cache.ListWatch`.
pub record ListWatch (A H W : Type 0) : Type 0 where
  pub list_func : ListOptions → Action W (List A)
  pub watch_func : ListOptions → Action W H

-- What client-go makes of informers: `NewSharedIndexInformer` for either type of objects, with the
-- resync period and the names of the indexers, and the method `SetTransform`.
pub record Caching (C H W I T : Type 0) : Type 0 where
  pub new_source_informer : ListWatch (GitLabSource C) H W → ℕ → List String → I
  pub new_binding_informer : ListWatch (GitLabBinding C) H W → ℕ → List String → I
  pub set_transform : Option T → I → I

-- `if tweakListOptions != nil { tweakListOptions(&options) }`
abbrev pub tweaked : Option Tweak → ListOptions → ListOptions
tweaked none options = options
tweaked (some tweak) options = tweak options

-- A factory whose options are tweaked by such functions.
abbrev pub Factory : (I T : Type 0) → Type 0
Factory I T = SharedInformerFactory I T Tweak

-- What a group, a version and an informer of them hold.
pub record Scope : Type 0 where
  pub namespace : String
  pub tweak_list_options : Option Tweak

-- `Sources` and `Bindings` of the factory, by `sources.New` and `bindings.New`.
unfoldable pub sources_group : {I T : Type 0} → Factory I T → Scope
sources_group f = record { namespace = f.namespace; tweak_list_options = f.tweak_list_options }

unfoldable pub bindings_group : {I T : Type 0} → Factory I T → Scope
bindings_group f = record { namespace = f.namespace; tweak_list_options = f.tweak_list_options }
