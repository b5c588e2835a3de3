-- ===== src/Informers/Groups/Bindings.antt =====
-- pkg/client/informers/externalversions/bindings, with bindings/v1alpha1/gitlabbinding.go.
use eventing_gitlab.Base.{ℕ, Option, none, List, [], ◌∷◌, String}
use eventing_gitlab.Binding.Types.{GitLabBinding}
use eventing_gitlab.Informers.Factory.{informer_for}
use eventing_gitlab.Informers.Groups.{
  Tweak, Clients, Caching, tweaked, Factory, Scope, bindings_group,
}
use eventing_gitlab.Listers.{Indexer}
use eventing_gitlab.Listers.Bindings.{GitLabBindingLister, new_git_lab_binding_lister}

-- The informers of either package are kept under the type of their objects.
abbrev pub binding_type : String
binding_type = "bindings/v1alpha1.GitLabBinding"

-- `group.V1alpha1`, by `v1alpha1.New`.
unfoldable pub bindings_v1alpha1 : Scope → Scope
bindings_v1alpha1 g = record { namespace = g.namespace; tweak_list_options = g.tweak_list_options }

-- `version.GitLabBindings`
unfoldable pub git_lab_bindings : Scope → Scope
git_lab_bindings v = record { namespace = v.namespace; tweak_list_options = v.tweak_list_options }

module _ {C O H W I T : Type 0} (lib : Caching C H W I T) (client : Clients C O H W) where
  -- `NewFilteredGitLabBindingInformer`
  unfoldable pub new_filtered_binding_informer :
      (namespace : String) → (resync_period : ℕ) → (indexers : List String) → Option Tweak → I
  new_filtered_binding_informer namespace resync_period indexers tweak =
      lib.new_binding_informer
        (record {
          list_func = λ options. (client.git_lab_bindings namespace).list (tweaked tweak options);
          watch_func =
              λ options. (client.git_lab_bindings namespace).watch_all (tweaked tweak options);
        })
        resync_period indexers

  -- `NewGitLabBindingInformer`
  unfoldable pub new_binding_informer :
      (namespace : String) → (resync_period : ℕ) → (indexers : List String) → I
  unfolding new_filtered_binding_informer
  new_binding_informer namespace resync_period indexers =
      new_filtered_binding_informer namespace resync_period indexers none

  -- `gitLabBindingInformer.defaultInformer`: `cache.NamespaceIndex` is "namespace".
  unfoldable pub default_binding_informer : Scope → (resync_period : ℕ) → I
  unfolding new_filtered_binding_informer
  default_binding_informer f resync_period =
      new_filtered_binding_informer f.namespace resync_period ("namespace" ∷ [])
        f.tweak_list_options

  -- `gitLabBindingInformer.Informer`
  unfoldable pub binding_informer : Scope → Factory I T → I × Factory I T
  unfolding default_binding_informer
  binding_informer f factory =
      informer_for lib.set_transform binding_type (default_binding_informer f) factory

  -- `f.Bindings().V1alpha1().GitLabBindings().Informer()`
  unfoldable pub binding_informer_of : Factory I T → I × Factory I T
  unfolding binding_informer git_lab_bindings bindings_v1alpha1 bindings_group
  binding_informer_of f =
      binding_informer (git_lab_bindings (bindings_v1alpha1 (bindings_group f))) f

  -- `gitLabBindingInformer.Lister`
  unfoldable pub binding_lister :
      {L : Type 0}
      → (get_indexer : I → Indexer (GitLabBinding C) L W) → Scope
      → Factory I T
      → GitLabBindingLister C L W × Factory I T
  unfolding binding_informer new_git_lab_binding_lister
  binding_lister get_indexer f factory =
      let (informer, factory') = binding_informer f factory in
      (new_git_lab_binding_lister (get_indexer informer), factory')
