-- ===== src/Informers/Groups/Sources.antt =====
-- pkg/client/informers/externalversions/sources, with sources/v1alpha1/gitlabsource.go.
use eventing_gitlab.Base.{ℕ, Option, none, List, [], ◌∷◌, String}
use eventing_gitlab.Source.Types.{GitLabSource}
use eventing_gitlab.Informers.Factory.{informer_for}
use eventing_gitlab.Informers.Groups.{
  Tweak, Clients, Caching, tweaked, Factory, Scope, sources_group,
}
use eventing_gitlab.Listers.{Indexer}
use eventing_gitlab.Listers.Sources.{GitLabSourceLister, new_git_lab_source_lister}

-- The informers of either package are kept under the type of their objects.
abbrev pub source_type : String
source_type = "sources/v1alpha1.GitLabSource"

-- `group.V1alpha1`, by `v1alpha1.New`.
unfoldable pub sources_v1alpha1 : Scope → Scope
sources_v1alpha1 g = record { namespace = g.namespace; tweak_list_options = g.tweak_list_options }

-- `version.GitLabSources`
unfoldable pub git_lab_sources : Scope → Scope
git_lab_sources v = record { namespace = v.namespace; tweak_list_options = v.tweak_list_options }

module _ {C O H W I T : Type 0} (lib : Caching C H W I T) (client : Clients C O H W) where
  -- `NewFilteredGitLabSourceInformer`
  unfoldable pub new_filtered_source_informer :
      (namespace : String) → (resync_period : ℕ) → (indexers : List String) → Option Tweak → I
  new_filtered_source_informer namespace resync_period indexers tweak =
      lib.new_source_informer
        (record {
          list_func = λ options. (client.git_lab_sources namespace).list (tweaked tweak options);
          watch_func =
              λ options. (client.git_lab_sources namespace).watch_all (tweaked tweak options);
        })
        resync_period indexers

  -- `NewGitLabSourceInformer`
  unfoldable pub new_source_informer :
      (namespace : String) → (resync_period : ℕ) → (indexers : List String) → I
  unfolding new_filtered_source_informer
  new_source_informer namespace resync_period indexers =
      new_filtered_source_informer namespace resync_period indexers none

  -- `gitLabSourceInformer.defaultInformer`: `cache.NamespaceIndex` is "namespace".
  unfoldable pub default_source_informer : Scope → (resync_period : ℕ) → I
  unfolding new_filtered_source_informer
  default_source_informer f resync_period =
      new_filtered_source_informer f.namespace resync_period ("namespace" ∷ []) f.tweak_list_options

  -- `gitLabSourceInformer.Informer`
  unfoldable pub source_informer : Scope → Factory I T → I × Factory I T
  unfolding default_source_informer
  source_informer f factory =
      informer_for lib.set_transform source_type (default_source_informer f) factory

  -- `f.Sources().V1alpha1().GitLabSources().Informer()`
  unfoldable pub source_informer_of : Factory I T → I × Factory I T
  unfolding source_informer git_lab_sources sources_v1alpha1 sources_group
  source_informer_of f = source_informer (git_lab_sources (sources_v1alpha1 (sources_group f))) f

  -- `gitLabSourceInformer.Lister`
  unfoldable pub source_lister :
      {L : Type 0}
      → (get_indexer : I → Indexer (GitLabSource C) L W) → Scope
      → Factory I T
      → GitLabSourceLister C L W × Factory I T
  unfolding source_informer new_git_lab_source_lister
  source_lister get_indexer f factory =
      let (informer, factory') = source_informer f factory in
      (new_git_lab_source_lister (get_indexer informer), factory')
