-- ===== src/Listers/Sources.antt =====
-- pkg/client/listers/sources/v1alpha1/gitlabsource.go
use eventing_gitlab.Base.{List, String}
use eventing_gitlab.Errors.{Action}
use eventing_gitlab.Source.Types.{GitLabSource}
use eventing_gitlab.Listers.{Indexer, key_of, collected, found}

-- `GitLabSourceNamespaceLister`
pub record GitLabSourceNamespaceLister (C L W : Type 0) : Type 0 where
  pub list : L → Action W (List (GitLabSource C))
  pub get : (name : String) → Action W (GitLabSource C)

-- `GitLabSourceLister`
pub record GitLabSourceLister (C L W : Type 0) : Type 0 where
  pub list : L → Action W (List (GitLabSource C))
  pub git_lab_sources : (namespace : String) → GitLabSourceNamespaceLister C L W

module _ {C L W : Type 0} (indexer : Indexer (GitLabSource C) L W) where
  -- `gitLabSourceNamespaceLister`
  unfoldable pub git_lab_source_namespace_lister :
      (namespace : String) → GitLabSourceNamespaceLister C L W
  unfolding collected found
  git_lab_source_namespace_lister namespace = record {
    list = λ selector. collected (indexer.list_all_by_namespace namespace selector);
    get = λ name w.
        let (answer, w') = indexer.get_by_key (key_of namespace name) w in
        (found indexer "gitlabsource" name answer, w');
  }

  -- `gitLabSourceLister`, which `NewGitLabSourceLister` makes.
  unfoldable pub new_git_lab_source_lister : GitLabSourceLister C L W
  unfolding git_lab_source_namespace_lister collected
  new_git_lab_source_lister = record {
    list = λ selector. collected (indexer.list_all selector);
    git_lab_sources = git_lab_source_namespace_lister;
  }
