-- ===== src/Listers/Bindings.antt =====
-- pkg/client/listers/bindings/v1alpha1/gitlabbinding.go
use eventing_gitlab.Base.{List, String}
use eventing_gitlab.Errors.{Action}
use eventing_gitlab.Binding.Types.{GitLabBinding}
use eventing_gitlab.Listers.{Indexer, key_of, collected, found}

-- `GitLabBindingNamespaceLister`
pub record GitLabBindingNamespaceLister (C L W : Type 0) : Type 0 where
  pub list : L → Action W (List (GitLabBinding C))
  pub get : (name : String) → Action W (GitLabBinding C)

-- `GitLabBindingLister`
pub record GitLabBindingLister (C L W : Type 0) : Type 0 where
  pub list : L → Action W (List (GitLabBinding C))
  pub git_lab_bindings : (namespace : String) → GitLabBindingNamespaceLister C L W

module _ {C L W : Type 0} (indexer : Indexer (GitLabBinding C) L W) where
  -- `gitLabBindingNamespaceLister`
  unfoldable pub git_lab_binding_namespace_lister :
      (namespace : String) → GitLabBindingNamespaceLister C L W
  unfolding collected found
  git_lab_binding_namespace_lister namespace = record {
    list = λ selector. collected (indexer.list_all_by_namespace namespace selector);
    get = λ name w.
        let (answer, w') = indexer.get_by_key (key_of namespace name) w in
        (found indexer "gitlabbinding" name answer, w');
  }

  -- `gitLabBindingLister`, which `NewGitLabBindingLister` makes.
  unfoldable pub new_git_lab_binding_lister : GitLabBindingLister C L W
  unfolding git_lab_binding_namespace_lister collected
  new_git_lab_binding_lister = record {
    list = λ selector. collected (indexer.list_all selector);
    git_lab_bindings = git_lab_binding_namespace_lister;
  }
