-- ===== src/Fakes/Bindings.antt =====
-- pkg/client/clientset/versioned/typed/bindings/v1alpha1/fake/fake_gitlabbinding.go
use eventing_gitlab.Base.{Option, List, String}
use eventing_gitlab.Errors.{Err, Action}
use eventing_gitlab.Binding.Types.{GitLabBinding}
use eventing_gitlab.Clientset.{ListOptions}
use eventing_gitlab.Fakes.{
  new_get_action, new_list_action, new_watch_action, new_create_action, new_update_action,
  new_update_subresource_action, new_delete_action_with_options, new_delete_collection_action,
  new_patch_subresource_action, Listed, empty_object, empty_list, Pair, Fake, as_one, as_list,
  label_or, error_of,
}

-- `gitlabbindingsResource` and `gitlabbindingsKind`
abbrev pub gitlabbindings_resource : String
gitlabbindings_resource = "gitlabbindings"

abbrev pub gitlabbindings_kind : String
gitlabbindings_kind = "GitLabBinding"

module _ {C O H L W : Type 0} (c : Fake (GitLabBinding C) O H L W) (ns : String) where
  -- The methods of `FakeGitLabBindings`.
  unfoldable pub fake_get : (name : String) → (options : O) → Action W (Pair (GitLabBinding C))
  fake_get name options w =
      as_one (c.invokes (new_get_action gitlabbindings_resource ns name) empty_object w)

  unfoldable pub fake_list : ListOptions → Action W (Pair (Listed (GitLabBinding C)))
  fake_list opts w =
      as_list (c.matches (label_or c.everything (c.extract opts))) (
        c.invokes (new_list_action gitlabbindings_resource gitlabbindings_kind ns opts) empty_list
          w)

  unfoldable pub fake_watch : ListOptions → Action W H
  fake_watch opts = c.invokes_watch (new_watch_action gitlabbindings_resource ns opts)

  unfoldable pub fake_create : GitLabBinding C → (options : O) → Action W (Pair (GitLabBinding C))
  fake_create o opts w =
      as_one (c.invokes (new_create_action gitlabbindings_resource ns o) empty_object w)

  unfoldable pub fake_update : GitLabBinding C → (options : O) → Action W (Pair (GitLabBinding C))
  fake_update o opts w =
      as_one (c.invokes (new_update_action gitlabbindings_resource ns o) empty_object w)

  unfoldable pub fake_update_status :
      GitLabBinding C → (options : O) → Action W (Pair (GitLabBinding C))
  fake_update_status o opts w = as_one (
      c.invokes (new_update_subresource_action gitlabbindings_resource "status" ns o) empty_object
        w)

  unfoldable pub fake_delete : (name : String) → (options : O) → W → Option Err × W
  fake_delete name opts w = error_of (
      c.invokes (new_delete_action_with_options gitlabbindings_resource ns name opts) empty_object
        w)

  unfoldable pub fake_delete_collection : (options : O) → ListOptions → W → Option Err × W
  fake_delete_collection opts list_opts w =
      error_of
        (c.invokes (new_delete_collection_action gitlabbindings_resource ns list_opts) empty_list w)

  unfoldable pub fake_patch :
      (name patch_type bytes : String)
      → (options : O) → (sub_resources : List String) → Action W (Pair (GitLabBinding C))
  fake_patch name patch_type bytes opts sub_resources w = as_one (
      c.invokes
        (new_patch_subresource_action gitlabbindings_resource ns name patch_type bytes
          sub_resources)
        empty_object w)
