-- ===== src/Fakes/Sources.antt =====
-- pkg/client/clientset/versioned/typed/sources/v1alpha1/fake/fake_gitlabsource.go
use eventing_gitlab.Base.{Option, List, String}
use eventing_gitlab.Errors.{Err, Action}
use eventing_gitlab.Source.Types.{GitLabSource}
use eventing_gitlab.Clientset.{ListOptions}
use eventing_gitlab.Fakes.{
  new_get_action, new_list_action, new_watch_action, new_create_action, new_update_action,
  new_update_subresource_action, new_delete_action_with_options, new_delete_collection_action,
  new_patch_subresource_action, Listed, empty_object, empty_list, Pair, Fake, as_one, as_list,
  label_or, error_of,
}

-- `gitlabsourcesResource` and `gitlabsourcesKind`
abbrev pub gitlabsources_resource : String
gitlabsources_resource = "gitlabsources"

abbrev pub gitlabsources_kind : String
gitlabsources_kind = "GitLabSource"

module _ {C O H L W : Type 0} (c : Fake (GitLabSource C) O H L W) (ns : String) where
  -- The methods of `FakeGitLabSources`.
  unfoldable pub fake_get : (name : String) → (options : O) → Action W (Pair (GitLabSource C))
  fake_get name options w =
      as_one (c.invokes (new_get_action gitlabsources_resource ns name) empty_object w)

  unfoldable pub fake_list : ListOptions → Action W (Pair (Listed (GitLabSource C)))
  fake_list opts w =
      as_list (c.matches (label_or c.everything (c.extract opts)))
        (c.invokes (new_list_action gitlabsources_resource gitlabsources_kind ns opts) empty_list w)

  unfoldable pub fake_watch : ListOptions → Action W H
  fake_watch opts = c.invokes_watch (new_watch_action gitlabsources_resource ns opts)

  unfoldable pub fake_create : GitLabSource C → (options : O) → Action W (Pair (GitLabSource C))
  fake_create o opts w =
      as_one (c.invokes (new_create_action gitlabsources_resource ns o) empty_object w)

  unfoldable pub fake_update : GitLabSource C → (options : O) → Action W (Pair (GitLabSource C))
  fake_update o opts w =
      as_one (c.invokes (new_update_action gitlabsources_resource ns o) empty_object w)

  unfoldable pub fake_update_status :
      GitLabSource C → (options : O) → Action W (Pair (GitLabSource C))
  fake_update_status o opts w = as_one (
      c.invokes (new_update_subresource_action gitlabsources_resource "status" ns o) empty_object w)

  unfoldable pub fake_delete : (name : String) → (options : O) → W → Option Err × W
  fake_delete name opts w = error_of (
      c.invokes (new_delete_action_with_options gitlabsources_resource ns name opts) empty_object w)

  unfoldable pub fake_delete_collection : (options : O) → ListOptions → W → Option Err × W
  fake_delete_collection opts list_opts w =
      error_of
        (c.invokes (new_delete_collection_action gitlabsources_resource ns list_opts) empty_list w)

  unfoldable pub fake_patch :
      (name patch_type bytes : String)
      → (options : O) → (sub_resources : List String) → Action W (Pair (GitLabSource C))
  fake_patch name patch_type bytes opts sub_resources w = as_one (
      c.invokes
        (new_patch_subresource_action gitlabsources_resource ns name patch_type bytes sub_resources)
        empty_object w)
