-- ===== src/Clientset/Sources.antt =====
-- pkg/client/clientset/versioned/typed/sources/v1alpha1/gitlabsource.go
use eventing_gitlab.Base.{none, some, List, [], ◌∷◌, String, true}
use eventing_gitlab.Errors.{Action}
use eventing_gitlab.Source.Types.{GitLabSource}
use eventing_gitlab.Clientset.{
  Verb, get, post, put, delete, patch, ListOptions, list_options, other_options, object,
  delete_options, patch_data, Request, RestInterface, timeout_of,
}

-- `GitLabSourceInterface`
pub record GitLabSourceInterface (C O H W : Type 0) : Type 0 where
  pub create : GitLabSource C → (options : O) → Action W (GitLabSource C)
  pub update : GitLabSource C → (options : O) → Action W (GitLabSource C)
  pub update_status : GitLabSource C → (options : O) → Action W (GitLabSource C)
  pub delete_named : (name : String) → (options : O) → Action W (Unit {0})
  pub delete_collection : (options : O) → ListOptions → Action W (Unit {0})
  pub get_named : (name : String) → (options : O) → Action W (GitLabSource C)
  pub list : ListOptions → Action W (List (GitLabSource C))
  pub watch_all : ListOptions → Action W H
  pub patch_named :
      (name patch_type bytes : String)
      → (options : O) → (sub_resources : List String) → Action W (GitLabSource C)

module _ {C O H W : Type 0} (client : RestInterface (GitLabSource C) O H W) (ns : String) where
  -- A request to the resource in the client's namespace, with nothing else set.
  abbrev pub to_resource : Verb → Request (GitLabSource C) O
  to_resource verb = record {
    verb = verb;
    namespace = ns;
    resource = "gitlabsources";
    name = none;
    sub_resources = [];
    params = none;
    timeout = none;
    body = none;
  }

  -- `gitLabSources`, the methods of the client of one namespace.
  unfoldable pub git_lab_sources : GitLabSourceInterface C O H W
  unfolding timeout_of
  git_lab_sources = record {
    get_named = λ name options.
        client.do_into
          (record (to_resource get) { name = some name; params = some (other_options options) });
    list = λ opts. client.do_into_list (record (to_resource get) {
      params = some (list_options opts);
      timeout = some (timeout_of opts);
    });
    watch_all = λ opts. client.do_watch (record (to_resource get) {
      params = some (list_options (record opts { watch = true }));
      timeout = some (timeout_of opts);
    });
    create = λ o opts.
        client.do_into (record (to_resource post) {
          params = some (other_options opts);
          body = some (object o);
        });
    update = λ o opts. client.do_into (record (to_resource put) {
      name = some o.metadata.name;
      params = some (other_options opts);
      body = some (object o);
    });
    update_status = λ o opts. client.do_into (record (to_resource put) {
      name = some o.metadata.name;
      sub_resources = "status" ∷ [];
      params = some (other_options opts);
      body = some (object o);
    });
    delete_named = λ name opts.
        client.do_error
          (record (to_resource delete) { name = some name; body = some (delete_options opts) });
    delete_collection = λ opts list_opts. client.do_error (record (to_resource delete) {
      params = some (list_options list_opts);
      timeout = some (timeout_of list_opts);
      body = some (delete_options opts);
    });
    patch_named = λ name patch_type bytes opts sub_resources.
        client.do_into (record (to_resource (patch patch_type)) {
          name = some name;
          sub_resources = sub_resources;
          params = some (other_options opts);
          body = some (patch_data bytes);
        });
  }
