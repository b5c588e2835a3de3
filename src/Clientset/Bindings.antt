-- ===== src/Clientset/Bindings.antt =====
-- pkg/client/clientset/versioned/typed/bindings/v1alpha1/gitlabbinding.go
use eventing_gitlab.Base.{none, some, List, [], ◌∷◌, String, true}
use eventing_gitlab.Errors.{Action}
use eventing_gitlab.Binding.Types.{GitLabBinding}
use eventing_gitlab.Clientset.{
  Verb, get, post, put, delete, patch, ListOptions, list_options, other_options, object,
  delete_options, patch_data, Request, RestInterface, timeout_of,
}

-- `GitLabBindingInterface`
pub record GitLabBindingInterface (C O H W : Type 0) : Type 0 where
  pub create : GitLabBinding C → (options : O) → Action W (GitLabBinding C)
  pub update : GitLabBinding C → (options : O) → Action W (GitLabBinding C)
  pub update_status : GitLabBinding C → (options : O) → Action W (GitLabBinding C)
  pub delete_named : (name : String) → (options : O) → Action W (Unit {0})
  pub delete_collection : (options : O) → ListOptions → Action W (Unit {0})
  pub get_named : (name : String) → (options : O) → Action W (GitLabBinding C)
  pub list : ListOptions → Action W (List (GitLabBinding C))
  pub watch_all : ListOptions → Action W H
  pub patch_named :
      (name patch_type bytes : String)
      → (options : O) → (sub_resources : List String) → Action W (GitLabBinding C)

module _ {C O H W : Type 0} (client : RestInterface (GitLabBinding C) O H W) (ns : String) where
  -- A request to the resource in the client's namespace, with nothing else set.
  abbrev pub to_resource : Verb → Request (GitLabBinding C) O
  to_resource verb = record {
    verb = verb;
    namespace = ns;
    resource = "gitlabbindings";
    name = none;
    sub_resources = [];
    params = none;
    timeout = none;
    body = none;
  }

  -- `gitLabBindings`, the methods of the client of one namespace.
  unfoldable pub git_lab_bindings : GitLabBindingInterface C O H W
  unfolding timeout_of
  git_lab_bindings = record {
    get_named = λ name options.
        client.do_into
          (record (to_resource get) { name = some name; params = some (other_options options) });
    list = λ opts. client.do_into_list (record (to_resource get) {
      params = some (list_options opts);
      timeout = some (timeout_of opts);
    });
    watch_all = λ opts. client.do_watch (record (to_resource get) {
      params = some (list_options (record opts { watch = true }));
      timeout = some (timeout_of opts);
    });
    create = λ o opts.
        client.do_into (record (to_resource post) {
          params = some (other_options opts);
          body = some (object o);
        });
    update = λ o opts. client.do_into (record (to_resource put) {
      name = some o.name;
      params = some (other_options opts);
      body = some (object o);
    });
    update_status = λ o opts. client.do_into (record (to_resource put) {
      name = some o.name;
      sub_resources = "status" ∷ [];
      params = some (other_options opts);
      body = some (object o);
    });
    delete_named = λ name opts.
        client.do_error
          (record (to_resource delete) { name = some name; body = some (delete_options opts) });
    delete_collection = λ opts list_opts. client.do_error (record (to_resource delete) {
      params = some (list_options list_opts);
      timeout = some (timeout_of list_opts);
      body = some (delete_options opts);
    });
    patch_named = λ name patch_type bytes opts sub_resources.
        client.do_into (record (to_resource (patch patch_type)) {
          name = some name;
          sub_resources = sub_resources;
          params = some (other_options opts);
          body = some (patch_data bytes);
        });
  }
