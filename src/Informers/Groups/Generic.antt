-- ===== src/Informers/Groups/Generic.antt =====
-- pkg/client/informers/externalversions/generic.go
use eventing_gitlab.Base.{[], ◌∷◌, String, Bool, ◌&&◌, ◌==◌, if◌then◌else◌}
use eventing_gitlab.Errors.{Result, ok, err, errorf}
use eventing_gitlab.Informers.Groups.{Clients, Caching, Factory}
use eventing_gitlab.Informers.Groups.Sources.{source_informer_of}
use eventing_gitlab.Informers.Groups.Bindings.{binding_informer_of}

-- A `schema.GroupVersionResource`.
pub record GroupVersionResource : Type 0 where
  pub group : String
  pub version : String
  pub resource : String

abbrev pub bindings_resource : GroupVersionResource
bindings_resource = record {
  group = "bindings.knative.dev";
  version = "v1alpha1";
  resource = "gitlabbindings";
}

abbrev pub sources_resource : GroupVersionResource
sources_resource = record {
  group = "sources.knative.dev";
  version = "v1alpha1";
  resource = "gitlabsources";
}

-- `==` on two of them.
unfoldable pub same_resource : GroupVersionResource → GroupVersionResource → Bool
same_resource a b = a.group == b.group && (a.version == b.version && (a.resource == b.resource))

-- `genericInformer`, with the `GroupResource` of its resource.
pub record GenericInformer (I : Type 0) : Type 0 where
  pub informer : I
  pub group : String
  pub resource : String

-- `&genericInformer{…}` of an informer that the factory has given.
abbrev pub generic :
    {I T : Type 0}
    → GroupVersionResource
    → I × Factory I T
    → Result (GenericInformer I) × Factory I T
generic resource (informer, f) =
    (ok (record { informer = informer; group = resource.group; resource = resource.resource }), f)

module _ {C O H W I T : Type 0} (lib : Caching C H W I T) (client : Clients C O H W) where
  -- `ForResource`. The error prints the resource by `%v`, as `print` does.
  unfoldable pub for_resource :
      (print : GroupVersionResource → String)
      → GroupVersionResource
      → Factory I T
      → Result (GenericInformer I) × Factory I T
  unfolding same_resource
  for_resource print resource f =
      if same_resource resource bindings_resource
      then generic resource (binding_informer_of lib client f)
      else if same_resource resource sources_resource
      then generic resource (source_informer_of lib client f)
      else (err (errorf "no informer found for %v" (print resource ∷ [])), f)
