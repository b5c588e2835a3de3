-- ===== src/Informers/Groups/Shared.antt =====
-- The informers of a factory are shared, however they are asked for.
use eventing_gitlab.Base.{◌≡◌, refl, ap, ◌∙◌, String}
use eventing_gitlab.Informers.Factory.Steps.{Run}
use eventing_gitlab.Informers.Factory.Keeping.{informer_for-Run}
use eventing_gitlab.Informers.Groups.{Clients, Caching, Factory, sources_group, bindings_group}
use eventing_gitlab.Informers.Groups.Sources.{
  source_type, git_lab_sources, sources_v1alpha1, default_source_informer, source_informer,
  source_informer_of,
}
use eventing_gitlab.Informers.Groups.Bindings.{
  binding_type, git_lab_bindings, bindings_v1alpha1, default_binding_informer, binding_informer,
  binding_informer_of,
}
use eventing_gitlab.Informers.Groups.Generic.{
  GroupVersionResource, sources_resource, bindings_resource, generic, same_resource, for_resource,
}

-- The resources that the factory knows.
pub data Known : Type 0 where
  known_sources known_bindings : Known

abbrev pub resource_of : Known → GroupVersionResource
resource_of known_sources = sources_resource
resource_of known_bindings = bindings_resource

module _ {C O H W I T : Type 0} (lib : Caching C H W I T) (client : Clients C O H W) where
  -- The typed access to the informer of a resource.
  abbrev pub informer_of : Known → Factory I T → I × Factory I T
  informer_of known_sources f = source_informer_of lib client f
  informer_of known_bindings f = binding_informer_of lib client f

  informer_of-Run :
      (k : Known) (f g : Factory I T)
      → Run lib.set_transform (informer_of k f).1 g
      → informer_of k g ≡ ((informer_of k f).0, g)
  unfolding source_informer_of binding_informer_of source_informer binding_informer
  informer_of-Run known_sources f g run =
      informer_for-Run lib.set_transform source_type
        (default_source_informer lib client (git_lab_sources (sources_v1alpha1 (sources_group f))))
        (default_source_informer lib client (git_lab_sources (sources_v1alpha1 (sources_group g))))
        f g run
  informer_of-Run known_bindings f g run =
      informer_for-Run lib.set_transform binding_type
        (default_binding_informer lib client
          (git_lab_bindings (bindings_v1alpha1 (bindings_group f))))
        (default_binding_informer lib client
          (git_lab_bindings (bindings_v1alpha1 (bindings_group g))))
        f g run

  for_resource-resource_of :
      (print : GroupVersionResource → String) (k : Known) (f : Factory I T)
      → for_resource lib client print (resource_of k) f ≡ generic (resource_of k) (informer_of k f)
  unfolding for_resource same_resource
  for_resource-resource_of print known_sources f = refl
  for_resource-resource_of print known_bindings f = refl

  -- `ForResource` gives what the typed access gives. The informer of a resource that was given once,
  -- by either, is given by both ever after, whatever calls come between, and the factory is then
  -- left as it is.
  pub for_resource-shared :
      (print : GroupVersionResource → String) (k : Known) (f g : Factory I T)
      → Run lib.set_transform (informer_of k f).1 g
      → (for_resource lib client print (resource_of k) f
          ≡ generic (resource_of k) (informer_of k f))
        × (informer_of k g ≡ ((informer_of k f).0, g))
        × (for_resource lib client print (resource_of k) g
            ≡ generic (resource_of k) ((informer_of k f).0, g))
  for_resource-shared print k f g run = (
    for_resource-resource_of print k f,
    informer_of-Run k f g run,
    for_resource-resource_of print k g ∙ ap (generic (resource_of k)) (informer_of-Run k f g run),
  )
