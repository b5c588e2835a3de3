-- ===== src/Tests/Wiring.antt =====
-- Informers of both resources from one factory, and the calls of the clients.
use eventing_gitlab.Base.{ℕ, ◌≡◌, refl, none, List, [], ◌∷◌, String}
use eventing_gitlab.Base.Dict.{lookup}
use eventing_gitlab.Errors.{panic, ok}
use eventing_gitlab.Source.Types.{GitLabSource}
use eventing_gitlab.Binding.Types.{GitLabBinding}
use eventing_gitlab.Clientset.{RestInterface}
use eventing_gitlab.Informers.Factory.{
  resync_period, new_filtered_shared_informer_factory, new_shared_informer_factory_with_options,
  apply_all, with_namespace, with_tweak_list_options, shutdown,
}
use eventing_gitlab.Informers.Factory.Steps.{shut_down, done, next}
use eventing_gitlab.Informers.Groups.{ListWatch, Caching, Factory}
use eventing_gitlab.Informers.Groups.Sources.{source_type, source_informer_of}
use eventing_gitlab.Informers.Groups.Generic.{
  GroupVersionResource, generic, for_resource, sources_resource,
}
use eventing_gitlab.Informers.Groups.Shared.{known_sources, informer_of, for_resource-shared}
use eventing_gitlab.Informers.Groups.Listing.{clients, requests, new_factory-requests}
use eventing_gitlab.Fakes.Reading.{Call, patch_named}
use eventing_gitlab.Tests.Board.{Board}
use eventing_gitlab.Tests.Instance.{demo}

-- REST clients without answers, over a state that is nothing.
abbrev pub no_sources : RestInterface (GitLabSource Board) (Unit {0}) (Unit {0}) (Unit {0})
no_sources = record {
  do_into = λ q w. (ok demo, w);
  do_into_list = λ q w. (ok (demo ∷ []), w);
  do_error = λ q w. (ok tt, w);
  do_watch = λ q w. (ok tt, w);
}

abbrev pub no_bindings : RestInterface (GitLabBinding Board) (Unit {0}) (Unit {0}) (Unit {0})
no_bindings = record {
  do_into = λ q w. (panic, w);
  do_into_list = λ q w. (ok [], w);
  do_error = λ q w. (ok tt, w);
  do_watch = λ q w. (ok tt, w);
}

-- An informer is what it lists and watches.
pub data Informer : Type 0 where
  of_sources : ListWatch (GitLabSource Board) (Unit {0}) (Unit {0}) → ℕ → List String → Informer
  of_bindings : ListWatch (GitLabBinding Board) (Unit {0}) (Unit {0}) → ℕ → List String → Informer

abbrev pub caching : Caching Board (Unit {0}) (Unit {0}) Informer (Unit {0})
caching = record {
  new_source_informer = of_sources;
  new_binding_informer = of_bindings;
  set_transform = λ transform i. i;
}

abbrev fresh : Factory Informer (Unit {0})
fresh = new_filtered_shared_informer_factory 30 "default" none

-- The factory behind the first access to the informer of the sources.
abbrev used : Factory Informer (Unit {0})
used = (informer_of caching (clients no_sources no_bindings) known_sources fresh).1

abbrev print : GroupVersionResource → String
print r = r.resource

for_resource-shared_example :
    (for_resource caching (clients no_sources no_bindings) print sources_resource fresh
      ≡ generic sources_resource
          (informer_of caching (clients no_sources no_bindings) known_sources fresh))
    × (informer_of caching (clients no_sources no_bindings) known_sources (shutdown used) ≡ (
      (informer_of caching (clients no_sources no_bindings) known_sources fresh).0,
      shutdown used,
    ))
    × (for_resource caching (clients no_sources no_bindings) print sources_resource (shutdown used)
        ≡ generic sources_resource (
          (informer_of caching (clients no_sources no_bindings) known_sources fresh).0,
          shutdown used,
        ))
for_resource-shared_example =
    for_resource-shared caching (clients no_sources no_bindings) print known_sources fresh
      (shutdown used)
      (next used (shutdown used) (shutdown used) (shut_down used) (done (shutdown used)))

unasked : lookup source_type fresh.informers ≡ none
unfolding new_filtered_shared_informer_factory new_shared_informer_factory_with_options apply_all
    with_namespace with_tweak_list_options lookup
unasked = refl

new_factory-requests_example :
    (source_informer_of caching (clients no_sources no_bindings) fresh).0
    ≡ of_sources
        (requests no_sources no_bindings "default" none)
        (resync_period source_type fresh)
        ("namespace" ∷ [])
new_factory-requests_example =
    new_factory-requests no_sources no_bindings caching 30 "default" none fresh (done fresh) unasked

-- A patch of the finalizers of a source.
abbrev patching : Call (GitLabSource Board) (Unit {0})
patching = patch_named "demo" "application/merge-patch+json" "{}" tt []
