-- ===== src/Tests/Injecting.antt =====
-- A context with two selectors, of which the second is asked for.
use eventing_gitlab.Base.{◌≡◌, refl, inl, inr, none, some, List, [], ◌∷◌, String}
use eventing_gitlab.Errors.{ok}
use eventing_gitlab.Informers.Groups.{Clients}
use eventing_gitlab.Informers.Groups.Listing.{clients}
use eventing_gitlab.Injection.{Made, Access, Context}
use eventing_gitlab.Injection.Factories.{with_selectors, with_filtered_factories}
use eventing_gitlab.Injection.Informers.{
  with_filtered_source_informers, get_filtered_source_informer,
}
use eventing_gitlab.Injection.Watching.{scope_for}
use eventing_gitlab.Injection.Selected.{with_selectors-watched}
use eventing_gitlab.Tests.Board.{Board}
use eventing_gitlab.Tests.Wiring.{no_sources, no_bindings, Informer, caching}

abbrev both : Clients Board (Unit {0}) (Unit {0}) (Unit {0})
both = clients no_sources no_bindings

abbrev context : Context Board (Unit {0}) (Unit {0}) (Unit {0})
context = record {
  client = some both;
  namespace_scope = some "default";
  resync_period = 30;
  label_selectors = none;
  factory = none;
  filtered_factories = [];
  source_informer = none;
  binding_informer = none;
  filtered_source_informers = [];
  filtered_binding_informers = [];
}

abbrev teams : List String
teams = "team=a" ∷ "team=b" ∷ []

abbrev Factories : Type 0
Factories = List (Made Board (Unit {0}) (Unit {0}) (Unit {0}) Informer (Unit {0}))

with_selectors-watched_example :
    (ctx' ctx'' : Context Board (Unit {0}) (Unit {0}) (Unit {0})) × (infs : List Informer) × (s'
      s'' : Factories)
    × (a : Access) × (with_filtered_factories (with_selectors teams context) [] ≡ (ok ctx', s'))
    × (with_filtered_source_informers caching ctx' s' ≡ (ok (ctx'', infs), s''))
    × (get_filtered_source_informer "team=b" ctx'' s'' ≡ (ok a, s''))
    × (a.scope ≡ scope_for "default" "team=b")
with_selectors-watched_example =
    with_selectors-watched caching both "team=b" teams context [] refl (inr (inl refl))
