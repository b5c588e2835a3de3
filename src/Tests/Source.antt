-- ===== src/Tests/Source.antt =====
-- The event types of a source that lists a webhook twice.
use eventing_gitlab.Base.{◌≡◌, ◌↔◌, refl, none, List, [], ◌∷◌, map, String, In, Distinct}
use eventing_gitlab.Base.Dict.{lookup}
use eventing_gitlab.Base.Texts.{leb_text}
use eventing_gitlab.Source.EventTypes.{gitlab_event_type, event_type_for_webhook, event_types}
use eventing_gitlab.Source.EventTypes.Sorting.{IsSorted}
use eventing_gitlab.Source.EventTypes.Laws.{IsIteration, event_types-IsSorted}
use eventing_gitlab.Tests.Cluster.{source_with}

abbrev in_order : List String → List String
in_order keys = keys

in_order-IsIteration : IsIteration in_order
in_order-IsIteration = record { visits = λ a keys. ((λ h. h), λ h. h); once = λ keys h. h }

event_types-IsSorted_example :
    IsSorted (event_types in_order (source_with none))
    × Distinct (event_types in_order (source_with none))
    × ((t : String)
        → In t (event_types in_order (source_with none))
          ↔ In t (
              map
                (λ hook. gitlab_event_type (event_type_for_webhook hook))
                ("push_events" ∷ "issues_events" ∷ "push_events" ∷ [])))
event_types-IsSorted_example = event_types-IsSorted in_order in_order-IsIteration (source_with none)

event_types_listed :
    event_types in_order (source_with none)
    ≡ "dev.knative.sources.gitlab.issue" ∷ "dev.knative.sources.gitlab.push" ∷ []
unfolding event_types gitlab_event_type event_type_for_webhook lookup leb_text
event_types_listed = refl
