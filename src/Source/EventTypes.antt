-- ===== src/Source/EventTypes.antt =====
-- The types of events that a GitLabSource declares: pkg/apis/sources/v1alpha1/gitlabsource_lifecyle.go.
pub mod Sorting
pub mod Laws
use Prim.Native.String
use eventing_gitlab.Base.{
  none, some, List, [], ◌∷◌, map, String, Bool, false, ◌||◌, ◌==◌, if◌then◌else◌,
}
use eventing_gitlab.Base.Dict.{lookup}
use eventing_gitlab.Base.Texts.{leb_text}
use eventing_gitlab.Source.Types.{GitLabSource}

abbrev pub event_prefix_gitlab : String
event_prefix_gitlab = "dev.knative.sources.gitlab."

-- `GitLabEventType`
unfoldable pub gitlab_event_type : String → String
gitlab_event_type event_type = String.◌++◌ event_prefix_gitlab event_type

-- `eventTypesByWebhook`
abbrev pub event_types_by_webhook : List (String × String)
event_types_by_webhook =
    ("confidential_issues_events", "issue")
    ∷ ("confidential_note_events", "note")
    ∷ ("deployment_events", "deployment")
    ∷ ("issues_events", "issue")
    ∷ ("job_events", "build")
    ∷ ("merge_requests_events", "merge_request")
    ∷ ("note_events", "note")
    ∷ ("pipeline_events", "pipeline")
    ∷ ("push_events", "push")
    ∷ ("tag_push_events", "tag_push")
    ∷ ("wiki_page_events", "wiki_page")
    ∷ []

-- `eventTypeForWebhook`: the zero value "" for a name that is no key of the map.
unfoldable pub event_type_for_webhook : String → String
event_type_for_webhook name = elim (lookup name event_types_by_webhook) [
  | none ↦ ""
  | some event_type ↦ event_type
]

-- Whether a map with these keys has the key.
unfoldable pub has_key : String → List String → Bool
has_key k [] = false
has_key k (j ∷ m) = k == j || has_key k m

-- The loop over `s.Spec.EventTypes`: the keys of `uniqueTypes`, oldest last.
pub unique_types : List String → List String → List String
unfolding has_key
unique_types seen [] = seen
unique_types seen (hook ∷ hooks) =
    let typ = event_type_for_webhook hook in
    unique_types (if has_key typ seen then seen else typ ∷ seen) hooks

pub insert_sorted : String → List String → List String
insert_sorted x [] = x ∷ []
insert_sorted x (y ∷ ys) = if leb_text x y then x ∷ y ∷ ys else y ∷ insert_sorted x ys

-- `sort.Strings`
unfoldable pub sort_strings : List String → List String
unfolding insert_sorted
sort_strings [] = []
sort_strings (x ∷ xs) = insert_sorted x (sort_strings xs)

-- `EventTypes`. Go ranges over a map in an order that may differ at each run: `order` is the one
-- of this run, a permutation of the keys.
unfoldable pub event_types :
    {C : Type 0} → (order : List String → List String) → GitLabSource C → List String
unfolding unique_types sort_strings
event_types order s =
    sort_strings (map gitlab_event_type (order (unique_types [] s.spec.event_types)))

-- `AsEventSource`
unfoldable pub as_event_source : {C : Type 0} → GitLabSource C → String
as_event_source s = s.spec.project_url
