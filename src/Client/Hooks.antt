-- ===== src/Client/Hooks.antt =====
-- The options of a project hook: the loops over the event types in `webhookClient.Add` and
-- `webhookClient.Edit` of pkg/client/gitlab/webhook_client.go.
pub mod Flags
use eventing_gitlab.Base.{Option, none, some, List, [], ◌∷◌, String, Bool, true, false}
use eventing_gitlab.Base.Dict.{lookup}

-- `gitlab.AddProjectHookOptions` and `gitlab.EditProjectHookOptions`, which have these fields in
-- common. A pointer that is nil leaves the choice to GitLab.
pub record HookOptions : Type 0 where
  pub url : String
  pub enable_ssl_verification : Bool
  pub token : Option String
  pub confidential_issues_events : Option Bool
  pub confidential_note_events : Option Bool
  pub issues_events : Option Bool
  pub job_events : Option Bool
  pub merge_requests_events : Option Bool
  pub note_events : Option Bool
  pub pipeline_events : Option Bool
  pub push_events : Option Bool
  pub tag_push_events : Option Bool
  pub wiki_page_events : Option Bool

-- The cases of the switch on the event type.
pub data Hook : Type 0 where
  confidential_issues confidential_note issues job merge_requests : Hook
  note pipeline push tag_push wiki_page : Hook

abbrev pub hook_cases : List (String × Hook)
hook_cases =
    ("confidential_issues_events", confidential_issues)
    ∷ ("confidential_note_events", confidential_note)
    ∷ ("issues_events", issues)
    ∷ ("job_events", job)
    ∷ ("merge_requests_events", merge_requests)
    ∷ ("note_events", note)
    ∷ ("pipeline_events", pipeline)
    ∷ ("push_events", push)
    ∷ ("tag_push_events", tag_push)
    ∷ ("wiki_page_events", wiki_page)
    ∷ []

pub hook_for : String → Option Hook
hook_for event_type = lookup event_type hook_cases

-- The bodies of the cases: the field that is set to `&enabled`.
pub enable : Hook → HookOptions → HookOptions
enable confidential_issues o = record o { confidential_issues_events = some true }
enable confidential_note o = record o { confidential_note_events = some true }
enable issues o = record o { issues_events = some true }
enable job o = record o { job_events = some true }
enable merge_requests o = record o { merge_requests_events = some true }
enable note o = record o { note_events = some true }
enable pipeline o = record o { pipeline_events = some true }
enable push o = record o { push_events = some true }
enable tag_push o = record o { tag_push_events = some true }
enable wiki_page o = record o { wiki_page_events = some true }

-- One round of the loop.
pub enable_event : String → HookOptions → HookOptions
unfolding hook_for
enable_event event_type o = elim (hook_for event_type) [ none ↦ o | some hook ↦ enable hook o ]

pub enable_events : List String → HookOptions → HookOptions
unfolding enable_event
enable_events [] o = o
enable_events (event_type ∷ event_types) o = enable_events event_types (enable_event event_type o)

-- The options with every flag at one value.
abbrev pub flags_at :
    Option Bool → (url : String) (tls : Bool) (token : Option String) → HookOptions
flags_at flag url tls token = record {
  url = url;
  enable_ssl_verification = tls;
  token = token;
  confidential_issues_events = flag;
  confidential_note_events = flag;
  issues_events = flag;
  job_events = flag;
  merge_requests_events = flag;
  note_events = flag;
  pipeline_events = flag;
  push_events = flag;
  tag_push_events = flag;
  wiki_page_events = flag;
}

-- `Add`: no flag is set before the loop.
pub add_options : List String → (url : String) (tls : Bool) (token : Option String) → HookOptions
unfolding enable_events
add_options event_types url tls token = enable_events event_types (flags_at none url tls token)

-- `Edit`: every flag is `&disabled` before the loop.
pub edit_options : List String → (url : String) (tls : Bool) (token : Option String) → HookOptions
unfolding enable_events
edit_options event_types url tls token =
    enable_events event_types (flags_at (some false) url tls token)
