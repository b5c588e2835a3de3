-- ===== src/Adapter/Events/Declared.antt =====
-- The types of the events that the adapter emits, against those that the status of a GitLabSource
-- declares for the same webhooks.
use Prim.Native.Char.{Char}
use mathlib.Core.Bool.{false≢true}
use eventing_gitlab.Base.{◌≡◌, ◌≢◌, ◌↔◌, refl, String, eq_iff}
use eventing_gitlab.Base.Dict.{lookup}
use eventing_gitlab.Source.EventTypes.{event_type_for_webhook}
use eventing_gitlab.Client.Hooks.{
  Hook, confidential_issues, confidential_note, issues, job, merge_requests, note, pipeline, push,
  tag_push, wiki_page,
}
use eventing_gitlab.Client.Hooks.Flags.{name_of}
use eventing_gitlab.Adapter.Header.{gitlab_event_header_to_event_type}

-- The `X-Gitlab-Event` header that GitLab sends for a hook, as its documentation and the constants
-- of its Go client have it.
abbrev pub header_of : Hook → String
header_of confidential_issues = "Confidential Issue Hook"
header_of confidential_note = "Confidential Note Hook"
header_of issues = "Issue Hook"
header_of job = "Job Hook"
header_of merge_requests = "Merge Request Hook"
header_of note = "Note Hook"
header_of pipeline = "Pipeline Hook"
header_of push = "Push Hook"
header_of tag_push = "Tag Push Hook"
header_of wiki_page = "Wiki Page Hook"

abbrev pub IsAligned : Hook → Type 0
IsAligned h = (h ≢ job) × (h ≢ confidential_issues) × (h ≢ confidential_note)

module _ (unicode_lower : Char → Char) where
  -- The type of the events that are emitted for a hook is the type that the source declares for
  -- it, except for jobs, confidential issues and confidential notes, where the two differ.
  pub emitted_iff :
      (h : Hook)
      → (gitlab_event_header_to_event_type unicode_lower (header_of h)
          ≡ event_type_for_webhook (name_of h))
        ↔ IsAligned h
  unfolding gitlab_event_header_to_event_type event_type_for_webhook lookup
  emitted_iff confidential_issues = (
    (λ e. absurd (false≢true ((eq_iff "confidential_issue" "issue").1 e))),
    λ a. absurd (a.1 refl),
  )
  emitted_iff confidential_note =
      ((λ e. absurd (false≢true ((eq_iff "confidential_note" "note").1 e))), λ a. absurd (a.2 refl))
  emitted_iff job =
      ((λ e. absurd (false≢true ((eq_iff "job" "build").1 e))), λ a. absurd (a.0 refl))
  emitted_iff push = ((λ e. ((λ k. cc), (λ k. cc), λ k. cc)), λ a. refl)
  emitted_iff _ = ((λ e. ((λ k. cc), (λ k. cc), λ k. cc)), λ a. refl)
