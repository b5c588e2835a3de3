-- ===== src/Client/Hooks/Flags.antt =====
-- Which hooks the options enable.
use eventing_gitlab.Base.{
  ◌≡◌, ◌≢◌, ◌⊎◌, inl, inr, refl, ◌∙◌, Option, none, some, List, [], ◌∷◌, String, Bool, true, false,
  arith, eq_iff, ◌==◌, if◌then◌else◌, Option-cases, Bool-cases, ap, ◌||◌,
}
use eventing_gitlab.Base.Dict.{lookup, lookup-All}
use eventing_gitlab.Client.Hooks.{
  HookOptions, Hook, confidential_issues, confidential_note, issues, job, merge_requests, note,
  pipeline, push, tag_push, wiki_page, hook_cases, hook_for, enable, enable_event, enable_events,
  flags_at, add_options, edit_options,
}

-- The name of a hook, as a GitLabSource spells it.
abbrev pub name_of : Hook → String
name_of confidential_issues = "confidential_issues_events"
name_of confidential_note = "confidential_note_events"
name_of issues = "issues_events"
name_of job = "job_events"
name_of merge_requests = "merge_requests_events"
name_of note = "note_events"
name_of pipeline = "pipeline_events"
name_of push = "push_events"
name_of tag_push = "tag_push_events"
name_of wiki_page = "wiki_page_events"

abbrev pub flag : Hook → HookOptions → Option Bool
flag confidential_issues o = o.confidential_issues_events
flag confidential_note o = o.confidential_note_events
flag issues o = o.issues_events
flag job o = o.job_events
flag merge_requests o = o.merge_requests_events
flag note o = o.note_events
flag pipeline o = o.pipeline_events
flag push o = o.push_events
flag tag_push o = o.tag_push_events
flag wiki_page o = o.wiki_page_events

flag-enable_self : (h : Hook) (o : HookOptions) → flag h (enable h o) ≡ some true
unfolding enable
flag-enable_self push o = refl
flag-enable_self _ o = refl

flag-enable_ne : (h j : Hook) (o : HookOptions) → j ≢ h → flag h (enable j o) ≡ flag h o
unfolding enable
flag-enable_ne h j o ne = ground arith

hook_for-name_of : (h : Hook) → hook_for (name_of h) ≡ some h
unfolding hook_for lookup
hook_for-name_of push = refl
hook_for-name_of _ = refl

name_of-hook_for : (s : String) (h : Hook) → hook_for s ≡ some h → s ≡ name_of h
unfolding hook_for
name_of-hook_for s h e =
    lookup-All (λ entry. entry.0 ≡ name_of entry.1) s h hook_cases e
      (refl, (refl, (refl, (refl, (refl, (refl, (refl, (refl, (refl, (refl, tt))))))))))

-- One round of the loop sets the flag of the hook with that name, and no other.
flag-enable_event :
    (h : Hook) (s : String) (o : HookOptions)
    → flag h (enable_event s o) ≡ (if s == name_of h then some true else flag h o)
unfolding enable_event
flag-enable_event h s o = elim (Option-cases (hook_for s)) [
  | inl unknown ↦ elim (Bool-cases (s == name_of h)) [
    | inl same ↦ cc (hook_for-name_of h, unknown, ap hook_for ((eq_iff s (name_of h)).0 same))
    | inr other ↦ rw (unknown, enable_event, other)
  ]
  | inr (j, known) ↦ elim (Bool-cases (s == name_of h)) [
    | inl same ↦
        let found : hook_for s ≡ some h =
          ap hook_for ((eq_iff s (name_of h)).0 same) ∙ hook_for-name_of h in
        rw (found, enable_event, same) (flag-enable_self h o)
    | inr other ↦
        rw (known, enable_event, other)
          (flag-enable_ne h j o
            (λ e. cc (other, (eq_iff s (name_of h)).1 (name_of-hook_for s j known ∙ ap name_of e))))
  ]
]

-- A text is in a list.
abbrev pub contains : String → List String → Bool
contains s [] = false
contains s (t ∷ ts) = t == s || contains s ts

flag-enable_events :
    (h : Hook) (event_types : List String) (o : HookOptions)
    → flag h (enable_events event_types o)
      ≡ (if contains (name_of h) event_types then some true else flag h o)
unfolding enable_events
flag-enable_events h [] o = refl
flag-enable_events h (s ∷ event_types) o =
    ground (arith, flag-enable_events h event_types (enable_event s o), flag-enable_event h s o)

-- A hook that is added has exactly the listed flags set, and leaves the others to GitLab; a hook
-- that is edited has exactly the listed flags set, and the others cleared.
pub flag_options :
    (h : Hook) (event_types : List String) (url : String) (tls : Bool) (token : Option String)
    → (flag h (add_options event_types url tls token)
        ≡ (if contains (name_of h) event_types then some true else none))
      × (flag h (edit_options event_types url tls token)
          ≡ (if contains (name_of h) event_types then some true else some false))
unfolding add_options edit_options
flag_options h event_types url tls token = (
  ground (arith, flag-enable_events h event_types (flags_at none url tls token), flag_at h none),
  ground (
    arith,
    flag-enable_events h event_types (flags_at (some false) url tls token),
    flag_at h (some false),
  ),
)
  where
    flag_at : (h : Hook) (b : Option Bool) → flag h (flags_at b url tls token) ≡ b
    flag_at push b = refl
    flag_at _ b = refl

abbrev pub Offered : String → Type 0
Offered s = (hook_for s ≢ none) ⊎ (s ≡ "deployment_events")
