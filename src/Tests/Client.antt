-- ===== src/Tests/Client.antt =====
-- The client of a project, its hooks, and the Secrets of a namespace.
use Prim.Native.Char.{Char}
use Prim.Native.String
use text.Mathlib.TextLemmas.{cons≢nil}
use eventing_gitlab.Base.{
  ℕ, ◌≡◌, ◌≢◌, ◌↔◌, inl, inr, refl, Option, none, some, List, [], ◌∷◌, String, arith, ap, ◌==◌,
  if◌then◌else◌, Distinct, Bool-cases,
}
use eventing_gitlab.Errors.{Err, foreign, as_response, Result, ok, err, panic}
use eventing_gitlab.Errors.Guarded.{Guarded}
use eventing_gitlab.Source.Types.{SecretKeySelector}
use eventing_gitlab.Secret
use eventing_gitlab.Secret.{SecretData, SecretInterface}
use eventing_gitlab.Secret.Laws.{read_each, get-read_each}
use eventing_gitlab.Secret.Calls.{logged, get-Distinct}
use eventing_gitlab.Client.ProjectUrl.{split_gitlab_project_url}
use eventing_gitlab.Client.ProjectUrl.Laws.{
  IsBase, split_gitlab_project_url_iff, split_gitlab_project_url-eq-panic_iff,
}
use eventing_gitlab.Client.Webhooks.{GitLabApi}

abbrev secret_data : SecretData
secret_data = ("accessToken", "a1") ∷ ("secretToken", "s3") ∷ []

abbrev look : String → Result SecretData
look name = if name == "gitlabsecret" then ok secret_data else err (foreign 404)

-- A namespace with one Secret object.
abbrev secrets : SecretInterface ℕ
secrets name s = (look name, s)

abbrev refs : List (Option SecretKeySelector)
refs =
    some (record { name = "gitlabsecret"; key = "accessToken" })
    ∷ none
    ∷ some (record { name = "gitlabsecret"; key = "secretToken" })
    ∷ []

get-read_each_example : (Secret.get secrets refs 0).0 ≡ read_each look refs
get-read_each_example = get-read_each secrets look (λ name s. refl) refs 0

abbrev values : List String
values = "a1" ∷ "" ∷ "s3" ∷ []

get_values : (Secret.get secrets refs 0).0 ≡ ok values
unfolding Secret.secret_value
get_values = get-read_each secrets look (λ name s. refl) refs 0

get-Distinct_example : Distinct (Secret.get (logged secrets) refs (0, [])).1.1
get-Distinct_example = get-Distinct secrets refs 0

-- The path of two URLs of one host.
abbrev parse : String → Result String
parse text =
    if text == "https://gitlab.example.com/group/project"
    then ok "/group/project"
    else if text == "https://gitlab.example.com"
    then ok ""
    else err (foreign 1)

abbrev url : String
url = "https://gitlab.example.com/group/project"

split_gitlab_project_url_iff_example :
    (split_gitlab_project_url parse url ≡ ok ("https://gitlab.example.com/", "group/project")) ↔ (
      (slash : Char) × (parse url ≡ ok (Prim.Native.String.◌∷◌ slash "group/project"))
      × IsBase url "https://gitlab.example.com/" "group/project")
split_gitlab_project_url_iff_example =
    split_gitlab_project_url_iff parse "https://gitlab.example.com/group/project"
      "https://gitlab.example.com/" "group/project"

parse_returns : parse "https://gitlab.example.com" ≢ panic
parse_returns e = absurd (ground arith)

split_gitlab_project_url-eq-panic_iff_example :
    (split_gitlab_project_url parse "https://gitlab.example.com" ≡ panic)
    ↔ (parse "https://gitlab.example.com" ≡ ok "")
split_gitlab_project_url-eq-panic_iff_example =
    split_gitlab_project_url-eq-panic_iff parse "https://gitlab.example.com" parse_returns

abbrev api : GitLabApi String ℕ
api = record {
  new_client = λ api_token base_url. ok base_url;
  get_project_hook = λ cli project hook_id s. (ok hook_id, s);
  add_project_hook = λ cli project options s. (ok 7, s);
  edit_project_hook = λ cli project hook_id options s. (ok tt, s);
  delete_project_hook = λ cli project hook_id s. (ok tt, s);
}

-- No answer of GitLab.
abbrev IsLocal : Err → Type 0
IsLocal e = as_response e ≡ none

parse-IsLocal : (text : String) → Guarded IsLocal (parse text)
unfolding as_response
parse-IsLocal text = elim (Bool-cases (text == "https://gitlab.example.com/group/project")) [
  | inl same ↦ rw (same, Guarded) tt
  | inr other ↦ elim (Bool-cases (text == "https://gitlab.example.com")) [
    | inl same ↦ rw (other, Guarded) (rw (same, Guarded) tt)
    | inr another ↦ rw (other, Guarded) (rw (another, Guarded) refl)
  ]
]

secrets-IsLocal : (namespace name : String) (s : ℕ) → Guarded IsLocal (secrets name s).0
unfolding as_response
secrets-IsLocal namespace name s = elim (Bool-cases (name == "gitlabsecret")) [
  | inl same ↦ rw (same, Guarded) tt
  | inr other ↦ rw (other, Guarded) refl
]

path_found : parse "https://gitlab.example.com/group/project" ≢ ok ""
path_found e =
    cons≢nil (ap (λ (r : Result String). elim r [ ok path ↦ path | err x ↦ "" | panic ↦ "" ]) e)
