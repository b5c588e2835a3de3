-- ===== src/Client/ProjectUrl.antt =====
-- `splitGitLabProjectURL` of pkg/client/gitlab/webhook_client.go. The path that `url.Parse` finds
-- in a URL is a parameter. Texts are walked by code point: a path whose first character is no
-- ASCII character would leave the other bytes of it at the head of the project's name.
pub mod Laws
use Prim.Native.String.{String, [], ◌∷◌}
use mathlib.Core.List
use eventing_gitlab.Base.{Bool, true, false, ◌==◌, if◌then◌else◌}
use eventing_gitlab.Errors.{wrap, Result, ok, err, panic}

-- `strings.TrimSuffix`
pub trim_suffix : String → String → String
trim_suffix [] suffix = []
trim_suffix (c ∷ s) suffix =
    let rest = trim_suffix s suffix in if (c ∷ s) == suffix then [] else c ∷ rest

-- `u.Path[1:]`, which is out of range for an empty path, and the base URL.
pub components : String → String → Result (String × String)
unfolding trim_suffix
components project_url [] = panic
components project_url (c ∷ project_name) = ok (trim_suffix project_url project_name, project_name)

module _ (parse : String → Result String) where
  -- `splitGitLabProjectURL`: the base URL and the name of the project.
  pub split_gitlab_project_url : String → Result (String × String)
  unfolding components
  split_gitlab_project_url project_url = elim (parse project_url) [
    | ok path ↦ components project_url path
    | err e ↦ err (wrap "parsing project URL %q: %w" (List.◌∷◌ project_url List.[]) e)
    | panic ↦ panic
  ]
