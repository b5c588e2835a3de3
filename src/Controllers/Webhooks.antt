-- ===== src/Controllers/Webhooks.antt =====
-- cmd/webhook/main.go: the resources that are defaulted and validated, and the choice of what the
-- webhook of the bindings selects.
use eventing_gitlab.Base.{List, [], ◌∷◌, String, Bool, true, ◌==◌, if◌then◌else◌}

-- A `schema.GroupVersionKind`.
pub record GroupVersionKind : Type 0 where
  pub group : String
  pub version : String
  pub kind : String

-- The types of the resources.
pub data GenericCrd : Type 0 where
  git_lab_source git_lab_binding : GenericCrd

-- `types`
abbrev pub types : List (GroupVersionKind × GenericCrd)
types =
    (
      record { group = "sources.knative.dev"; version = "v1alpha1"; kind = "GitLabSource" },
      git_lab_source,
    )
    ∷ (
      record { group = "bindings.knative.dev"; version = "v1alpha1"; kind = "GitLabBinding" },
      git_lab_binding,
    )
    ∷ []

-- What an admission controller of knative.dev/pkg is made of.
pub record AdmissionController : Type 0 where
  pub name : String
  pub path : String
  pub types : List (GroupVersionKind × GenericCrd)
  pub disallow_unknown_fields : Bool

-- `NewDefaultingAdmissionController`
unfoldable pub new_defaulting_admission_controller : AdmissionController
new_defaulting_admission_controller = record {
  name = "defaulting.webhook.gitlab.sources.knative.dev";
  path = "/defaulting";
  types = types;
  disallow_unknown_fields = true;
}

-- `NewValidationAdmissionController`, which has no more callbacks.
unfoldable pub new_validation_admission_controller : AdmissionController
new_validation_admission_controller = record {
  name = "validation.webhook.gitlab.sources.knative.dev";
  path = "/resource-validation";
  types = types;
  disallow_unknown_fields = true;
}

-- `psbinding.ExclusionSelector` and `InclusionSelector`
pub data Selector : Type 0 where
  exclusion_selector inclusion_selector : Selector

-- The selector of `main`, by the environment.
unfoldable pub glb_selector : (getenv : String → String) → Selector
glb_selector getenv =
    if getenv "GITLAB_BINDING_SELECTION_MODE" == "inclusion"
    then inclusion_selector
    else exclusion_selector
