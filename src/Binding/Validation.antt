-- ===== src/Binding/Validation.antt =====
-- pkg/apis/bindings/v1alpha1/gitlabbinding_validation.go and the validation of a GitLabSource,
-- pkg/apis/sources/v1alpha1/gitlabsource_validation.go.
pub mod Laws
use eventing_gitlab.Base.{
  ◌≡◌, ◌≢◌, ◌↔◌, Option, none, some, String, Bool, true, false, ◌&&◌, not, ◌==◌, if◌then◌else◌,
}
use eventing_gitlab.Source.Types.{SecretKeySelector, Destination, GitLabSource, GitLabSourceSpec}
use eventing_gitlab.Binding.Types.{SubjectReference, GitLabBinding, GitLabBindingSpec}

-- The `*apis.FieldError` of knative.dev/pkg/apis, with `nil` for no error.
pub record FieldErrors (E : Type 0) : Type 0 where
  pub nil : E
  pub is_nil : E → Bool
  pub also : E → E → E
  pub via_field : E → String → E
  pub missing_field : String → E
  pub invalid_value : (value field : String) → E
  pub is_nil_iff : (e : E) → (is_nil e ≡ true) ↔ (e ≡ nil)
  pub also-eq-nil_iff : (e f : E) → (also e f ≡ nil) ↔ ((e ≡ nil) × (f ≡ nil))
  pub via_field-eq-nil_iff : (e : E) (field : String) → (via_field e field ≡ nil) ↔ (e ≡ nil)
  pub missing_field-ne-nil : (field : String) → missing_field field ≢ nil
  pub invalid_value-ne-nil : (value field : String) → invalid_value value field ≢ nil

module _ {E : Type 0} (f : FieldErrors E) (validate_subject : SubjectReference → E) where
  open f use {nil, also, via_field, missing_field, invalid_value}

  -- The tests of the access token's selector in `GitLabBindingSpec.Validate`.
  validate_access_token : Option SecretKeySelector → E → E
  validate_access_token none e = also e (missing_field "accessToken.secretKeyRef")
  validate_access_token (some ref) e =
      let named =
        if ref.name == "" then also e (missing_field "accessToken.secretKeyRef.name") else e in
      if ref.key == "" then also named (missing_field "accessToken.secretKeyRef.key") else named

  -- `GitLabBindingSpec.Validate`
  pub validate_spec : GitLabBindingSpec → E
  unfolding validate_access_token
  validate_spec spec =
      validate_access_token spec.access_token (via_field (validate_subject spec.subject) "subject")

  -- `GitLabBinding.Validate`
  pub validate : {C : Type 0} → GitLabBinding C → E
  unfolding validate_spec
  validate b =
      let e = via_field (validate_spec b.spec) "spec" in
      let namespace = b.spec.subject.namespace in
      if not (namespace == "") && not (b.namespace == namespace)
      then also e (invalid_value namespace "spec.subject.namespace")
      else e

module _ {E : Type 0} (f : FieldErrors E) (validate_sink : Destination → E) where
  open f use {nil, is_nil, also, via_field}

  -- `GitLabSourceSpec.Validate`
  pub validate_source_spec : GitLabSourceSpec → E
  validate_source_spec spec =
      let field_err = validate_sink spec.sink in
      if is_nil field_err then nil else also nil (via_field field_err "sink")

  -- `GitLabSource.Validate`
  pub validate_source : {C : Type 0} → GitLabSource C → E
  unfolding validate_source_spec
  validate_source s = via_field (validate_source_spec s.spec) "spec"
