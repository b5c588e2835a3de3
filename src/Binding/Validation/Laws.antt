-- ===== src/Binding/Validation/Laws.antt =====
-- Which bindings the admission webhook accepts, and that `Do` is defined on them.
use eventing_gitlab.Base.{
  ◌≡◌, ◌≢◌, ◌↔◌, ◌⊎◌, inl, inr, Option, none, some, arith, eq_iff, Option-cases,
}
use eventing_gitlab.Source.Types.{SecretKeySelector}
use eventing_gitlab.Binding.Types.{SubjectReference, GitLabBinding, GitLabBindingSpec, set_defaults}
use eventing_gitlab.Binding.Validation.{FieldErrors, validate_access_token, validate_spec, validate}
use eventing_gitlab.Binding.PodSpec.{PodSpec, returned, do_binding}
use eventing_gitlab.Binding.PodSpec.Mounting.{do_binding_of_token}

-- A selector that names a secret and a key of it.
abbrev pub IsComplete : Option SecretKeySelector → Type 0
IsComplete none = ⊥
IsComplete (some ref) = (ref.name ≢ "") × (ref.key ≢ "")

module _ {E : Type 0} (f : FieldErrors E) (validate_subject : SubjectReference → E) where
  open f use {
    nil, also, via_field, also-eq-nil_iff, via_field-eq-nil_iff, missing_field-ne-nil,
    invalid_value-ne-nil,
  }

  validate_access_token_iff :
      (token : Option SecretKeySelector) (e : E)
      → (validate_access_token f validate_subject token e ≡ nil) ↔ ((e ≡ nil) × IsComplete token)
  unfolding validate_access_token
  validate_access_token_iff none e = ground (
    arith,
    also-eq-nil_iff e (f.missing_field "accessToken.secretKeyRef"),
    missing_field-ne-nil "accessToken.secretKeyRef",
  )
  validate_access_token_iff (some ref) e =
      grind (arith, eq_iff ref.name "", eq_iff ref.key "", also-eq-nil_iff, missing_field-ne-nil)

  validate_spec_iff :
      (spec : GitLabBindingSpec)
      → (validate_spec f validate_subject spec ≡ nil)
        ↔ ((validate_subject spec.subject ≡ nil) × IsComplete spec.access_token)
  unfolding validate_spec
  validate_spec_iff spec =
      let (to, from) =
        validate_access_token_iff spec.access_token
          (via_field (validate_subject spec.subject) "subject") in
      let (down, up) = via_field-eq-nil_iff (validate_subject spec.subject) "subject" in
      ((λ e. (down (to e).0, (to e).1)), λ h. from (up h.0, h.1))

  -- A binding is accepted exactly when its subject is, its access token names a secret and a key,
  -- and its subject has no namespace or the namespace of the binding.
  pub validate_iff :
      {C : Type 0} (b : GitLabBinding C)
      → (validate f validate_subject b ≡ nil) ↔ (
          (validate_subject b.spec.subject ≡ nil)
          × IsComplete b.spec.access_token
          × ((b.spec.subject.namespace ≡ "") ⊎ (b.namespace ≡ b.spec.subject.namespace)))
  unfolding validate
  validate_iff b =
      let e = validate_spec f validate_subject b.spec in
      let namespace = b.spec.subject.namespace in
      let invalid = f.invalid_value namespace "spec.subject.namespace" in
      ground (
        arith,
        validate_spec_iff b.spec,
        via_field-eq-nil_iff e "spec",
        also-eq-nil_iff (via_field e "spec") invalid,
        invalid_value-ne-nil namespace "spec.subject.namespace",
        eq_iff namespace "",
        eq_iff b.namespace namespace,
      )

  -- On a binding that the webhook accepts, `Do` returns: the access token is there to be read.
  pub do_binding-validate :
      {C : Type 0} (b : GitLabBinding C) (ps : PodSpec)
      → validate f validate_subject b ≡ nil
      → (bound : PodSpec) × (do_binding b ps ≡ returned bound)
  do_binding-validate b ps accepted =
      let (subject, complete, namespace) = (validate_iff b).0 accepted in
      elim (Option-cases b.spec.access_token) [
        | inl missing ↦ absurd (rw missing at complete)
        | inr (ref, token) ↦ (_, do_binding_of_token b ref ps token)
      ]

  -- A binding that is accepted after its defaults are set acts on a subject of its own namespace.
  pub validate-set_defaults :
      {C : Type 0} (b : GitLabBinding C)
      → validate f validate_subject (set_defaults b) ≡ nil
      → (set_defaults b).spec.subject.namespace ≡ b.namespace
  unfolding set_defaults
  validate-set_defaults b accepted =
      let (subject, complete, namespace) = (validate_iff (set_defaults b)).0 accepted in
      ground (arith, namespace, eq_iff b.spec.subject.namespace "")

-- Setting the defaults twice is setting them once.
pub set_defaults_idempotent :
    {C : Type 0} (b : GitLabBinding C) → set_defaults (set_defaults b) ≡ set_defaults b
unfolding set_defaults
set_defaults_idempotent b =
    ground (arith, eq_iff b.spec.subject.namespace "", eq_iff b.namespace "")
