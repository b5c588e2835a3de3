-- ===== src/Tests/Binding.antt =====
-- Bindings of a pod that has a volume and a mount of its own.
use text.Mathlib.TextLemmas.{cons≢nil}
use eventing_gitlab.Base.{
  ℕ, ◌≡◌, ◌≢◌, ◌↔◌, inl, inr, refl, none, some, List, [], ◌∷◌, ◌++◌, map, String, Bool, true, false,
  arith, In, All, ◌-◌, ◌+◌,
}
use eventing_gitlab.Source.Types.{SecretKeySelector}
use eventing_gitlab.Binding.Types.{SubjectReference, GitLabBinding, set_defaults}
use eventing_gitlab.Binding.Validation.{FieldErrors, validate}
use eventing_gitlab.Binding.Validation.Laws.{validate_iff, do_binding-validate}
use eventing_gitlab.Binding.PodSpec.{Container, PodSpec, other, returned, undo, attach, do_binding}
use eventing_gitlab.Binding.PodSpec.Mounting.{
  do_binding-undo, do_binding_of_token, do_binding_replaces, volumes_of,
}
use eventing_gitlab.Binding.PodSpec.Rest.{
  rest, do_binding-rest, volumes_of-do_binding, token_volume, token_mount, do_binding_mounts,
}

abbrev other_token : SecretKeySelector
other_token = record { name = "rotated"; key = "accessToken" }

abbrev token : SecretKeySelector
token = record { name = "gitlabsecret"; key = "accessToken" }

abbrev binding_of : SecretKeySelector → GitLabBinding ℕ
binding_of ref = record {
  name = "demo";
  namespace = "default";
  spec = record {
    subject = record {
      api_version = "apps/v1";
      kind = "Deployment";
      namespace = "";
      name = "demo";
      selector = none;
    };
    access_token = some ref;
  };
  status = record { observed_generation = 0; conditions = 0; sink_uri = none };
}

abbrev container : Container
container = record {
  name = "app";
  image = "app:1";
  volume_mounts = record { name = "data"; read_only = false; mount_path = "/data" } ∷ [];
}

abbrev pod : PodSpec
pod = record {
  volumes = record { name = "data"; source = other 1 } ∷ [];
  init_containers = [];
  containers = container ∷ container ∷ [];
}

abbrev bound : PodSpec
bound = attach token (undo pod)

binds : do_binding (binding_of token) pod ≡ returned bound
binds = do_binding_of_token (binding_of token) token pod refl

do_binding-undo_example :
    (p : PodSpec) × (do_binding (binding_of token) pod ≡ returned p) × (undo p ≡ pod)
do_binding-undo_example =
    do_binding-undo (binding_of token) token pod refl
      (omega arith, tt, (omega arith, (omega arith, tt)))

do_binding_replaces_example :
    do_binding (binding_of other_token) bound ≡ do_binding (binding_of other_token) pod
do_binding_replaces_example =
    do_binding_replaces (binding_of token) (binding_of other_token) pod bound
      (omega arith, tt, (omega arith, (omega arith, tt))) binds

do_binding-rest_example : (rest (undo pod) ≡ rest pod) × (rest bound ≡ rest pod)
do_binding-rest_example = do_binding-rest (binding_of token) pod bound binds

volumes_of-do_binding_example :
    (volumes_of (undo pod) ≡ volumes_of pod - 1) × (volumes_of bound ≡ volumes_of pod - 1 + 1)
volumes_of-do_binding_example = volumes_of-do_binding (binding_of token) pod bound binds

do_binding_mounts_example :
    (bound.volumes ≡ (undo pod).volumes ++ token_volume token ∷ [])
    × In (token_volume token) bound.volumes
    × All (λ c. In token_mount c.volume_mounts) bound.init_containers
    × All (λ c. In token_mount c.volume_mounts) bound.containers
    × (map (λ c. c.volume_mounts) bound.init_containers
        ≡ map (λ c. c.volume_mounts ++ token_mount ∷ []) (undo pod).init_containers)
    × (map (λ c. c.volume_mounts) bound.containers
        ≡ map (λ c. c.volume_mounts ++ token_mount ∷ []) (undo pod).containers)
do_binding_mounts_example = do_binding_mounts (binding_of token) token pod bound refl binds

-- Errors as the list of the fields that they are about.
abbrev is_empty : List String → Bool
is_empty [] = true
is_empty (e ∷ es) = false

is_empty_iff : (e : List String) → (is_empty e ≡ true) ↔ (e ≡ [])
is_empty_iff [] = ground arith
is_empty_iff (e ∷ es) = ground arith

append-eq-nil_iff : (e f : List String) → (e ++ f ≡ []) ↔ ((e ≡ []) × (f ≡ []))
append-eq-nil_iff [] f = ground arith
append-eq-nil_iff (x ∷ e) f = ground arith

map-eq-nil_iff : (e : List String) (f : String → String) → (map f e ≡ []) ↔ (e ≡ [])
map-eq-nil_iff [] f = ground arith
map-eq-nil_iff (x ∷ e) f = ground arith

singleton_ne : (e : String) → (e ∷ []) ≢ []
singleton_ne e h = absurd (ground arith)

abbrev field_errors : FieldErrors (List String)
field_errors = record {
  nil = [];
  is_nil = is_empty;
  also = λ e f. e ++ f;
  via_field = λ e field. map (λ f. Prim.Native.String.◌++◌ field (Prim.Native.String.◌++◌ "." f)) e;
  missing_field = λ field. field ∷ [];
  invalid_value = λ value field. field ∷ [];
  is_nil_iff = is_empty_iff;
  also-eq-nil_iff = append-eq-nil_iff;
  via_field-eq-nil_iff = λ e field. map-eq-nil_iff e _;
  missing_field-ne-nil = λ field. singleton_ne field;
  invalid_value-ne-nil = λ value field. singleton_ne field;
}

abbrev any_subject : SubjectReference → List String
any_subject subject = []

accepted : validate field_errors any_subject (binding_of token) ≡ []
accepted =
    (validate_iff field_errors any_subject (binding_of token)).1
      (refl, ((λ e. cons≢nil e), λ e. cons≢nil e), inl refl)

do_binding-validate_example : (p : PodSpec) × (do_binding (binding_of token) pod ≡ returned p)
do_binding-validate_example =
    do_binding-validate field_errors any_subject (binding_of token) pod accepted

accepted_with_defaults : validate field_errors any_subject (set_defaults (binding_of token)) ≡ []
unfolding set_defaults
accepted_with_defaults =
    (validate_iff field_errors any_subject (set_defaults (binding_of token))).1
      (refl, ((λ e. cons≢nil e), λ e. cons≢nil e), inr refl)
