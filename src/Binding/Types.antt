-- ===== src/Binding/Types.antt =====
-- pkg/apis/bindings/v1alpha1/gitlabbinding_types.go and gitlabbinding_defaults.go. A pointer that
-- may be nil is an `Option`; the object metadata holds the fields that the program reads.
use eventing_gitlab.Base.{ℕ, Option, String, ◌==◌, if◌then◌else◌}
use eventing_gitlab.Source.Types.{SecretKeySelector}

-- A `tracker.Reference`; of its label selector only the text is kept.
pub record SubjectReference : Type 0 where
  pub api_version : String
  pub kind : String
  pub namespace : String
  pub name : String
  pub selector : Option String

pub record GitLabBindingSpec : Type 0 where
  pub subject : SubjectReference
  pub access_token : Option SecretKeySelector

-- `C` is the type of the list of conditions, which knative.dev/pkg/apis manages.
pub record GitLabBindingStatus (C : Type 0) : Type 0 where
  pub observed_generation : ℕ
  pub conditions : C
  pub sink_uri : Option String

pub record GitLabBinding (C : Type 0) : Type 0 where
  pub name : String
  pub namespace : String
  pub spec : GitLabBindingSpec
  pub status : GitLabBindingStatus C

-- `SetDefaults`
unfoldable pub set_defaults : {C : Type 0} → GitLabBinding C → GitLabBinding C
set_defaults b =
    let subject = b.spec.subject in
    if subject.namespace == ""
    then record b {
      spec = record (b.spec) { subject = record subject { namespace = b.namespace } };
    }
    else b
