-- ===== src/Source/Types.antt =====
-- pkg/apis/sources/v1alpha1/gitlabsource_types.go. A pointer that may be nil is an `Option`. The
-- object metadata holds the fields that the program reads.
use eventing_gitlab.Base.{ℕ, Option, List, String, Bool}

-- A `*corev1.SecretKeySelector` that is not nil.
pub record SecretKeySelector : Type 0 where
  pub name : String
  pub key : String

-- A `duckv1.KReference`, as far as the program looks into it.
pub record Reference : Type 0 where
  pub kind : String
  pub namespace : String
  pub name : String

-- A `duckv1.Destination`: a reference or a URI.
pub record Destination : Type 0 where
  pub ref : Option Reference
  pub uri : Option String

pub record ObjectMeta : Type 0 where
  pub name : String
  pub namespace : String
  pub uid : String
  pub generation : ℕ
  pub finalizers : List String
  pub resource_version : String
  pub deleting : Bool

pub record GitLabSourceSpec : Type 0 where
  pub sink : Destination
  pub service_account_name : String
  pub project_url : String
  pub event_types : List String
  pub access_token : Option SecretKeySelector
  pub secret_token : Option SecretKeySelector
  pub ssl_verify : Bool

-- A `duckv1.CloudEventAttributes`.
pub record CloudEventAttributes : Type 0 where
  pub type : String
  pub source : String

-- `C` is the type of the list of conditions, which knative.dev/pkg/apis manages.
pub record GitLabSourceStatus (C : Type 0) : Type 0 where
  pub observed_generation : ℕ
  pub conditions : C
  pub sink_uri : Option String
  pub cloud_event_attributes : List CloudEventAttributes
  pub webhook_id : Option ℕ

pub record GitLabSource (C : Type 0) : Type 0 where
  pub metadata : ObjectMeta
  pub spec : GitLabSourceSpec
  pub status : GitLabSourceStatus C
