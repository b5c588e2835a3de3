-- ===== src/Reconciler/Cluster.antt =====
-- The world of the reconciler: the resource in hand, the calls of other services, and the objects
-- that they exchange. Each service answers from a state `W` of the environment.
use eventing_gitlab.Base.{◌≡◌, Option, List, String, Bool, true, ◌∷◌}
use eventing_gitlab.Errors.{Severity, Err, wrap, Action, ok, modify}
use eventing_gitlab.Source.Types.{SecretKeySelector, Destination, GitLabSource, GitLabSourceStatus}
use eventing_gitlab.Client.Webhooks.{WebhookClient}

-- A `corev1.EnvVar`.
pub data EnvVar : Type 0 where
  value : (name value : String) → EnvVar
  value_from : (name : String) → Option SecretKeySelector → EnvVar

-- A controller's owner reference, by the UID of the owner.
pub record OwnerReference : Type 0 where
  pub owner_kind : String
  pub owner_name : String
  pub owner_uid : String

-- A `servingv1.Service`, as far as the program writes or reads it. `ready` is `IsReady()`.
pub record Service : Type 0 where
  pub generate_name : String
  pub namespace : String
  pub labels : List (String × String)
  pub controller : Option OwnerReference
  pub service_account_name : String
  pub image : String
  pub env : List EnvVar
  pub ready : Bool
  pub url : Option String

-- An event that `controller.GetEventRecorder(ctx).Eventf` records about the source. Of the arguments
-- only the errors are kept: the name of the source, which `%q` prints, is that of the source.
pub record Recorded : Type 0 where
  pub severity : Severity
  pub reason : String
  pub format : String
  pub args : List Err

-- The resource that is reconciled, the environment, and the events recorded, the last one first.
pub record World (C W : Type 0) : Type 0 where
  pub source : GitLabSource C
  pub environment : W
  pub recorded : List Recorded

-- The services that the reconciler calls. `is_not_found` is `apierrors.IsNotFound`, which looks
-- through wrapped errors; `not_found` is the error of `apierrors.NewNotFound` for services.
pub record Services (C W : Type 0) : Type 0 where
  pub get_client : GitLabSource C → Action W (WebhookClient W)
  pub resolve_uri : Destination → Action W (Option String)
  pub list_services : (namespace : String) → Action W (List Service)
  pub create_service : (namespace : String) → Service → Action W Service
  pub is_not_found : Err → Bool
  pub not_found : Err
  pub config_env_vars : List EnvVar
  pub receive_adapter_image : String
  pub iteration : List String → List String
  pub is_not_found-not_found : is_not_found not_found ≡ true
  pub is_not_found-wrap :
      (f : String) (a : List String) (e : Err) → is_not_found (wrap f a e) ≡ is_not_found e

-- A call that reads and changes the environment alone.
abbrev pub calling : {C W A : Type 0} → Action W A → Action (World C W) A
calling m w = let (r, e) = m w.environment in (r, record w { environment = e })

-- The actions of the reconciler.
abbrev pub Doing : (C W : Type 0) → Type 0 → Type 0
Doing C W A = Action (World C W) A

unfoldable pub get_source : {C W : Type 0} → Action (World C W) (GitLabSource C)
get_source w = (ok w.source, w)

-- A change of `src.Status`.
abbrev pub update_status :
    {C W : Type 0} → (GitLabSourceStatus C → GitLabSourceStatus C) → Action (World C W) (Unit {0})
update_status f =
    modify (λ w. record w { source = record (w.source) { status = f w.source.status } })

-- `controller.GetEventRecorder(ctx).Eventf`
abbrev pub eventf :
    {C W : Type 0} → Severity → (reason format : String) → List Err → Action (World C W) (Unit {0})
eventf severity reason format args = modify (λ w. record w {
  recorded =
      record { severity = severity; reason = reason; format = format; args = args } ∷ w.recorded;
})
