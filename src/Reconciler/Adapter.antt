-- ===== src/Reconciler/Adapter.antt =====
-- The sink and the adapter Service: `resolveSinkURL`, `reconcileAdapter` and what they call.
pub mod Laws
use eventing_gitlab.Base.{
  Option, none, some, List, [], ◌∷◌, ◌++◌, String, Bool, false, ◌==◌, if◌then◌else◌,
}
use eventing_gitlab.Errors.{
  wrap, Result, ok, err, panic, pure, fail, attempt, modify, wrapping, ◌>>=◌, ◌>>◌,
}
use eventing_gitlab.Source.Types.{ObjectMeta, Destination, GitLabSource}
use eventing_gitlab.Source.EventTypes.{as_event_source}
use eventing_gitlab.Reconciler.Cluster.{
  value, value_from, Service, Services, calling, Doing, get_source,
}

-- `metav1.IsControlledBy`: the UID of the controller's reference is that of the source.
abbrev pub is_controlled_by : ObjectMeta → Service → Bool
is_controlled_by owner ksvc = elim ksvc.controller [
  | none ↦ false
  | some ref ↦ ref.owner_uid == owner.uid
]

-- The loop of `getOwnedKnativeService`.
pub find_owned : ObjectMeta → List Service → Option Service
find_owned owner [] = none
find_owned owner (ksvc ∷ items) =
    if is_controlled_by owner ksvc then some ksvc else find_owned owner items

-- The namespace that `resolveSinkURL` writes into the reference of the sink.
abbrev pub default_namespace : (namespace : String) → Destination → Destination
default_namespace namespace sink = elim sink.ref [
  | none ↦ sink
  | some ref ↦
      if ref.namespace == ""
      then record sink { ref = some (record ref { namespace = namespace }) }
      else sink
]

-- `sinkURI.String()`: "" for a nil URL.
abbrev pub url_string : Option String → String
url_string none = ""
url_string (some uri) = uri

module _ {C W : Type 0} (env : Services C W) where
  -- `resolveSinkURL`
  unfoldable pub resolve_sink_url : Doing C W (Option String)
  unfolding get_source
  resolve_sink_url = do
    modify (λ w. record w {
      source = record (w.source) {
        spec = record (w.source.spec) {
          sink = default_namespace w.source.metadata.namespace w.source.spec.sink;
        };
      };
    })
    src ← get_source
    calling (env.resolve_uri src.spec.sink)

  -- `generateKnativeServiceObject`; what the API server fills in later is not there yet.
  unfoldable pub generate_knative_service_object : GitLabSource C → Service
  generate_knative_service_object src = record {
    generate_name = Prim.Native.String.◌++◌ src.metadata.name "-";
    namespace = src.metadata.namespace;
    labels = ("receive-adapter", "gitlab") ∷ [];
    controller = some (record {
      owner_kind = "GitLabSource";
      owner_name = src.metadata.name;
      owner_uid = src.metadata.uid;
    });
    service_account_name = src.spec.service_account_name;
    image = env.receive_adapter_image;
    env =
        (value_from "GITLAB_SECRET_TOKEN" src.spec.secret_token
          ∷ value "GITLAB_EVENT_SOURCE" (as_event_source src)
          ∷ value "K_SINK" (url_string src.status.sink_uri)
          ∷ value "NAMESPACE" src.metadata.namespace
          ∷ value "METRICS_DOMAIN" "knative.dev/eventing"
          ∷ value "METRICS_PROMETHEUS_PORT" "9092"
          ∷ [])
        ++ env.config_env_vars;
    ready = false;
    url = none;
  }

  -- The end of `getOwnedKnativeService`, by the result of its loop.
  pub owned : Option Service → Doing C W Service
  owned none = fail env.not_found
  owned (some ksvc) = pure ksvc

  -- `getOwnedKnativeService`
  pub get_owned_knative_service : Doing C W Service
  unfolding get_source find_owned owned
  get_owned_knative_service = do
    src ← get_source
    items ← calling (env.list_services src.metadata.namespace)
    owned (find_owned src.metadata items)

  -- The switch of `reconcileAdapter`.
  pub adapter_of : Result Service → Doing C W Service
  unfolding generate_knative_service_object get_source
  adapter_of (ok adapter) = pure adapter
  adapter_of panic = λ w. (panic, w)
  adapter_of (err e) =
      if env.is_not_found e
      then (do
        src ← get_source
        wrapping "creating receive adapter: %w" [] (
            calling
              (env.create_service src.metadata.namespace (generate_knative_service_object src))))
      else fail (wrap "searching for existing receive adapter: %w" [] e)

  -- `reconcileAdapter`
  unfoldable pub reconcile_adapter : Doing C W Service
  unfolding get_owned_knative_service adapter_of
  reconcile_adapter = do found ← attempt get_owned_knative_service; adapter_of found
