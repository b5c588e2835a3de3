-- ===== src/Adapter/Events.antt =====
-- `handleEvent` and `postMessage` of pkg/adapter/receive_adapter.go. The CloudEvents SDK is a
-- parameter: how it marshals a payload `P`, and how it sends an event in a state `S` of the
-- environment.
pub mod Declared
use Prim.Native.Char.{Char}
use eventing_gitlab.Base.{List, [], ◌∷◌, String, Option, none, some, ◌==◌, if◌then◌else◌}
use eventing_gitlab.Base.Dict.{lookup}
use eventing_gitlab.Errors.{
  Err, errorf, wrap, Result, Action, pure, fail, of_result, wrapping, ◌>>=◌,
}
use eventing_gitlab.Source.EventTypes.{gitlab_event_type}
use eventing_gitlab.Adapter.Header.{gitlab_event_header_to_event_type}

-- An `http.Header`, its keys in the canonical form.
abbrev pub Header : Type 0
Header = List (String × String)

-- `header.Get`: the first value of the key, or "".
unfoldable pub get_header : String → Header → String
unfolding lookup
get_header key header = elim (lookup key header) [ none ↦ "" | some value ↦ value ]

pub record CloudEvent : Type 0 where
  pub spec_version : String
  pub type : String
  pub source : String
  pub extensions : List (String × String)
  pub content_type : String
  pub body : String

-- What `client.Send` gives: a result for which `cloudevents.IsACK` holds, or another one.
pub data Sent : Type 0 where
  ack : Sent
  nack : Err → Sent

pub record CloudEventsSdk (P S : Type 0) : Type 0 where
  pub marshal : P → Result String
  pub send : CloudEvent → S → Sent × S

-- `envConfig` without the fields of the SDK's `adapter.EnvConfig`, which this code does not read.
pub record EnvConfig : Type 0 where
  pub env_secret : String
  pub port : String
  pub event_source : String

-- `gitLabReceiveAdapter` without its logger and its client, which is the SDK of a call.
pub record ReceiveAdapter : Type 0 where
  pub event_source : String
  pub secret_token : String
  pub port : String

-- `NewAdapter`
abbrev pub new_adapter : EnvConfig → ReceiveAdapter
new_adapter env = record {
  event_source = env.event_source;
  secret_token = env.env_secret;
  port = env.port;
}

abbrev pub gl_header_event : String
gl_header_event = "X-Gitlab-Event"

abbrev pub gl_header_event_ce_attr : String
gl_header_event_ce_attr = "comgitlabevent"

-- The event that `postMessage` builds around the marshalled payload.
abbrev pub cloud_event : (source event_type : String) → List (String × String) → String → CloudEvent
cloud_event source event_type extensions body = record {
  spec_version = "1.0";
  type = event_type;
  source = source;
  extensions = extensions;
  content_type = "application/json";
  body = body;
}

module _ {P S : Type 0} (sdk : CloudEventsSdk P S) where
  -- `client.Send` and the test of its result.
  unfoldable pub send_event : CloudEvent → Action S (Unit {0})
  send_event event s =
      let (result, s') = sdk.send event s in elim result [ ack ↦ pure tt s' | nack e ↦ fail e s' ]

  -- `postMessage`
  unfoldable pub post_message :
      P → (source event_type : String) → List (String × String) → Action S (Unit {0})
  unfolding send_event
  post_message payload source event_type extensions = do
    body ← wrapping "failed to marshal event data: %w" [] (of_result (sdk.marshal payload))
    send_event (cloud_event source event_type extensions body)

  -- `handleEvent`
  unfoldable pub handle_event :
      (unicode_lower : Char → Char) → ReceiveAdapter → P → Header → Action S (Unit {0})
  unfolding get_header post_message
  handle_event unicode_lower ra payload header =
      let event_header = get_header gl_header_event header in
      let event_type = gitlab_event_header_to_event_type unicode_lower event_header in
      if event_type == ""
      then fail (errorf "invalid webhook event type %s" (event_header ∷ []))
      else post_message payload ra.event_source (gitlab_event_type event_type)
          ((gl_header_event_ce_attr, event_header) ∷ [])
