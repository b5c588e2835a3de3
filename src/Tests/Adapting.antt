-- ===== src/Tests/Adapting.antt =====
-- The adapter on a push event.
use Prim.Native.Char.{Char, code}
use mathlib.Core.Bool.{false≢true}
use eventing_gitlab.Base.{
  eq_iff, ◌≤◌, ◌≡◌, ◌↔◌, inl, inr, refl, List, [], ◌∷◌, String, false, arith,
}
use eventing_gitlab.Errors.{Result, ok}
use eventing_gitlab.Source.EventTypes.{event_type_for_webhook}
use eventing_gitlab.Client.Hooks.{job}
use eventing_gitlab.Client.Hooks.Flags.{name_of}
use eventing_gitlab.Adapter.Header.{gitlab_event_header_to_event_type}
use eventing_gitlab.Adapter.Header.Laws.{IsPlain}
use eventing_gitlab.Adapter.Events.{
  CloudEvent, ack, CloudEventsSdk, ReceiveAdapter, new_adapter, get_header,
}
use eventing_gitlab.Adapter.Events.Declared.{header_of, IsAligned, emitted_iff}
use eventing_gitlab.Adapter.Webhook.{
  Request, is_blank, parse, serve_http, adapter_webhook, err_gitlab_token_verification_failed,
}
use eventing_gitlab.Adapter.Webhook.Parsing.{
  IsAuthorized, rejected, Parses, parse_iff, serve_http_unauthorized,
}
use eventing_gitlab.Adapter.Webhook.Delivery.{Delivers, accepted, serve_http_accepts_iff}

abbrev pub lower : Char → Char
lower c = "é"

lower-IsPlain : (c : Char) → 128 ≤ code c → IsPlain (lower c)
lower-IsPlain c h = ((λ e. omega arith), inr (omega arith))

-- The sink keeps what it is sent.
abbrev pub sdk : CloudEventsSdk String (List CloudEvent)
sdk = record { marshal = λ p. ok p; send = λ event s. (ack, event ∷ s) }

abbrev pub adapter : ReceiveAdapter
adapter = new_adapter (record {
  env_secret = "s3";
  port = "8080";
  event_source = "https://gitlab.example.com/group/project";
})

abbrev parse_push : (event_type payload : String) → Result String
parse_push event_type payload = ok payload

-- A push event with this token.
abbrev push_with : (token : String) → Request
push_with token = record {
  method = "POST";
  header = ("X-Gitlab-Event", "Push Hook") ∷ ("X-Gitlab-Token", token) ∷ [];
  body = ok "{}";
}

parse_iff_example :
    (parse parse_push (adapter_webhook sdk lower adapter) (push_with "s3") ≡ ok "{}") ↔ (
      ((push_with "s3").method ≡ "POST")
      × IsAuthorized (adapter_webhook sdk lower adapter).secret (push_with "s3")
      × (is_blank (get_header "X-Gitlab-Event" (push_with "s3").header) ≡ false)
      × Parses parse_push (get_header "X-Gitlab-Event" (push_with "s3").header) (ok "{}") "{}")
parse_iff_example = parse_iff parse_push (adapter_webhook sdk lower adapter) (push_with "s3") "{}"

serve_http_accepts_iff_example :
    (serve_http parse_push (adapter_webhook sdk lower adapter) (push_with "s3") []
      ≡ (ok (accepted sdk lower adapter parse_push), []))
    ↔ ((p : String) × (parse parse_push (adapter_webhook sdk lower adapter) (push_with "s3") ≡ ok p)
        × Delivers sdk lower adapter "Push Hook" p [] [])
unfolding get_header
serve_http_accepts_iff_example =
    serve_http_accepts_iff sdk lower adapter parse_push (push_with "s3") [] []

unauthorized : ¬ IsAuthorized "s3" (push_with "guess")
unfolding get_header
unauthorized (inl e) = false≢true ((eq_iff "s3" "").1 e)
unauthorized (inr e) = false≢true ((eq_iff "guess" "s3").1 e)

serve_http_unauthorized_example :
    serve_http parse_push
      (record { secret = "s3"; event_sender = λ p h s. (ok tt, p ∷ s) })
      (push_with "guess")
      []
    ≡ (ok (rejected err_gitlab_token_verification_failed), [])
serve_http_unauthorized_example =
    serve_http_unauthorized parse_push
      (record { secret = "s3"; event_sender = λ p h s. (ok tt, p ∷ s) }) (push_with "guess") []
      unauthorized

emitted_iff_example :
    (gitlab_event_header_to_event_type lower (header_of job) ≡ event_type_for_webhook (name_of job))
    ↔ IsAligned job
emitted_iff_example = emitted_iff lower job

event_type_of_tag_push : gitlab_event_header_to_event_type lower "Tag Push Hook" ≡ "tag_push"
unfolding gitlab_event_header_to_event_type
event_type_of_tag_push = refl
