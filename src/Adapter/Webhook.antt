-- ===== src/Adapter/Webhook.antt =====
-- The HTTP handler of pkg/adapter/webhook.go. `gitlab.ParseWebhook` is a parameter, which parses
-- the body into a payload `P`. That the rest of the body is discarded and the body closed shows in
-- no result.
pub mod Parsing
pub mod Delivery
use Prim.Native.Char.{Char, code}
use Prim.Native.String.{String}
use Prim.Native.String as String
use eventing_gitlab.Base.{
  ℕ, List, [], ◌∷◌, Option, none, some, Bool, true, false, ◌&&◌, ◌||◌, not, ◌==◌, if◌then◌else◌,
  leb, nat_eq,
}
use eventing_gitlab.Errors.{
  Err, errorf, Result, ok, err, panic, Action, pure, crash, ◌>>=◌, attempt,
}
use eventing_gitlab.Adapter.Events.{
  Header, get_header, CloudEventsSdk, ReceiveAdapter, handle_event,
}

pub record Request : Type 0 where
  pub method : String
  pub header : Header
  -- What `io.ReadAll` gives on the body.
  pub body : Result String

-- The status that is written, and the two errors that the body prints.
pub record Response : Type 0 where
  pub status : ℕ
  pub errors : Option (Err × Err)

abbrev pub err_missing_gitlab_event_header : Err
err_missing_gitlab_event_header = errorf "missing X-Gitlab-Event Header" []

abbrev pub err_reading_request_body : Err
err_reading_request_body = errorf "error reading request body" []

abbrev pub err_gitlab_token_verification_failed : Err
err_gitlab_token_verification_failed = errorf "token validation failed" []

abbrev pub err_could_not_parse_webhook_event : Err
err_could_not_parse_webhook_event = errorf "could parse the webhook event" []

abbrev pub err_could_not_handle_event : Err
err_could_not_handle_event = errorf "error handling the event" []

-- `unicode.IsSpace`
pub is_space : ℕ → Bool
is_space c =
    (leb 9 c && leb c 13)
    || nat_eq c 32
    || nat_eq c 0x85
    || nat_eq c 0xa0
    || nat_eq c 0x1680
    || (leb 0x2000 c && leb c 0x200a)
    || nat_eq c 0x2028
    || nat_eq c 0x2029
    || nat_eq c 0x202f
    || nat_eq c 0x205f
    || nat_eq c 0x3000

-- `strings.TrimSpace(s) == ""`
pub is_blank : String → Bool
unfolding is_space
is_blank String.[] = true
is_blank (String.◌∷◌ c s) = is_space (code c) && is_blank s

-- `webhook`: the secret, and the sender of events.
pub record Webhook (P S : Type 0) : Type 0 where
  pub secret : String
  pub event_sender : P → Header → Action S (Unit {0})

-- The end of `ServeHTTP`, behind the call of the event sender.
pub respond : Result (Unit {0}) → Response
respond (err e) = record { status = 500; errors = some (err_could_not_handle_event, e) }
respond _ = record { status = 202; errors = none }

module _ {P : Type 0} (parse_webhook : (event_type payload : String) → Result P) where
  -- The reading of the body and its parsing, at the end of `parse`.
  pub parse_body : String → Result String → Result P
  parse_body event (err e) = err err_reading_request_body
  parse_body event panic = panic
  parse_body event (ok payload) =
      if payload == "" then err err_reading_request_body else parse_webhook event payload

module _ {P S : Type 0} (parse_webhook : (event_type payload : String) → Result P) where
  -- `parse`
  pub parse : Webhook P S → Request → Result P
  unfolding is_blank parse_body
  parse hook r =
      let event = get_header "X-Gitlab-Event" r.header in
      if not (r.method == "POST")
      then err (errorf "invalid HTTP Method" [])
      else if not (hook.secret == "") && not (get_header "X-Gitlab-Token" r.header == hook.secret)
      then err err_gitlab_token_verification_failed
      else if is_blank event
      then err err_missing_gitlab_event_header
      else parse_body parse_webhook event r.body

  -- `ServeHTTP` behind the call of `parse`.
  pub serve_parsed : Webhook P S → Request → Result P → Action S Response
  unfolding respond
  serve_parsed hook r (err e) =
      pure (record { status = 400; errors = some (err_could_not_parse_webhook_event, e) })
  serve_parsed hook r panic = crash
  serve_parsed hook r (ok event) = do
    sent ← attempt (hook.event_sender event r.header)
    pure (respond sent)

  -- `ServeHTTP`
  pub serve_http : Webhook P S → Request → Action S Response
  unfolding serve_parsed
  serve_http hook r = serve_parsed hook r (parse hook r)

-- `NewWebhookHandler(ra.secretToken, ra.handleEvent)`, as the adapter's `start` calls it.
unfoldable pub adapter_webhook :
    {P S : Type 0} → CloudEventsSdk P S → (Char → Char) → ReceiveAdapter → Webhook P S
adapter_webhook sdk unicode_lower ra = record {
  secret = ra.secret_token;
  event_sender = handle_event sdk unicode_lower ra;
}
