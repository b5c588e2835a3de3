-- ===== src/Adapter/Webhook/Delivery.antt =====
-- Which requests the handler accepts, and what it then sends.
use Prim.Native.Char.{Char}
use eventing_gitlab.Base.{
  ◌≡◌, sym, ap, ◌∙◌, ◌≢◌, ◌↔◌, inl, inr, refl, List, [], ◌∷◌, String, none, arith, eq_iff, ◌==◌,
  Bool-cases,
}
use eventing_gitlab.Errors.{Result, ok, err, panic, ended}
use eventing_gitlab.Source.EventTypes.{gitlab_event_type}
use eventing_gitlab.Adapter.Header.{gitlab_event_header_to_event_type}
use eventing_gitlab.Adapter.Events.{
  Header, get_header, CloudEvent, Sent, ack, nack, CloudEventsSdk, ReceiveAdapter, gl_header_event,
  gl_header_event_ce_attr, cloud_event, send_event, post_message, handle_event,
}
use eventing_gitlab.Adapter.Webhook.{
  Request, Response, Webhook, parse, serve_parsed, serve_http, adapter_webhook,
}

module _ {P S : Type 0} (sdk : CloudEventsSdk P S) (unicode_lower : Char → Char)
    (ra : ReceiveAdapter) where
  -- The event for a payload with this marshalled form, and the header that names its type.
  abbrev pub event_of : (event_header body : String) → CloudEvent
  event_of event_header body =
      cloud_event ra.event_source
        (gitlab_event_type (gitlab_event_header_to_event_type unicode_lower event_header))
        ((gl_header_event_ce_attr, event_header) ∷ []) body

  -- The payload is marshalled, and the sink acknowledges the one event that is sent.
  abbrev pub Delivers : (event_header : String) → P → (s s' : S) → Type 0
  Delivers event_header p s s' =
      (gitlab_event_header_to_event_type unicode_lower event_header ≢ "")
      × ((body : String) × (sdk.marshal p ≡ ok body)
          × (sdk.send (event_of event_header body) s ≡ (ack, s')))

  send_event-eq-ok_iff :
      (event : CloudEvent) (s s' : S)
      → (send_event sdk event s ≡ (ok tt, s')) ↔ (sdk.send event s ≡ (ack, s'))
  unfolding send_event
  send_event-eq-ok_iff event s s' = by_cases (sdk.send event s) refl
    where
      by_cases :
          (r : Sent × S)
          → sdk.send event s ≡ r
          → (send_event sdk event s ≡ (ok tt, s')) ↔ (sdk.send event s ≡ (ack, s'))
      by_cases (ack, t) e = ((λ k. ground arith), λ k. ground arith)
      by_cases (nack x, t) e = ((λ k. ground arith), λ k. ground arith)

  module _ (p : P) (source event_type : String) (extensions : List (String × String))
      (s s' : S) where
    -- The message is marshalled and acknowledged.
    abbrev Posts : Type 0
    Posts =
        (body : String) × (sdk.marshal p ≡ ok body)
        × (sdk.send (cloud_event source event_type extensions body) s ≡ (ack, s'))

    post_message-eq-ok_iff :
        (post_message sdk p source event_type extensions s ≡ (ok tt, s')) ↔ Posts
    unfolding post_message
    post_message-eq-ok_iff = by_cases (sdk.marshal p) refl
      where
        by_cases :
            (m : Result String)
            → sdk.marshal p ≡ m
            → (post_message sdk p source event_type extensions s ≡ (ok tt, s')) ↔ Posts
        by_cases (ok body) m =
            let (to, from) =
              send_event-eq-ok_iff (cloud_event source event_type extensions body) s s' in
            let same : post_message sdk p source event_type extensions s
                ≡ send_event sdk (cloud_event source event_type extensions body) s =
              ground arith in
            (
              λ e. (body, m, to (sym same ∙ e)),
              λ (b, e, h).
                  same
                  ∙ from (
                      ap (λ t. sdk.send (cloud_event source event_type extensions t) s)
                        (ground arith)
                      ∙ h),
            )
        by_cases (err x) m = ((λ e. absurd (ground arith)), λ (b, e, h). absurd (ground arith))
        by_cases panic m = ((λ e. absurd (ground arith)), λ (b, e, h). absurd (ground arith))

  handle_event-eq-ok_iff :
      (p : P) (header : Header) (s s' : S)
      → (handle_event sdk unicode_lower ra p header s ≡ (ok tt, s'))
        ↔ Delivers (get_header gl_header_event header) p s s'
  unfolding handle_event
  handle_event-eq-ok_iff p header s s' =
      let event_header = get_header gl_header_event header in
      let event_type = gitlab_event_header_to_event_type unicode_lower event_header in
      let (to, from) =
        post_message-eq-ok_iff p ra.event_source (gitlab_event_type event_type)
          ((gl_header_event_ce_attr, event_header) ∷ []) s s' in
      elim (Bool-cases (event_type == "")) [
        | inl none_given ↦ (
          λ e. absurd (ground arith),
          λ (ne, posts). absurd (ne ((eq_iff event_type "").0 none_given)),
        )
        | inr given ↦
            let same : handle_event sdk unicode_lower ra p header s
                ≡ post_message sdk p ra.event_source (gitlab_event_type event_type)
                    ((gl_header_event_ce_attr, event_header) ∷ []) s =
              ground arith in
            (
              λ e. ((λ empty. cc (given, (eq_iff event_type "").1 empty)), to (sym same ∙ e)),
              λ (ne, posts). same ∙ from posts,
            )
      ]

  module _ (parse_webhook : (event_type payload : String) → Result P) where
    abbrev pub accepted : Response
    accepted = record { status = 202; errors = none }

    serve_parsed-eq-accepted_iff :
        (hook : Webhook P S) (r : Request) (p : P) (s s' : S)
        → (serve_parsed parse_webhook hook r (ok p) s ≡ (ok accepted, s'))
          ↔ (hook.event_sender p r.header s ≡ (ok tt, s'))
    unfolding serve_parsed
    serve_parsed-eq-accepted_iff hook r p s s' = elim (ended (hook.event_sender p r.header s)) [
      | inl (u, t, k) ↦ ((λ e. ground arith), λ e. ground arith)
      | inr (inl (x, t, k)) ↦ ((λ e. absurd (ground arith)), λ e. absurd (ground arith))
      | inr (inr (t, k)) ↦ ((λ e. absurd (ground arith)), λ e. absurd (ground arith))
    ]

    serve_parsed-accepted :
        (hook : Webhook P S) (r : Request) (m : Result P) (s s' : S)
        → serve_parsed parse_webhook hook r m s ≡ (ok accepted, s')
        → (p : P) × (m ≡ ok p) × (hook.event_sender p r.header s ≡ (ok tt, s'))
    unfolding serve_parsed
    serve_parsed-accepted hook r (ok p) s s' e =
        (p, refl, (serve_parsed-eq-accepted_iff hook r p s s').0 e)
    serve_parsed-accepted hook r (err x) s s' e = absurd (ground arith)
    serve_parsed-accepted hook r panic s s' e = absurd (ground arith)

    -- The adapter answers 202 exactly when the request is parsed to an event, the event header
    -- gives an event type, and the one CloudEvent that is made of them, with the adapter's source
    -- and the header as its extension, is acknowledged by the sink.
    pub serve_http_accepts_iff :
        (r : Request) (s s' : S)
        → (serve_http parse_webhook (adapter_webhook sdk unicode_lower ra) r s ≡ (ok accepted, s'))
          ↔ ((p : P) × (parse parse_webhook (adapter_webhook sdk unicode_lower ra) r ≡ ok p)
              × Delivers (get_header gl_header_event r.header) p s s')
    unfolding adapter_webhook serve_http
    serve_http_accepts_iff r s s' =
        let hook = adapter_webhook sdk unicode_lower ra in
        (
          λ e.
              let (p, parsed, sent) =
                serve_parsed-accepted hook r (parse parse_webhook hook r) s s' e in
              (p, parsed, (handle_event-eq-ok_iff p r.header s s').0 sent),
          λ (p, parsed, delivers).
              ap (λ m. serve_parsed parse_webhook hook r m s) parsed
              ∙ (serve_parsed-eq-accepted_iff hook r p s s').1
                  ((handle_event-eq-ok_iff p r.header s s').1 delivers),
        )
