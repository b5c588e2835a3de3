-- ===== src/Adapter/Webhook/Parsing.antt =====
-- Which requests `parse` accepts, and what a request without the secret is answered.
use eventing_gitlab.Base.{
  ◌≡◌, ◌≢◌, ◌↔◌, ◌⊎◌, refl, [], String, some, false, arith, eq_iff, ◌==◌, if◌then◌else◌,
}
use eventing_gitlab.Errors.{Err, errorf, Result, ok, err, panic}
use eventing_gitlab.Adapter.Events.{get_header}
use eventing_gitlab.Adapter.Webhook.{
  Request, Response, Webhook, is_blank, parse_body, parse, serve_http,
  err_could_not_parse_webhook_event, err_gitlab_token_verification_failed,
}

abbrev pub rejected : Err → Response
rejected e = record { status = 400; errors = some (err_could_not_parse_webhook_event, e) }

abbrev pub token_error : Request → Err
token_error r =
    if r.method == "POST"
    then err_gitlab_token_verification_failed
    else errorf "invalid HTTP Method" []

-- The request carries the secret, if there is one.
abbrev pub IsAuthorized : (secret : String) → Request → Type 0
IsAuthorized secret r = (secret ≡ "") ⊎ (get_header "X-Gitlab-Token" r.header ≡ secret)

module _ {P : Type 0} (parse_webhook : (event_type payload : String) → Result P) where
  -- The body is read, is not empty, and is parsed to this payload.
  abbrev pub Parses : (event : String) → Result String → P → Type 0
  Parses event body p =
      (payload : String) × (body ≡ ok payload)
      × (payload ≢ "")
      × (parse_webhook event payload ≡ ok p)

  parse_body_iff :
      (event : String) (body : Result String) (p : P)
      → (parse_body parse_webhook event body ≡ ok p) ↔ Parses event body p
  unfolding parse_body
  parse_body_iff event (err e) p = ((λ e. cc), λ (payload, e, ne, h). cc)
  parse_body_iff event panic p = ((λ e. cc), λ (payload, e, ne, h). cc)
  parse_body_iff event (ok payload) p = (
    λ e. (payload, refl, ground (arith, eq_iff payload ""), ground (arith, eq_iff payload "")),
    λ (payload', same, ne, e). ground (arith, eq_iff payload "", eq_iff payload' ""),
  )

module _ {P S : Type 0} (parse_webhook : (event_type payload : String) → Result P) where
  parse-eq-parse_body :
      (hook : Webhook P S) (r : Request) (p : P)
      → (parse parse_webhook hook r ≡ ok p) ↔ (
          (r.method ≡ "POST")
          × IsAuthorized hook.secret r
          × (is_blank (get_header "X-Gitlab-Event" r.header) ≡ false)
          × (parse_body parse_webhook (get_header "X-Gitlab-Event" r.header) r.body ≡ ok p))
  unfolding parse
  parse-eq-parse_body hook r p = ground (
    arith,
    eq_iff r.method "POST",
    eq_iff hook.secret "",
    eq_iff (get_header "X-Gitlab-Token" r.header) hook.secret,
  )

  -- A request is parsed to an event exactly when it is a POST request that carries the secret, with
  -- an event header that is not blank and a body that is read and not empty, which the GitLab
  -- library parses to this event.
  pub parse_iff :
      (hook : Webhook P S) (r : Request) (p : P)
      → (parse parse_webhook hook r ≡ ok p) ↔ (
          (r.method ≡ "POST")
          × IsAuthorized hook.secret r
          × (is_blank (get_header "X-Gitlab-Event" r.header) ≡ false)
          × Parses parse_webhook (get_header "X-Gitlab-Event" r.header) r.body p)
  parse_iff hook r p =
      let (to, from) = parse-eq-parse_body hook r p in
      let (down, up) =
        parse_body_iff parse_webhook (get_header "X-Gitlab-Event" r.header) r.body p in
      (
        λ e. ((to e).0, (to e).1, (to e).2, down (to e).3),
        λ (post, auth, blank, parses). from (post, auth, blank, up parses),
      )

  -- A request that does not carry the secret is answered by 400, with the error that names the
  -- token if it is a POST request, and no event is sent: the state is left alone, whatever the
  -- sender does.
  pub serve_http_unauthorized :
      (hook : Webhook P S) (r : Request) (s : S)
      → ¬ IsAuthorized hook.secret r
      → serve_http parse_webhook hook r s ≡ (ok (rejected (token_error r)), s)
  unfolding serve_http parse
  serve_http_unauthorized hook r s h =
      ground
        (arith, eq_iff hook.secret "", eq_iff (get_header "X-Gitlab-Token" r.header) hook.secret)
