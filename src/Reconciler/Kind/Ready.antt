-- ===== src/Reconciler/Kind/Ready.antt =====
-- The conditions at the ends of `ReconcileKind` without an error.
use mathlib.Core.Path.{subst}
use eventing_gitlab.Base.{
  true, false, ℕ, ◌≡◌, ◌≢◌, ◌↔◌, refl, sym, ◌∙◌, ◌⊎◌, inl, inr, Option, none, some, [], String,
  arith,
}
use eventing_gitlab.Reconciler.Cluster.{Service}
use eventing_gitlab.Source.Types.{GitLabSourceStatus}
use eventing_gitlab.Source.Status.{
  Message, ConditionManager, ready, sink_provided, deployed, webhook_configured, is_false, is_true,
  mark_sink, mark_webhook, mark_deployed, mark_not_deployed,
}

-- The message of an adapter that is not ready.
abbrev pub not_ready : Message
not_ready = record { format = "Receive adapter Service is not ready"; args = [] }

module _ {C : Type 0} (mgr : ConditionManager C) where
  open mgr use {get, mark_true, mark_false}

  deployed-kept :
      (c : C) → get (mark_true webhook_configured (mark_true deployed c)) deployed ≡ is_true
  deployed-kept c =
      mgr.get-mark_true_ne webhook_configured deployed (mark_true deployed c)
        (λ e. absurd ground arith) (λ e. absurd ground arith)
      ∙ mgr.get-mark_true deployed c (λ e. absurd ground arith)

  sink_provided-kept :
      (c : C)
      → get (mark_true webhook_configured (mark_true deployed c)) sink_provided
        ≡ get c sink_provided
  sink_provided-kept c =
      mgr.get-mark_true_ne webhook_configured sink_provided (mark_true deployed c)
        (λ e. absurd ground arith) (λ e. absurd ground arith)
      ∙ mgr.get-mark_true_ne deployed sink_provided c (λ e. absurd ground arith)
          (λ e. absurd ground arith)

  sink_provided-mark_sink :
      (uri : Option String) (s : GitLabSourceStatus C)
      → (get (mark_sink mgr uri s).conditions sink_provided ≡ is_true) ↔ (uri ≢ none)
  unfolding mark_sink
  sink_provided-mark_sink none s = (
    (λ e. absurd ground (
      arith,
      mgr.get-mark_false sink_provided "EmptySinkURI"
          (record { format = "The sink has no URI"; args = [] }) s.conditions,
    )),
    λ h. absurd (h refl),
  )
  sink_provided-mark_sink (some uri) s = (
    (λ e k. absurd ground arith),
    λ h. mgr.get-mark_true sink_provided s.conditions (λ e. absurd ground arith),
  )

  -- After `MarkSink`, `MarkDeployed` and `MarkWebhook` the source is ready just where there is a
  -- sink URI.
  ready-marked :
      (uri : Option String) (s : GitLabSourceStatus C)
      → (get
            (mark_true webhook_configured (mark_true deployed (mark_sink mgr uri s).conditions))
            ready
          ≡ is_true)
        ↔ (uri ≢ none)
  ready-marked uri s =
      let c = (mark_sink mgr uri s).conditions in
      let both =
        mgr.ready-mark_true webhook_configured (mark_true deployed c) (λ e. absurd ground arith) in
      let sink = sink_provided-mark_sink uri s in
      (
        (λ e. sink.0 (sym (sink_provided-kept c) ∙ (both.0 e).0)),
        λ h. both.1 (
          sink_provided-kept c ∙ sink.1 h,
          deployed-kept c,
          mgr.get-mark_true webhook_configured (mark_true deployed c) (λ e. absurd ground arith),
        ),
      )

  webhook_configured-kept :
      (uri : Option String) (s : GitLabSourceStatus C)
      → get (mark_true deployed (mark_sink mgr uri s).conditions) webhook_configured
        ≡ get s.conditions webhook_configured
  unfolding mark_sink
  webhook_configured-kept none s =
      mgr.get-mark_true_ne deployed webhook_configured (mark_sink mgr none s).conditions
        (λ e. absurd ground arith) (λ e. absurd ground arith)
      ∙ mgr.get-mark_false_ne sink_provided webhook_configured "EmptySinkURI"
          (record { format = "The sink has no URI"; args = [] }) s.conditions
          (λ e. absurd ground arith) (λ e. absurd ground arith)
  webhook_configured-kept (some uri) s =
      mgr.get-mark_true_ne deployed webhook_configured (mark_sink mgr (some uri) s).conditions
        (λ e. absurd ground arith) (λ e. absurd ground arith)
      ∙ mgr.get-mark_true_ne sink_provided webhook_configured s.conditions
          (λ e. absurd ground arith) (λ e. absurd ground arith)

  mark_sink-sink_uri :
      (uri : Option String) (s : GitLabSourceStatus C) → (mark_sink mgr uri s).sink_uri ≡ uri
  unfolding mark_sink
  mark_sink-sink_uri none s = refl
  mark_sink-sink_uri (some uri) s = refl

  mark_sink-webhook_id :
      (uri : Option String) (s : GitLabSourceStatus C)
      → (mark_sink mgr uri s).webhook_id ≡ s.webhook_id
  unfolding mark_sink
  mark_sink-webhook_id none s = refl
  mark_sink-webhook_id (some uri) s = refl

  -- The ends of a reconciliation without an error, from the status behind `MarkSink`. `FromSync`
  -- says which IDs the sync of the webhook gives for the adapter's URL.
  abbrev pub Outcome :
      (FromSync : String → ℕ → Type 0) → Service → (s s' : GitLabSourceStatus C) → Type 0
  Outcome FromSync adapter s s' =
      ((adapter.ready ≡ false) × (s' ≡ mark_not_deployed mgr "NotReady" not_ready s))
      ⊎ ((adapter.ready ≡ true) × (adapter.url ≡ none) × (s' ≡ mark_deployed mgr s))
      ⊎ ((adapter.ready ≡ true)
          × (url : String) × (adapter.url ≡ some url)
          × (hook_id : ℕ) × FromSync url hook_id
          × (s' ≡ mark_webhook mgr (record (mark_deployed mgr s) { webhook_id = some hook_id })))

  -- The end of a reconciliation without an error, from the status `s`: the adapter is not ready;
  -- or it has no URL, and the webhook stands as before; or the webhook is synced.
  abbrev pub SettledStatus :
      (FromSync : String → ℕ → Type 0) → Service → (s s' : GitLabSourceStatus C) → Type 0
  SettledStatus FromSync adapter s s' =
      ((adapter.ready ≡ false)
        × (get s'.conditions deployed ≡ is_false "NotReady" not_ready)
        × (get s'.conditions ready ≡ is_false "NotReady" not_ready)
        × (s'.webhook_id ≡ s.webhook_id))
      ⊎ ((adapter.ready ≡ true)
          × (adapter.url ≡ none)
          × (get s'.conditions deployed ≡ is_true)
          × (get s'.conditions webhook_configured ≡ get s.conditions webhook_configured)
          × (s'.webhook_id ≡ s.webhook_id))
      ⊎ ((adapter.ready ≡ true)
          × (url : String) × (adapter.url ≡ some url)
          × (hook_id : ℕ) × FromSync url hook_id
          × (s'.webhook_id ≡ some hook_id)
          × (get s'.conditions deployed ≡ is_true)
          × (get s'.conditions webhook_configured ≡ is_true)
          × ((get s'.conditions ready ≡ is_true) ↔ (s'.sink_uri ≢ none)))

  module _ (FromSync : String → ℕ → Type 0) (adapter : Service) where
    pub Outcome-SettledStatus :
        (uri : Option String) (s s' : GitLabSourceStatus C)
        → Outcome FromSync adapter (mark_sink mgr uri s) s'
        → SettledStatus FromSync adapter s s'
    unfolding mark_not_deployed mark_deployed mark_webhook
    Outcome-SettledStatus uri s s' (inl (down, e)) =
        let c = (mark_sink mgr uri s).conditions in
        subst (SettledStatus FromSync adapter s) (sym e) (
          inl (
            down,
            mgr.get-mark_false deployed "NotReady" not_ready c,
            mgr.ready-mark_false deployed "NotReady" not_ready c,
            mark_sink-webhook_id uri s,
          ))
    Outcome-SettledStatus uri s s' (inr (inl (up, unknown, e))) =
        let c = (mark_sink mgr uri s).conditions in
        subst (SettledStatus FromSync adapter s) (sym e) (
          inr (
            inl (
              up,
              unknown,
              mgr.get-mark_true deployed c (λ d. absurd ground arith),
              webhook_configured-kept uri s,
              mark_sink-webhook_id uri s,
            )))
    Outcome-SettledStatus uri s s' (inr (inr (up, url, known, hook_id, synced, e))) =
        let c = (mark_sink mgr uri s).conditions in
        subst (SettledStatus FromSync adapter s) (sym e) (
          inr (
            inr (
              up,
              url,
              known,
              hook_id,
              synced,
              refl,
              deployed-kept c,
              mgr.get-mark_true webhook_configured (mark_true deployed c)
                  (λ d. absurd ground arith),
              subst
                  (λ o.
                    (get (mark_true webhook_configured (mark_true deployed c)) ready ≡ is_true)
                    ↔ (o ≢ none))
                  (sym (mark_sink-sink_uri uri s)) (ready-marked uri s),
            )))
