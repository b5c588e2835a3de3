-- ===== src/Reconciler/Kind/Finalizing.antt =====
-- What `FinalizeKind` has done when it returns.
use mathlib.Core.Path.{subst}
use eventing_gitlab.Base.{
  ℕ, ◌≡◌, refl, ◌⊎◌, inl, inr, Option, none, some, ◌∷◌, true, arith, Bool-cases,
}
use eventing_gitlab.Errors.{Err, event, as_response, warning, Result, ok, err, panic, ◌>>=◌}
use eventing_gitlab.Errors.Guarded.{Guarded}
use eventing_gitlab.Source.Status.{ConditionManager}
use eventing_gitlab.Client.Webhooks.{WebhookClient}
use eventing_gitlab.Reconciler.Cluster.{
  World, Services, Recorded, calling, get_source, update_status,
}
use eventing_gitlab.Reconciler.Calls.{Ending-calling}
use eventing_gitlab.Reconciler.Kind.{is_denied, finalize_with, finalize_hook, finalize_kind}

-- The error stands for a client that could not be had and that is not waited for.
abbrev pub IsIgnored : {C W : Type 0} → Services C W → Err → Type 0
IsIgnored env x = (env.is_not_found x ≡ true) ⊎ (as_response x ≡ some 401)

is_denied-true : (x : Err) → is_denied x ≡ true → as_response x ≡ some 401
unfolding is_denied
is_denied-true x h = ground arith

module _ {C W : Type 0} (mgr : ConditionManager C) (env : Services C W) where
  -- How the hook's deletion by `cli` in the environment `e` ends.
  abbrev pub Deleted : WebhookClient W → ℕ → World C W → W → Result (Unit {0}) × World C W → Type 0
  Deleted cli hook_id w e (ok u, w') =
      (cli.delete hook_id e ≡ (ok tt, w'.environment))
      × (w'.source.status.webhook_id ≡ none)
      × (w'.recorded ≡ w.recorded)
  Deleted cli hook_id w e (err x, w') =
      (cli.delete hook_id e ≡ (err x, w'.environment)) × (w'.source ≡ w.source)
  Deleted cli hook_id w e (panic, w') = Unit

  -- How it ends without a client, because of `x`, in the environment `e`.
  abbrev pub Skipped : Err → World C W → W → Result (Unit {0}) × World C W → Type 0
  Skipped x w e (ok u, w') =
      IsIgnored env x
      × (w'.source ≡ w.source)
      × (w'.environment ≡ e)
      × ((r : Recorded) × (r.severity ≡ warning) × (w'.recorded ≡ r ∷ w.recorded))
  Skipped x w e (err y, w') =
      (w' ≡ record w { environment = e })
      × (y ≡ event warning "ClientError" "Error obtaining GitLab webhook client: %s" x)
  Skipped x w e (panic, w') = ⊥

  abbrev pub Finalized : Option ℕ → World C W → Result (Unit {0}) × World C W → Type 0
  Finalized none w r = r ≡ (ok tt, w)
  Finalized (some hook_id) w r =
      ((cli : WebhookClient W) × (e : W) × (env.get_client w.source w.environment ≡ (ok cli, e))
        × Deleted cli hook_id w e r)
      ⊎ ((x : Err) × (e : W) × (env.get_client w.source w.environment ≡ (err x, e))
          × Skipped x w e r)
      ⊎ (r.0 ≡ panic)

  finalize_with-Deleted :
      (hook_id : ℕ) (cli : WebhookClient W) (w : World C W) (e : W)
      → Deleted cli hook_id w e
          (finalize_with mgr env hook_id (ok cli) (record w { environment = e }))
  unfolding finalize_with
  finalize_with-Deleted hook_id cli w e = by_outcome (cli.delete hook_id e) refl
    where
      by_outcome :
          (r : Result (Unit {0}) × W)
          → cli.delete hook_id e ≡ r
          → Deleted cli hook_id w e (
              (calling (λ _. r) >>= λ _. update_status (λ s. record s { webhook_id = none }))
                (record w { environment = e }))
      by_outcome (ok u, e') h = (h, refl, refl)
      by_outcome (err x, e') h = (h, refl)
      by_outcome (panic, e') h = tt

  finalize_with-Skipped :
      (hook_id : ℕ) (x : Err) (w : World C W) (e : W)
      → Skipped x w e (finalize_with mgr env hook_id (err x) (record w { environment = e }))
  unfolding finalize_with
  finalize_with-Skipped hook_id x w e = elim (Bool-cases (env.is_not_found x)) [
    | inl gone ↦ rw (gone, Skipped) (inl gone, refl, refl, (_, refl, refl))
    | inr other ↦ elim (Bool-cases (is_denied x)) [
      | inl denied ↦
          rw (other, Skipped)
            (rw (denied, Skipped) (inr (is_denied-true x denied), refl, refl, (_, refl, refl)))
      | inr allowed ↦ rw (other, Skipped) (rw (allowed, Skipped) (refl, refl))
    ]
  ]

  finalize_hook-Finalized :
      (hook : Option ℕ) (w : World C W) → Finalized hook w (finalize_hook mgr env hook w)
  unfolding finalize_hook get_source
  finalize_hook-Finalized none w = refl
  finalize_hook-Finalized (some hook_id) w =
      Ending-calling (Finalized (some hook_id) w) (env.get_client w.source)
        (finalize_with mgr env hook_id) w
        (λ cli e h. inl (cli, e, h, finalize_with-Deleted hook_id cli w e))
        (λ x e h. inr (inl (x, e, h, finalize_with-Skipped hook_id x w e))) (λ w'. inr (inr refl))

  -- `FinalizeKind` leaves a source without a hook alone. It clears the ID just when `Delete`
  -- succeeds, and returns the error of `Delete` otherwise; where there is no client it deletes
  -- nothing, and returns no error only with a warning event and for an error that is to be ignored,
  -- and a warning event with the error otherwise.
  pub finalize_kind-Finalized :
      (w : World C W) → Finalized w.source.status.webhook_id w (finalize_kind mgr env w)
  unfolding finalize_kind get_source
  finalize_kind-Finalized w = finalize_hook-Finalized w.source.status.webhook_id w

  Finalized-released :
      (hook_id : ℕ) (w : World C W) (r : Result (Unit {0}) × World C W)
      → Guarded (λ x. as_response x ≡ none) (env.get_client w.source w.environment).0
      → Finalized (some hook_id) w r
      → r.0 ≡ ok tt
      → ((cli : WebhookClient W) × (e : W) × (env.get_client w.source w.environment ≡ (ok cli, e))
          × (cli.delete hook_id e ≡ (ok tt, r.1.environment)))
        ⊎ ((x : Err) × (e : W) × (env.get_client w.source w.environment ≡ (err x, e))
            × (env.is_not_found x ≡ true))
  Finalized-released hook_id w (ok u, w') quiet (inl (cli, e, h, (d, _, _))) k = inl (cli, e, h, d)
  Finalized-released hook_id w (ok u, w') quiet (inr (inl (x, e, h, (inl gone, _, _, _)))) k =
      inr (x, e, h, gone)
  Finalized-released hook_id w (ok u, w') quiet (inr (inl (x, e, h, (inr denied, _, _, _)))) k =
      absurd ground arith
  Finalized-released hook_id w (ok u, w') quiet (inr (inr p)) k = absurd ground arith
  Finalized-released hook_id w (err x, w') quiet f k = absurd ground arith
  Finalized-released hook_id w (panic, w') quiet f k = absurd ground arith

  -- Where the error of the client's getter, if it fails, is no answer of GitLab and it does not
  -- panic, `FinalizeKind` returns no error for a source with a hook only after `Delete` succeeded
  -- or where the getter's error is that of a missing Secret.
  pub finalize_kind_released :
      (w : World C W) {hook_id : ℕ}
      → w.source.status.webhook_id ≡ some hook_id
      → Guarded (λ x. as_response x ≡ none) (env.get_client w.source w.environment).0
      → (finalize_kind mgr env w).0 ≡ ok tt
      → ((cli : WebhookClient W) × (e : W) × (env.get_client w.source w.environment ≡ (ok cli, e))
          × (cli.delete hook_id e ≡ (ok tt, (finalize_kind mgr env w).1.environment)))
        ⊎ ((x : Err) × (e : W) × (env.get_client w.source w.environment ≡ (err x, e))
            × (env.is_not_found x ≡ true))
  finalize_kind_released w {hook_id} has quiet k =
      Finalized-released hook_id w (finalize_kind mgr env w) quiet
        (subst (λ o. Finalized o w (finalize_kind mgr env w)) has (finalize_kind-Finalized w)) k
