-- ===== src/Runtime/Reconcile/Releasing.antt =====
-- When a run gives up the finalizer of a source that is being deleted.
use mathlib.Core.Path.{subst}
use eventing_gitlab.Base.{
  ℕ, ◌≡◌, ◌⊎◌, inl, inr, refl, sym, ap, ◌∙◌, none, some, [], String, true, false, arith,
}
use eventing_gitlab.Errors.{
  as_event, Err, as_response, Result, ok, err, panic, attempt, wrapping, ◌>>=◌,
}
use eventing_gitlab.Errors.Guarded.{Guarded}
use eventing_gitlab.Errors.Continuing.{attempt-agree_at}
use eventing_gitlab.Source.Types.{GitLabSource}
use eventing_gitlab.Source.Status.{ConditionManager}
use eventing_gitlab.Client.Webhooks.{WebhookClient}
use eventing_gitlab.Reconciler.Cluster.{World, Services, Doing, get_source}
use eventing_gitlab.Reconciler.Kind.{finalize_kind}
use eventing_gitlab.Reconciler.Kind.Finalizing.{
  Finalized, finalize_kind-Finalized, finalize_kind_released,
}
use eventing_gitlab.Runtime.Impl.{Patch, ReconcilerImpl, Library}
use eventing_gitlab.Runtime.State.{State, do_finalize_kind, reconcile_method_for}
use eventing_gitlab.Runtime.Finalizers.{released, clear_finalizer}
use eventing_gitlab.Runtime.Finalizers.Laws.{
  released-plain, released-warning, clear_finalizer_unreleased,
}
use eventing_gitlab.Runtime.StatusUpdate.{write_status, attempt_update, update_status}
use eventing_gitlab.Runtime.Reconcile.{
  reconcile_by, reconcile_found, reconcile, set_source, finish, error_of, synchronize_status,
  synchronize_resource, status_written, report, report_error,
}
use eventing_gitlab.Runtime.Reconcile.Finding.{reconcile-found}
use eventing_gitlab.Runtime.Reconcile.Source.{source_reconciler}

module _ {C W : Type 0} (lib : Library C W) (r : ReconcilerImpl C W) where
  -- The run finds, for a key that it leads, this source in the lister, which is being deleted.
  pub record Deleting (key : String) (w : World C W) : Type 0 where
    pub namespace : String
    pub name : String
    pub original : GitLabSource C
    pub environment : W
    pub split : lib.split_meta_namespace_key key ≡ ok (namespace, name)
    pub leads : r.is_leader_for namespace name ≡ true
    pub found : r.lister namespace name w.environment ≡ (ok original, environment)
    pub gone : original.metadata.deleting ≡ true

module _ {C W : Type 0} (mgr : ConditionManager C) (env : Services C W) (lib : Library C W)
    (r : ReconcilerImpl C W) where
  -- The reconciler with the implementation in pkg/reconciler/source, and a client that patches so.
  abbrev pub patching_by :
      ((namespace name : String) → Patch → W → Result (GitLabSource C) × W) → ReconcilerImpl C W
  patching_by p = record r {
    reconciler = source_reconciler mgr env;
    client = record (r.client) { patch = p };
  }

  module _ (key : String) (w : World C W) (deletion : Deleting lib r key w) where
    open deletion use {namespace, name, original, environment}

    abbrev state : State
    state = record {
      key = key;
      namespace = namespace;
      name = name;
      is_roi = false;
      is_leader = r.is_leader_for namespace name;
    }

    -- The world that `FinalizeKind` starts from.
    abbrev pub start : World C W
    start = record w { source = original; environment = environment }

    -- What GitLab answers to the client of the source is no Kubernetes event.
    abbrev pub Plain : ℕ → Type 0
    Plain hook_id =
        (cli : WebhookClient W) (e e' : W) (x : Err)
        → env.get_client original environment ≡ (ok cli, e)
        → cli.delete hook_id e ≡ (err x, e')
        → as_event x ≡ none

    -- An error of `FinalizeKind` does not release the source.
    Finalized-Unreleased :
        (hook_id : ℕ)
        → Plain hook_id
        → (y : Err) (v : World C W) → Finalized mgr env (some hook_id) start (err y, v)
        → released (some y) ≡ false
    Finalized-Unreleased hook_id plain y v (inl (cli, e, got, (deleted, same))) =
        released-plain y (plain cli e v.environment y got deleted)
    Finalized-Unreleased hook_id plain y v (inr (inl (x, e, got, (same, is)))) =
        ap (λ t. released (some t)) is
        ∙ released-warning "ClientError" "Error obtaining GitLab webhook client: %s" x
    Finalized-Unreleased hook_id plain y v (inr (inr p)) = cc

    finalize_kind-Unreleased :
        {hook_id : ℕ}
        → original.status.webhook_id ≡ some hook_id
        → Plain hook_id
        → (y : Err) (v : World C W) → finalize_kind mgr env start ≡ (err y, v)
        → released (some y) ≡ false
    finalize_kind-Unreleased {hook_id} has plain y v ends = Finalized-Unreleased hook_id plain y v (
        subst (Finalized mgr env (some hook_id) start) ends (
          subst (λ o. Finalized mgr env o start (finalize_kind mgr env start)) has
            (finalize_kind-Finalized mgr env start)))

    -- The run behind `FinalizeKind`.
    abbrev behind : ReconcilerImpl C W → Result (Unit {0}) → Doing C W (Unit {0})
    behind r' result = get_source >>= λ resource.
        wrapping "failed to clear finalizers: %w" []
          (clear_finalizer lib r' resource (error_of result))
        >>= λ updated. set_source updated >>= λ _. finish lib r' state original (error_of result)

    method : reconcile_method_for true state original ≡ some do_finalize_kind
    unfolding reconcile_method_for
    method = ground (arith, deletion.leads, deletion.gone)

    reconcile-behind :
        (p : (namespace name : String) → Patch → W → Result (GitLabSource C) × W)
        → reconcile lib (patching_by p) key w
          ≡ (attempt (finalize_kind mgr env) >>= behind (patching_by p)) start
    unfolding reconcile_found reconcile_by get_source
    reconcile-behind p =
        reconcile-found lib (patching_by p) key namespace name original w environment deletion.split
          deletion.leads deletion.found
        ∙ ap
            (λ m.
              reconcile_by lib (patching_by p) state original m
                (record w { environment = environment }))
            method

    -- The hook was deleted, or the Secret with the token is missing.
    abbrev pub Released : ℕ → Type 0
    Released hook_id =
        ((cli : WebhookClient W) × (e : W) × (e' : W) × (env.get_client original environment
            ≡ (ok cli, e))
          × (cli.delete hook_id e ≡ (ok tt, e')))
        ⊎ ((x : Err) × (e : W) × (env.get_client original environment ≡ (err x, e))
            × (env.is_not_found x ≡ true))

    Released-by :
        {hook_id : ℕ}
        → original.status.webhook_id ≡ some hook_id
        → Guarded (λ x. as_response x ≡ none) (env.get_client original environment).0
        → (v : World C W) → finalize_kind mgr env start ≡ (ok tt, v)
        → Released hook_id
    Released-by has quiet v ends =
        elim (finalize_kind_released mgr env start has quiet (ap (λ t. t.0) ends)) [
          | inl (cli, e, got, deleted) ↦ inl (cli, e, _, got, deleted)
          | inr missing ↦ inr missing
        ]

    module _ (p q : (namespace name : String) → Patch → W → Result (GitLabSource C) × W) where
      behind_agrees :
          (result : Result (Unit {0})) (v : World C W)
          → released (error_of result) ≡ false
          → behind (patching_by p) result v ≡ behind (patching_by q) result v
      unfolding get_source finish synchronize_status synchronize_resource status_written report
          report_error update_status attempt_update write_status
      behind_agrees result v held =
          ap
            (λ t.
              (wrapping "failed to clear finalizers: %w" [] (λ _. t) >>= λ updated.
              set_source updated >>= λ _.
              finish lib (patching_by p) state original (error_of result))
                v)
            (clear_finalizer_unreleased lib (patching_by p) v.source (error_of result) v held)
          ∙ sym (
              ap
                (λ t.
                  (wrapping "failed to clear finalizers: %w" [] (λ _. t) >>= λ updated.
                  set_source updated >>= λ _.
                  finish lib (patching_by q) state original (error_of result))
                    v)
                (clear_finalizer_unreleased lib (patching_by q) v.source (error_of result) v held))

      -- `FinalizeKind` ends with a result that does not release the source.
      unpatched :
          (v : World C W) (result : Result (Unit {0}))
          → finalize_kind mgr env start ≡ (result, v)
          → released (error_of result) ≡ false
          → reconcile lib (patching_by p) key w ≡ reconcile lib (patching_by q) key w
      unpatched v result ends held =
          reconcile-behind p
          ∙ attempt-agree_at (finalize_kind mgr env) (behind (patching_by p))
              (behind (patching_by q)) start
              (λ result' v' ends'.
                behind_agrees result' v'
                  (ap (λ t. released (error_of t.0)) (sym ends' ∙ ends) ∙ held))
          ∙ sym (reconcile-behind q)

      -- A run of the leader for a source with a hook that is being deleted touches the finalizer only
      -- after `Delete` has removed the hook from GitLab or where the Secret with the token is missing:
      -- in any other case the run does not depend on how the API patches. The error of the client's
      -- getter, if it fails, is to be no answer of GitLab, it does not panic, and the errors of
      -- `Delete` are no events.
      pub reconcile_releases :
          {hook_id : ℕ}
          → original.status.webhook_id ≡ some hook_id
          → Guarded (λ x. as_response x ≡ none) (env.get_client original environment).0
          → Plain hook_id
          → (reconcile lib (patching_by p) key w ≡ reconcile lib (patching_by q) key w)
            ⊎ Released hook_id
      reconcile_releases {hook_id} has quiet plain = by_end (finalize_kind mgr env start) refl
        where
          by_end :
              (x : Result (Unit {0}) × World C W)
              → finalize_kind mgr env start ≡ x
              → (reconcile lib (patching_by p) key w ≡ reconcile lib (patching_by q) key w)
                ⊎ Released hook_id
          by_end (ok u, v) ends = inr (Released-by has quiet v ends)
          by_end (err y, v) ends =
              inl (unpatched v (err y) ends (finalize_kind-Unreleased has plain y v ends))
          by_end (panic, v) ends = inl (
              reconcile-behind p
              ∙ ap (λ t. (attempt (λ _. t) >>= behind (patching_by p)) start) ends
              ∙ sym (
                  reconcile-behind q
                  ∙ ap (λ t. (attempt (λ _. t) >>= behind (patching_by q)) start) ends))
