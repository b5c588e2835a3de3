-- ===== src/Runtime/Reconcile/Source.antt =====
-- `Reconcile` around the `ReconcileKind` of pkg/reconciler/source.
use mathlib.Core.Path.{subst}
use eventing_gitlab.Base.{
  ◌≡◌, refl, sym, ap, ◌∙◌, ◌⊎◌, inl, inr, none, some, List, ◌∷◌, String, true, false, arith,
}
use eventing_gitlab.Errors.{Err, is_event, Result, ok, err, panic}
use eventing_gitlab.Source.Types.{GitLabSource, GitLabSourceStatus}
use eventing_gitlab.Source.Status.{ConditionManager, Message, ready, is_false}
use eventing_gitlab.Reconciler.Cluster.{World, Services, Recorded}
use eventing_gitlab.Reconciler.Sync.Keeping.{Keeps}
use eventing_gitlab.Reconciler.Sync.Laws.{NotReady}
use eventing_gitlab.Reconciler.Kind.{reconcile_kind, finalize_kind}
use eventing_gitlab.Reconciler.Kind.Keeping.{reconcile_kind-Keeps}
use eventing_gitlab.Reconciler.Kind.Laws.{reconcile_kind-NotReady}
use eventing_gitlab.Runtime.Impl.{Interface, ReconcilerImpl, Library}
use eventing_gitlab.Runtime.StatusUpdate.Retrying.{Retries}
use eventing_gitlab.Runtime.StatusUpdate.Stored.{named, Store}
use eventing_gitlab.Runtime.Reconcile.{reconcile}
use eventing_gitlab.Runtime.Reconcile.Finishing.{update_failed, Synced, Finished}
use eventing_gitlab.Runtime.Reconcile.Live.{Live, start, processed, Ends, KeepsName, reconcile-Ends}

module _ {C W : Type 0} (mgr : ConditionManager C) (env : Services C W) where
  -- The implementation in pkg/reconciler/source: a `Finalizer` and no observer.
  abbrev pub source_reconciler : Interface C W
  source_reconciler = record {
    reconcile_kind = reconcile_kind mgr env;
    finalize_kind = some (finalize_kind mgr env);
    observe_kind = none;
    observe_deletion = none;
  }

module _ {C W : Type 0} (mgr : ConditionManager C) (env : Services C W) (lib : Library C W)
    (r : ReconcilerImpl C W) where
  -- The work before and after `ReconcileKind`, and the equality of statuses: the metadata stays, a
  -- false `Ready` condition stays, and equal statuses agree on `Ready`.
  pub record Processing : Type 0 where
    pub deep_equal-refl : (s : GitLabSourceStatus C) → lib.deep_equal s s ≡ true
    pub deep_equal-ready :
        (s t : GitLabSourceStatus C)
        → lib.deep_equal s t ≡ true
        → mgr.get s.conditions ready ≡ mgr.get t.conditions ready
    pub pre_process-metadata :
        (o : GitLabSource C) → (lib.pre_process_reconcile o).metadata ≡ o.metadata
    pub post_process-metadata :
        (original o : GitLabSource C)
        → (lib.post_process_reconcile original o).metadata ≡ o.metadata
    pub post_process-ready :
        (original o : GitLabSource C) (reason : String) (m : Message)
        → mgr.get o.status.conditions ready ≡ is_false reason m
        → mgr.get (lib.post_process_reconcile original o).status.conditions ready
          ≡ is_false reason m

  module _ (processing : Processing) (store : Store r) (again : Retries lib r)
      (ours : r.reconciler ≡ source_reconciler mgr env) (all : r.skip_status_updates ≡ false) where
    open processing use {deep_equal-refl}

    abbrev NotReadyStatus : GitLabSourceStatus C → Type 0
    NotReadyStatus s =
        (reason : String) × (m : Message) × (mgr.get s.conditions ready ≡ is_false reason m)

    -- The lister's source was not ready, or the API holds a status for it that is not.
    abbrev pub NotReadyKept : (original : GitLabSource C) → World C W → Type 0
    NotReadyKept original w =
        NotReadyStatus original.status
        ⊎ ((s : GitLabSourceStatus C) × (store.stored w.environment (named original) ≡ some s)
            × NotReadyStatus s)

    -- How a run ends whose `ReconcileKind` has returned the error `e`.
    abbrev pub Failed : (original : GitLabSource C) → Err → Result (Unit {0}) × World C W → Type 0
    Failed original e (ok u, w) = (is_event e ≡ true) × NotReadyKept original w
    Failed original e (err x, w) =
        ((is_event e ≡ false) × (x ≡ e) × NotReadyKept original w)
        ⊎ ((earlier : List Recorded) × (w.recorded ≡ update_failed x ∷ earlier))
    Failed original e (panic, w) = Unit

    Synced-NotReadyKept :
        (original resource : GitLabSource C) (w : World C W)
        → named resource ≡ named original
        → NotReadyStatus resource.status
        → Synced lib r store deep_equal-refl again original resource w
        → NotReadyKept original w
    Synced-NotReadyKept original resource w same (reason, m, h) (inl equal) =
        inl (reason, m, processing.deep_equal-ready original.status resource.status equal ∙ h)
    Synced-NotReadyKept original resource w same (reason, m, h) (inr (s, held, equal)) = inr (
      s,
      ap (store.stored w.environment) (sym same) ∙ held,
      (reason, m, processing.deep_equal-ready s resource.status equal ∙ h),
    )

    Finished-Failed :
        (original resource : GitLabSource C) (e : Err) (x : Result (Unit {0}) × World C W)
        → named resource ≡ named original
        → NotReadyStatus resource.status
        → Finished lib r store deep_equal-refl again original resource (some e) x
        → Failed original e x
    Finished-Failed original resource e (ok u, w) same unready (h, synced) =
        (ground arith, Synced-NotReadyKept original resource w same unready synced)
    Finished-Failed original resource e (err x, w) same unready (inl (h, synced)) =
        inl
          (ground arith, ground arith, Synced-NotReadyKept original resource w same unready synced)
    Finished-Failed original resource e (err x, w) same unready (inr failed) = inr failed
    Finished-Failed original resource e (panic, w) same unready h = tt

    module _ (key : String) (w : World C W) (run : Live lib r key w) where
      open run use {original}

      abbrev begin : World C W
      begin = start lib r key w run

      post_named :
          (v : World C W)
          → v.source.metadata ≡ begin.source.metadata
          → named (processed lib r key w run v).source ≡ named original
      post_named v kept =
          ap (λ m. (m.namespace, m.name))
            (processing.post_process-metadata original v.source
              ∙ kept
              ∙ processing.pre_process-metadata original)

      Keeps-KeepsName :
          (x : Result (Unit {0}) × World C W)
          → Keeps begin.source x
          → KeepsName lib r key w run store deep_equal-refl again x
      Keeps-KeepsName (ok u, v) kept = post_named v kept
      Keeps-KeepsName (err e, v) kept = post_named v kept
      Keeps-KeepsName (panic, v) kept = tt

      -- `Failed`, where `ReconcileKind` has returned an error.
      abbrev pub FailedBy : Result (Unit {0}) × World C W → Result (Unit {0}) × World C W → Type 0
      FailedBy (ok u, v) x = Unit
      FailedBy (err e, v) x = Failed original e x
      FailedBy (panic, v) x = Unit

      Ends-FailedBy :
          (x : Result (Unit {0}) × World C W)
          → Keeps begin.source x
          → NotReady mgr env {A = Unit {0}} x
          → Ends lib r key w run store deep_equal-refl again x (reconcile lib r key w)
          → FailedBy x (reconcile lib r key w)
      Ends-FailedBy (ok u, v) kept unready ends = tt
      Ends-FailedBy (panic, v) kept unready ends = tt
      Ends-FailedBy (err e, v) kept (reason, m, f) ends =
          Finished-Failed original (processed lib r key w run v).source e (reconcile lib r key w)
            (post_named v kept)
            (reason, m, processing.post_process-ready original v.source reason m f) ends

      -- A run of the leader for a source that is not being deleted and has the finalizer: when the
      -- `ReconcileKind` of pkg/reconciler/source returns an error or a warning event, then, unless the
      -- update of the status failed, which is returned and recorded, a false `Ready` condition is kept:
      -- the source in the lister had one already, or the API holds a status with one. The run returns
      -- the error, and no error for a bare event.
      pub reconcile-FailedBy : FailedBy (reconcile_kind mgr env begin) (reconcile lib r key w)
      reconcile-FailedBy =
          let kept = reconcile_kind-Keeps mgr env begin.source begin refl in
          let same : r.reconciler.reconcile_kind begin ≡ reconcile_kind mgr env begin =
            ap (λ i. i.reconcile_kind begin) ours in
          let ends = reconcile-Ends lib r key w run store deep_equal-refl again all (
            subst (KeepsName lib r key w run store deep_equal-refl again) (sym same)
              (Keeps-KeepsName (reconcile_kind mgr env begin) kept)) in
          Ends-FailedBy (reconcile_kind mgr env begin) kept (reconcile_kind-NotReady mgr env begin)
            (subst (λ t. Ends lib r key w run store deep_equal-refl again t (reconcile lib r key w))
              same ends)
