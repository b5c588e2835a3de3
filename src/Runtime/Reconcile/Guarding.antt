-- ===== src/Runtime/Reconcile/Guarding.antt =====
-- `Reconcile` depends on `ReconcileKind` at sources with the finalizer alone, and on `FinalizeKind`
-- at sources that are being deleted alone.
use mathlib.Core.Path.{subst}
use eventing_gitlab.Base.{
  ◌≡◌, refl, sym, ap, ◌∙◌, Option, none, some, [], String, true, false, true, false, In, Bool-cases,
  inl, inr,
}
use eventing_gitlab.Errors.{Err, Result, ok, err, panic, attempt, wrapping, ◌>>=◌}
use eventing_gitlab.Errors.Continuing.{bind-agree, attempt-agree}
use eventing_gitlab.Errors.Guarded.{wrapping-eq-ok}
use eventing_gitlab.Source.Types.{GitLabSource}
use eventing_gitlab.Reconciler.Cluster.{World, Doing, calling, get_source}
use eventing_gitlab.Runtime.Impl.{ReconcilerImpl, Library, implements}
use eventing_gitlab.Runtime.State.{
  State, Method, do_reconcile_kind, do_observe_kind, do_finalize_kind, new_state,
  is_not_leader_nor_observer, reconcile_method_for, reconcile_method_for-eq-some_iff,
}
use eventing_gitlab.Runtime.Finalizers.{
  patched, send_patch, send_merge_patch, apply_as, send_apply,
  update_finalizers_filtered_merge_patch, update_finalizers_filtered_server_side_apply,
  update_finalizers_filtered, set_finalizer_if_finalizer, clear_finalizer, cleared, queried,
}
use eventing_gitlab.Runtime.StatusUpdate.{write_status, attempt_update, update_status}
use eventing_gitlab.Runtime.Reconcile.{
  reconcile_by, reconcile_found, reconcile_in, reconcile_state, reconcile, run, set_source, process,
  finish, error_of, synchronize_status, synchronize_resource, status_written, report, report_error,
}
use eventing_gitlab.Runtime.Reconcile.Marking.{
  Patching, Bears-eq-ok, set_finalizer_if_finalizer-Bears,
}

-- The reconciler with these two methods.
abbrev pub with_methods :
    {C W : Type 0}
    → (reconcile_kind finalize_kind : Doing C W (Unit {0})) → ReconcilerImpl C W
    → ReconcilerImpl C W
with_methods f k r = record r {
  reconciler = record (r.reconciler) { reconcile_kind = f; finalize_kind = some k };
}

module _ {C W : Type 0} (lib : Library C W) (r : ReconcilerImpl C W) (api : Patching r)
    (f g k l : Doing C W (Unit {0})) where
  abbrev first : ReconcilerImpl C W
  first = with_methods f k r

  abbrev second : ReconcilerImpl C W
  second = with_methods g l r

  finish_agrees :
      (s : State) (original : GitLabSource C) (e : Option Err) (w : World C W)
      → finish lib first s original e w ≡ finish lib second s original e w
  unfolding finish synchronize_status synchronize_resource status_written report report_error
      update_status attempt_update write_status
  finish_agrees s original e w = refl

  set_finalizer_agrees :
      (original : GitLabSource C) (w : World C W)
      → set_finalizer_if_finalizer lib first original w
        ≡ set_finalizer_if_finalizer lib second original w
  unfolding set_finalizer_if_finalizer update_finalizers_filtered
      update_finalizers_filtered_merge_patch update_finalizers_filtered_server_side_apply send_apply
      apply_as send_merge_patch send_patch patched
  set_finalizer_agrees original w = refl

  -- What the branch of `ReconcileKind` does behind `setFinalizerIfFinalizer`.
  abbrev behind :
      ReconcilerImpl C W → State → (original marked : GitLabSource C) → Doing C W (Unit {0})
  behind r' s original marked = set_source marked >>= λ _.
      process lib r' lib.pre_process_reconcile >>= λ _.
      attempt r'.reconciler.reconcile_kind >>= λ result.
      process lib r' (lib.post_process_reconcile original) >>= λ _.
      finish lib r' s original (error_of result)

  -- What the branch of `FinalizeKind` does behind it.
  abbrev released_behind :
      ReconcilerImpl C W
      → State
      → (original : GitLabSource C) → Result (Unit {0})
      → Doing C W (Unit {0})
  released_behind r' s original result = get_source >>= λ resource.
      wrapping "failed to clear finalizers: %w" []
        (clear_finalizer lib r' resource (error_of result))
      >>= λ updated. set_source updated >>= λ _. finish lib r' s original (error_of result)

  module _
      (kept : (o : GitLabSource C)
        → (lib.pre_process_reconcile o).metadata.finalizers ≡ o.metadata.finalizers)
      (on_marked : (w : World C W) → In r.finalizer_name w.source.metadata.finalizers → f w ≡ g w)
      (on_deleting : (w : World C W) → w.source.metadata.deleting ≡ true → k w ≡ l w) where
    prepared-In :
        (marked : GitLabSource C) (w : World C W)
        → In r.finalizer_name marked.metadata.finalizers
        → In r.finalizer_name
            (process lib first lib.pre_process_reconcile
              (record w { source = marked })).1.source.metadata.finalizers
    unfolding process
    prepared-In marked w bears = elim (Bool-cases r.skip_status_updates) [
      | inl skip ↦ rw (skip) bears
      | inr all ↦ rw (all) (subst (In r.finalizer_name) (sym (kept marked)) bears)
    ]

    behind_agrees :
        (s : State) (original marked : GitLabSource C) (w : World C W)
        → In r.finalizer_name marked.metadata.finalizers
        → behind first s original marked w ≡ behind second s original marked w
    unfolding process
    behind_agrees s original marked w bears =
        let v = (process lib first lib.pre_process_reconcile (record w { source = marked })).1 in
        attempt-agree f g
          (λ result. process lib first (lib.post_process_reconcile original) >>= λ _.
            finish lib first s original (error_of result))
          (λ result. process lib second (lib.post_process_reconcile original) >>= λ _.
            finish lib second s original (error_of result))
          v (on_marked v (prepared-In marked w bears))
          (λ result v'.
            finish_agrees s original (error_of result)
              (process lib first (lib.post_process_reconcile original) v').1)

    reconciling_agrees :
        (s : State) (original : GitLabSource C) (w : World C W)
        → original.metadata.deleting ≡ false
        → reconcile_by lib first s original (some do_reconcile_kind) w
          ≡ reconcile_by lib second s original (some do_reconcile_kind) w
    unfolding reconcile_by
    reconciling_agrees s original w alive =
        let marking =
          wrapping "failed to set finalizers: %w" []
            (set_finalizer_if_finalizer lib first original) in
        bind-agree marking (behind first s original) (behind second s original) w (λ marked w' h.
          behind_agrees s original marked w' (
            Bears-eq-ok lib first (record { applies = api.applies }) marked
              (set_finalizer_if_finalizer lib first original w)
              (set_finalizer_if_finalizer-Bears lib first (record { applies = api.applies })
                original w refl alive)
              (wrapping-eq-ok "failed to set finalizers: %w" []
                (set_finalizer_if_finalizer lib first original) w (ap (λ t. t.0) h))))
        ∙ ap (λ t. ((λ _. t) >>= behind second s original) w)
            (ap (λ t. wrapping "failed to set finalizers: %w" [] (λ _. t) w)
              (set_finalizer_agrees original w))

    finalizing_agrees :
        (s : State) (original : GitLabSource C) (w : World C W)
        → original.metadata.deleting ≡ true
        → reconcile_by lib first s original (some do_finalize_kind) w
          ≡ reconcile_by lib second s original (some do_finalize_kind) w
    unfolding reconcile_by get_source clear_finalizer set_finalizer_if_finalizer
        update_finalizers_filtered update_finalizers_filtered_merge_patch
        update_finalizers_filtered_server_side_apply send_apply apply_as send_merge_patch send_patch
        patched cleared queried finish synchronize_status synchronize_resource status_written report
        report_error update_status attempt_update write_status
    finalizing_agrees s original w gone =
        attempt-agree k l (released_behind first s original) (released_behind second s original)
          (record w { source = original }) (on_deleting (record w { source = original }) gone)
          (λ result v. refl)

    reconcile_by_agrees :
        (s : State) (original : GitLabSource C) (m : Option Method) (w : World C W)
        → (m ≡ some do_reconcile_kind → original.metadata.deleting ≡ false)
        → (m ≡ some do_finalize_kind → original.metadata.deleting ≡ true)
        → reconcile_by lib first s original m w ≡ reconcile_by lib second s original m w
    unfolding reconcile_by
    reconcile_by_agrees s original (some do_reconcile_kind) w alive gone =
        reconciling_agrees s original w (alive refl)
    reconcile_by_agrees s original (some do_finalize_kind) w alive gone =
        finalizing_agrees s original w (gone refl)
    reconcile_by_agrees s original (some do_observe_kind) w alive gone =
        attempt-agree (run lib r r.reconciler.observe_kind) (run lib r r.reconciler.observe_kind)
          (λ result. finish lib first s original (error_of result))
          (λ result. finish lib second s original (error_of result))
          (record w { source = original }) refl
          (λ result. finish_agrees s original (error_of result))
    reconcile_by_agrees s original none w alive gone =
        finish_agrees s original none (record w { source = original })

    reconcile_found_agrees :
        (s : State) (result : Result (GitLabSource C)) (w : World C W)
        → reconcile_found lib first s result w ≡ reconcile_found lib second s result w
    unfolding reconcile_found
    reconcile_found_agrees s (ok original) w =
        let (live, gone, neither) = reconcile_method_for-eq-some_iff s original in
        reconcile_by_agrees s original (reconcile_method_for true s original) w (λ h. (live.0 h).1)
          (λ h. (gone.0 h).1)
    reconcile_found_agrees s (err e) w = refl
    reconcile_found_agrees s panic w = refl

    -- `Reconcile` runs `ReconcileKind` only on a source that has the reconciler's finalizer, and
    -- `FinalizeKind` only on a source that is being deleted: a run does not tell apart two
    -- `ReconcileKind`s that agree on the sources with the finalizer and two `FinalizeKind`s that agree
    -- on the sources being deleted, where the API applies the patches it accepts and
    -- `PreProcessReconcile` keeps the finalizers.
    pub reconcile_guarded :
        (key : String) (w : World C W) → reconcile lib first key w ≡ reconcile lib second key w
    unfolding reconcile reconcile_state reconcile_in
    reconcile_guarded key w = by_state (
        new_state lib.split_meta_namespace_key r.is_leader_for
          (implements r.reconciler.observe_kind) key)
      where
        by_state :
            (s : Result State) → reconcile_state lib first s w ≡ reconcile_state lib second s w
        by_state (err e) = refl
        by_state panic = refl
        by_state (ok s) = elim (Bool-cases (is_not_leader_nor_observer s)) [
          | inl skip ↦ rw (skip) refl
          | inr runs ↦ rw (runs) (
              attempt-agree (calling (r.lister s.namespace s.name))
                (calling (r.lister s.namespace s.name)) (reconcile_found lib first s)
                (reconcile_found lib second s) w refl (reconcile_found_agrees s))
        ]
