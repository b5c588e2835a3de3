-- ===== src/Runtime/Reconcile/Live.antt =====
-- A whole run of the leader for a source that is not being deleted and has the finalizer.
use mathlib.Core.Path.{subst}
use eventing_gitlab.Base.{
  ◌≡◌, refl, sym, ap, ◌∙◌, inl, inr, none, some, [], String, true, false, arith, In, if◌then◌else◌,
}
use eventing_gitlab.Errors.{Result, ok, err, panic, attempt, wrapping, ◌>>=◌}
use eventing_gitlab.Errors.Continuing.{bind-ok}
use eventing_gitlab.Source.Types.{GitLabSource, GitLabSourceStatus}
use eventing_gitlab.Reconciler.Cluster.{World, Doing}
use eventing_gitlab.Runtime.Impl.{ReconcilerImpl, Library, implements}
use eventing_gitlab.Runtime.State.{State, do_reconcile_kind, reconcile_method_for}
use eventing_gitlab.Runtime.Finalizers.{set_finalizer_if_finalizer}
use eventing_gitlab.Runtime.Finalizers.Laws.{set_finalizer_if_finalizer-MarkedBySent}
use eventing_gitlab.Runtime.StatusUpdate.Retrying.{Retries}
use eventing_gitlab.Runtime.StatusUpdate.Stored.{named, Store}
use eventing_gitlab.Runtime.Reconcile.Finding.{reconcile-found}
use eventing_gitlab.Runtime.Reconcile.{
  error_of, set_source, process, finish, reconcile_by, reconcile_found, reconcile,
}
use eventing_gitlab.Runtime.Reconcile.Finishing.{Finished, finish-Finished}

module _ {C W : Type 0} (lib : Library C W) (r : ReconcilerImpl C W) where
  -- The run finds, for a key that it leads, this source in the lister: not being deleted, and with
  -- the finalizer.
  pub record Live (key : String) (w : World C W) : Type 0 where
    pub namespace : String
    pub name : String
    pub original : GitLabSource C
    pub environment : W
    pub split : lib.split_meta_namespace_key key ≡ ok (namespace, name)
    pub leads : r.is_leader_for namespace name ≡ true
    pub found : r.lister namespace name w.environment ≡ (ok original, environment)
    pub alive : original.metadata.deleting ≡ false
    pub bears : In r.finalizer_name original.metadata.finalizers

  module _ (key : String) (w : World C W) (run : Live key w) where
    open run use {original}

    abbrev state : State
    state = record {
      key = key;
      namespace = run.namespace;
      name = run.name;
      is_roi = implements r.reconciler.observe_kind;
      is_leader = r.is_leader_for run.namespace run.name;
    }

    -- The world that `ReconcileKind` starts from.
    abbrev pub start : World C W
    start = record w { source = lib.pre_process_reconcile original; environment = run.environment }

    -- The end of the run, behind `ReconcileKind`.
    abbrev end : Result (Unit {0}) → Doing C W (Unit {0})
    end result = process lib r (lib.post_process_reconcile original) >>= λ u.
        finish lib r state original (error_of result)

    abbrev found_world : World C W
    found_world = record w { environment = run.environment }

    reconcile-run : reconcile lib r key w ≡ reconcile_found lib r state (ok original) found_world
    reconcile-run =
        reconcile-found lib r key run.namespace run.name original w run.environment run.split
          run.leads run.found

    method :
        reconcile_method_for (implements r.reconciler.finalize_kind) state original
        ≡ some do_reconcile_kind
    unfolding reconcile_method_for
    method = ground (arith, run.leads, run.alive)

    unmarked : set_finalizer_if_finalizer lib r original found_world ≡ (ok original, found_world)
    unmarked = elim (set_finalizer_if_finalizer-MarkedBySent lib r original found_world) [
      | inl (why, h) ↦ h
      | inr (fin, alive, missing, h) ↦ absurd (missing run.bears)
    ]

    process_all :
        (f : GitLabSource C → GitLabSource C) (v : World C W)
        → r.skip_status_updates ≡ false
        → process lib r f v ≡ (ok tt, record v { source = f v.source })
    unfolding process
    process_all f v all = ap (λ b. (ok tt, if b then v else record v { source = f v.source })) all

    reconcile_found-end :
        r.skip_status_updates ≡ false
        → reconcile_found lib r state (ok original) found_world
          ≡ (attempt r.reconciler.reconcile_kind >>= end) start
    unfolding reconcile_found reconcile_by process
    reconcile_found-end all =
        let set = set_finalizer_if_finalizer lib r original in
        let marking = wrapping "failed to set finalizers: %w" [] set in
        ap (λ m. reconcile_by lib r state original m found_world) method
        ∙ bind-ok marking
            (λ marked. set_source marked >>= λ u. process lib r lib.pre_process_reconcile >>= λ u'.
              attempt r.reconciler.reconcile_kind >>= end)
            (ap (λ t. wrapping "failed to set finalizers: %w" [] (λ _. t) found_world) unmarked)
        ∙ ap
            (λ b.
              (attempt r.reconciler.reconcile_kind >>= end)
                (if b then record found_world { source = original } else start))
            all

    -- The world behind `ReconcileKind` and `PostProcessReconcile`.
    abbrev pub processed : World C W → World C W
    processed v = record v { source = lib.post_process_reconcile original v.source }

    module _ (store : Store r)
        (deep_equal-refl : (s : GitLabSourceStatus C) → lib.deep_equal s s ≡ true)
        (again : Retries lib r) where
      -- How the run ends when `ReconcileKind` ends in this way.
      abbrev pub Ends : Result (Unit {0}) × World C W → Result (Unit {0}) × World C W → Type 0
      Ends (panic, v) x = (x.0 ≡ panic)
      Ends (ok u, v) x =
          Finished lib r store deep_equal-refl again original (processed v).source none x
      Ends (err e, v) x =
          Finished lib r store deep_equal-refl again original (processed v).source (some e) x

      end-Finished :
          (result : Result (Unit {0})) (v : World C W)
          → r.skip_status_updates ≡ false
          → named (lib.post_process_reconcile original v.source) ≡ named original
          → Finished lib r store deep_equal-refl again original
              (processed v).source
              (error_of result)
              (end result v)
      end-Finished result v all same =
          subst
            (λ t.
              Finished lib r store deep_equal-refl again original (processed v).source
                (error_of result)
                (((λ w'. t) >>= λ u. finish lib r state original (error_of result)) v))
            (sym (process_all (lib.post_process_reconcile original) v all))
            (finish-Finished lib r store deep_equal-refl again state original (error_of result)
              (processed v) all run.leads (sym same))

      -- Where `ReconcileKind` returns, `PostProcessReconcile` leaves the name of the source.
      abbrev pub KeepsName : Result (Unit {0}) × World C W → Type 0
      KeepsName (panic, v) = Unit
      KeepsName (ok u, v) = named (processed v).source ≡ named original
      KeepsName (err e, v) = named (processed v).source ≡ named original

      end-Ends :
          (x : Result (Unit {0}) × World C W)
          → r.skip_status_updates ≡ false
          → KeepsName x
          → Ends x ((attempt (λ w'. x) >>= end) start)
      end-Ends (ok u, v) all same = end-Finished (ok u) v all same
      end-Ends (err e, v) all same = end-Finished (err e) v all same
      end-Ends (panic, v) all same = refl

      -- A run of the leader for a source that is not being deleted and has the finalizer, whose status
      -- updates are not skipped, runs `ReconcileKind` on the processed source. It panics where
      -- `ReconcileKind` does. Otherwise either the status that is left equals that of the lister's
      -- source or is held by the API, and the run returns an error exactly where `ReconcileKind`
      -- returned one that is no bare event, and that one; or the update of the status failed, and its
      -- error is returned and its event is the last one recorded.
      pub reconcile-Ends :
          r.skip_status_updates ≡ false
          → KeepsName (r.reconciler.reconcile_kind start)
          → Ends (r.reconciler.reconcile_kind start) (reconcile lib r key w)
      reconcile-Ends all same =
          subst (Ends (r.reconciler.reconcile_kind start))
            (sym (reconcile-run ∙ reconcile_found-end all))
            (end-Ends (r.reconciler.reconcile_kind start) all same)
