-- ===== src/Runtime/Reconcile/Absent.antt =====
-- A run for a source that is not in the informer's cache.
use eventing_gitlab.Base.{◌≡◌, refl, ap, ◌∙◌, none, true, false, String, arith, if◌then◌else◌}
use eventing_gitlab.Errors.{ok, err, fail, attempt, ◌>>=◌}
use eventing_gitlab.Errors.Continuing.{attempt-err}
use eventing_gitlab.Source.Types.{GitLabSource}
use eventing_gitlab.Reconciler.Cluster.{World, calling}
use eventing_gitlab.Reconciler.Calls.{calling-err}
use eventing_gitlab.Listers.{Indexer, key_of, found}
use eventing_gitlab.Listers.Sources.{git_lab_source_namespace_lister}
use eventing_gitlab.Runtime.Impl.{ReconcilerImpl, Library, implements}
use eventing_gitlab.Runtime.State.{State, new_state, is_not_leader_nor_observer}
use eventing_gitlab.Runtime.Reconcile.{reconcile_found, reconcile_in, reconcile_state, reconcile}

module _ {C L W : Type 0} (lib : Library C W) (r : ReconcilerImpl C W)
    (indexer : Indexer (GitLabSource C) L W) where
  -- The reconciler on the lister of this indexer.
  abbrev pub on_indexer : ReconcilerImpl C W
  on_indexer = record r {
    lister = λ namespace name. (git_lab_source_namespace_lister indexer namespace).get name;
  }

  module _ (key namespace name : String) (w : World C W) (e : W) where
    abbrev state : State
    state = record {
      key = key;
      namespace = namespace;
      name = name;
      is_roi = implements r.reconciler.observe_kind;
      is_leader = r.is_leader_for namespace name;
    }

    absent :
        indexer.get_by_key (key_of namespace name) w.environment ≡ (ok none, e)
        → (git_lab_source_namespace_lister indexer namespace).get name w.environment
          ≡ (err (indexer.new_not_found "gitlabsource" name), e)
    unfolding git_lab_source_namespace_lister found
    absent h = ap (λ t. (found indexer "gitlabsource" name t.0, t.1)) h

    reconcile_found-absent :
        r.client.is_not_found (indexer.new_not_found "gitlabsource" name) ≡ true
        → r.reconciler.observe_deletion ≡ none
        → (v : World C W)
        → reconcile_found lib on_indexer state (err (indexer.new_not_found "gitlabsource" name)) v
          ≡ (ok tt, v)
    unfolding reconcile_found
    reconcile_found-absent not_found alone v = rw (not_found, alone) refl

    leads-state : r.is_leader_for namespace name ≡ true → is_not_leader_nor_observer state ≡ false
    unfolding is_not_leader_nor_observer
    leads-state leads = ground arith

    -- The run behind `newState`.
    reconcile-in :
        lib.split_meta_namespace_key key ≡ ok (namespace, name)
        → reconcile lib on_indexer key w
          ≡ (if is_not_leader_nor_observer state
                then fail (lib.new_skip_key key)
                else attempt
                    (calling ((git_lab_source_namespace_lister indexer namespace).get name))
                  >>= reconcile_found lib on_indexer state)
              w
    unfolding reconcile reconcile_state new_state reconcile_in
    reconcile-in split =
        ap
          (λ parts.
            reconcile_state lib on_indexer
              (new_state (λ k. parts) r.is_leader_for (implements r.reconciler.observe_kind) key) w)
          split

    -- A run of the leader for a source that is not in the cache under the key's namespace and name,
    -- with an implementation that does not observe deletions, reads the cache and does no more: it
    -- returns no error.
    pub reconcile_absent :
        lib.split_meta_namespace_key key ≡ ok (namespace, name)
        → r.is_leader_for namespace name ≡ true
        → r.reconciler.observe_deletion ≡ none
        → r.client.is_not_found (indexer.new_not_found "gitlabsource" name) ≡ true
        → indexer.get_by_key (key_of namespace name) w.environment ≡ (ok none, e)
        → reconcile lib on_indexer key w ≡ (ok tt, record w { environment = e })
    unfolding git_lab_source_namespace_lister
    reconcile_absent split leads alone not_found h =
        let get = (git_lab_source_namespace_lister indexer namespace).get name in
        reconcile-in split
        ∙ ap
            (λ b.
              (if b
                  then fail (lib.new_skip_key key)
                  else attempt (calling get) >>= reconcile_found lib on_indexer state)
                w)
            (leads-state leads)
        ∙ attempt-err (calling get) (reconcile_found lib on_indexer state)
            (calling-err get w (absent h))
        ∙ reconcile_found-absent not_found alone (record w { environment = e })
