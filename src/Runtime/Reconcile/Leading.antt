-- ===== src/Runtime/Reconcile/Leading.antt =====
-- Who may run: an instance that does not lead, and a source that does not have the finalizer.
use eventing_gitlab.Base.{◌≡◌, refl, none, String, false, arith}
use eventing_gitlab.Errors.{Result, ok, err, panic}
use eventing_gitlab.Reconciler.Cluster.{World, Doing}
use eventing_gitlab.Runtime.Impl.{ReconcilerImpl, Library, implements}
use eventing_gitlab.Runtime.State.{new_state, is_not_leader_nor_observer}
use eventing_gitlab.Runtime.Reconcile.{reconcile_in, reconcile_state, reconcile}

module _ {C W : Type 0} (lib : Library C W) (r : ReconcilerImpl C W) where
  -- What a run returns for a key that it skips.
  abbrev pub skipped : (key : String) → Result (String × String) → Result (Unit {0})
  skipped key (ok parts) = err (lib.new_skip_key key)
  skipped key (err e) = ok tt
  skipped key panic = panic

  -- An instance that does not lead for the key and whose implementation is no observer asks nothing,
  -- writes nothing and records nothing: it returns the error that skips the key, and no error for an
  -- invalid key.
  pub reconcile_follower :
      (key : String) (w : World C W)
      → r.reconciler.observe_kind ≡ none
      → ((namespace name : String)
          → lib.split_meta_namespace_key key ≡ ok (namespace, name)
          → r.is_leader_for namespace name ≡ false)
      → reconcile lib r key w ≡ (skipped key (lib.split_meta_namespace_key key), w)
  unfolding reconcile reconcile_state reconcile_in new_state is_not_leader_nor_observer
  reconcile_follower key w no_observer follows = by_parts (lib.split_meta_namespace_key key) refl
    where
      from : Result (String × String) → Doing C W (Unit {0})
      from parts =
          reconcile_state lib r
            (new_state (λ k. parts) r.is_leader_for (implements r.reconciler.observe_kind) key)

      by_parts :
          (parts : Result (String × String))
          → lib.split_meta_namespace_key key ≡ parts
          → from parts w ≡ (skipped key parts, w)
      by_parts (ok (namespace, name)) h = ground (arith, follows namespace name h)
      by_parts (err e) h = refl
      by_parts panic h = refl
