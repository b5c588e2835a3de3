-- ===== src/Runtime/Finalizers/Sending.antt =====
-- The calls of the API by which the finalizer is set and cleared, and what they leave.
use mathlib.Core.Path.{subst}
use eventing_gitlab.Base.{
  ◌≡◌, ◌≢◌, ◌↔◌, ◌⊎◌, inl, inr, refl, sym, Option, List, [], ◌∷◌, ◌++◌, String, true, false, In,
  Bool, Bool-cases, if◌then◌else◌,
}
use eventing_gitlab.Errors.{
  Err, Severity, normal, warning, errorf, wrap, Result, ok, err, panic, attempt, ◌>>=◌,
}
use eventing_gitlab.Source.Types.{GitLabSource}
use eventing_gitlab.Reconciler.Cluster.{World, calling}
use eventing_gitlab.Runtime.Impl.{
  Patch, merge_patch, apply_patch, ReconcilerImpl, Library, implements,
}
use eventing_gitlab.Runtime.Finalizers.{
  released, patched, send_patch, send_merge_patch, apply_as, send_apply, set_finalizer_if_finalizer,
  queried, cleared, clear_finalizer,
}
use eventing_gitlab.Runtime.Finalizers.Laws.{
  sent, clear_finalizer-ClearedBySent, set_finalizer_if_finalizer-MarkedBySent,
}

-- The world behind a call that leaves this environment, and behind one more event.
abbrev pub behind : {C W : Type 0} → World C W → W → World C W
behind w e = record w { environment = e }

abbrev pub recording :
    {C W : Type 0} → Severity → (reason format : String) → List Err → World C W → World C W
recording severity reason format args w = record w {
  recorded =
      record { severity = severity; reason = reason; format = format; args = args } ∷ w.recorded;
}

module _ {C W : Type 0} (r : ReconcilerImpl C W) (resource : GitLabSource C) where
  open r use {client}

  -- One patch of the resource is sent to the API: its result and the event about it.
  pub data Patches (p : Patch) (failed done : String) (w : World C W)
      : Result (GitLabSource C) × World C W → Type 0 where
    accepted :
        (updated : GitLabSource C) (e : W)
        → client.patch resource.metadata.namespace resource.metadata.name p w.environment
          ≡ (ok updated, e)
        → Patches p failed done w
            (ok updated, recording normal "FinalizerUpdate" done [] (behind w e))
    conflicted :
        (x : Err) (e : W)
        → client.patch resource.metadata.namespace resource.metadata.name p w.environment
          ≡ (err x, e)
        → client.is_conflict x ≡ true
        → Patches p failed done w (err x, behind w e)
    refused :
        (x : Err) (e : W)
        → client.patch resource.metadata.namespace resource.metadata.name p w.environment
          ≡ (err x, e)
        → client.is_conflict x ≡ false
        → Patches p failed done w
            (err x, recording warning "FinalizerUpdateFailed" failed (x ∷ []) (behind w e))
    crashed :
        (e : W)
        → client.patch resource.metadata.namespace resource.metadata.name p w.environment
          ≡ (panic, e)
        → Patches p failed done w (panic, behind w e)

  -- After the update: its error is dropped where the API says that the resource is gone.
  pub data Forgives : (before after : Result (GitLabSource C) × World C W) → Type 0 where
    passed : (updated : GitLabSource C) (w : World C W) → Forgives (ok updated, w) (ok updated, w)
    still_there :
        (x : Err) (w : World C W) (found : GitLabSource C) (e : W)
        → client.get resource.metadata.namespace resource.metadata.name w.environment
          ≡ (ok found, e)
        → Forgives (err x, w) (err x, behind w e)
    is_gone :
        (x y : Err) (w : World C W) (e : W)
        → client.get resource.metadata.namespace resource.metadata.name w.environment ≡ (err y, e)
        → client.is_not_found y ≡ true
        → Forgives (err x, w) (ok resource, behind w e)
    is_unknown :
        (x y : Err) (w : World C W) (e : W)
        → client.get resource.metadata.namespace resource.metadata.name w.environment ≡ (err y, e)
        → client.is_not_found y ≡ false
        → Forgives (err x, w) (err x, behind w e)
    query_crashed :
        (x : Err) (w : World C W) (e : W)
        → client.get resource.metadata.namespace resource.metadata.name w.environment ≡ (panic, e)
        → Forgives (err x, w) (panic, behind w e)
    update_crashed : (w : World C W) → Forgives (panic, w) (panic, w)

  send_patch-Patches :
      (lib : Library C W) (p : Patch) (failed done : String) (w : World C W)
      → Patches p failed done w (send_patch lib r resource p (failed, done) w)
  unfolding send_patch patched
  send_patch-Patches lib p failed done w =
      by_outcome (client.patch resource.metadata.namespace resource.metadata.name p w.environment)
        refl
    where
      by_outcome :
          (t : Result (GitLabSource C) × W)
          → client.patch resource.metadata.namespace resource.metadata.name p w.environment ≡ t
          → Patches p failed done w
              ((attempt (calling (λ _. t)) >>= patched lib r (failed, done)) w)
      by_outcome (ok updated, e) h = accepted updated e h
      by_outcome (err x, e) h = elim (Bool-cases (client.is_conflict x)) [
        | inl conflict ↦ rw (conflict) (conflicted x e h conflict)
        | inr other ↦ rw (other) (refused x e h other)
      ]
      by_outcome (panic, e) h = crashed e h

  cleared-Forgives :
      (lib : Library C W) (v : World C W) (t : Result (GitLabSource C) × World C W)
      → Forgives t ((attempt (λ _. t) >>= cleared lib r resource) v)
  unfolding cleared queried
  cleared-Forgives lib v (ok updated, w) = passed updated w
  cleared-Forgives lib v (panic, w) = update_crashed w
  cleared-Forgives lib v (err x, w) =
      by_outcome (client.get resource.metadata.namespace resource.metadata.name w.environment) refl
    where
      by_outcome :
          (t : Result (GitLabSource C) × W)
          → client.get resource.metadata.namespace resource.metadata.name w.environment ≡ t
          → Forgives (err x, w) ((attempt (calling (λ _. t)) >>= queried lib r resource x) w)
      by_outcome (ok found, e) h = still_there x w found e h
      by_outcome (err y, e) h = elim (Bool-cases (client.is_not_found y)) [
        | inl gone ↦ rw (gone) (is_gone x y w e h gone)
        | inr other ↦ rw (other) (is_unknown x y w e h other)
      ]
      by_outcome (panic, e) h = query_crashed x w e h

module _ {C W : Type 0} (lib : Library C W) (r : ReconcilerImpl C W) where
  open r use {finalizer_name}

  -- The update of the finalizers: one patch, which is a merge patch with `finalizers` at the version in
  -- hand or, by server-side apply, a configuration with `own`; without a kind it fails and sends none.
  pub data Sends (resource : GitLabSource C) (finalizers own : List String) (w : World C W)
      : Result (GitLabSource C) × World C W → Type 0 where
    merges :
        (t : Result (GitLabSource C) × World C W)
        → r.use_server_side_apply_for_finalizers ≡ false
        → Patches r resource
            (merge_patch finalizers resource.metadata.resource_version)
            "Failed to update finalizers for %q: %v"
            "Updated %q finalizers"
            w
            t
        → Sends resource finalizers own w t
    applies :
        (api_version kind : String) (gvks : List (String × String))
        (t : Result (GitLabSource C) × World C W)
        → r.use_server_side_apply_for_finalizers ≡ true
        → lib.object_kinds resource ≡ ok ((api_version, kind) ∷ gvks)
        → Patches r resource
            (apply_patch api_version kind resource.metadata.name resource.metadata.uid
              resource.metadata.namespace own r.finalizer_field_manager r.force_apply_finalizers)
            "Failed to update finalizers for %q via server-side apply: %v"
            "Updated finalizers for %q via server-side apply"
            w
            t
        → Sends resource finalizers own w t
    no_kind :
        r.use_server_side_apply_for_finalizers ≡ true
        → lib.object_kinds resource ≡ ok []
        → Sends resource finalizers own w
            (err (errorf "failed to determine GVK for resource: %w" []), w)
    kind_refused :
        (x : Err)
        → r.use_server_side_apply_for_finalizers ≡ true
        → lib.object_kinds resource ≡ err x
        → Sends resource finalizers own w
            (err (wrap "failed to determine GVK for resource: %w" [] x), w)
    kind_crashed :
        r.use_server_side_apply_for_finalizers ≡ true
        → lib.object_kinds resource ≡ panic
        → Sends resource finalizers own w (panic, w)

  send_apply-Sends :
      (resource : GitLabSource C) (finalizers own : List String) (w : World C W)
      → r.use_server_side_apply_for_finalizers ≡ true
      → Sends resource finalizers own w (send_apply lib r resource own w)
  unfolding send_apply apply_as
  send_apply-Sends resource finalizers own w applying = by_kinds (lib.object_kinds resource) refl
    where
      by_kinds :
          (kinds : Result (List (String × String)))
          → lib.object_kinds resource ≡ kinds
          → Sends resource finalizers own w (apply_as lib r resource own kinds w)
      by_kinds (ok []) h = no_kind applying h
      by_kinds (ok ((api_version, kind) ∷ gvks)) h =
          applies api_version kind gvks _ applying h (send_patch-Patches r resource lib _ _ _ w)
      by_kinds (err x) h = kind_refused x applying h
      by_kinds panic h = kind_crashed applying h

  sent-Sends :
      (resource : GitLabSource C) (finalizers own : List String) (w : World C W)
      → Sends resource finalizers own w (sent lib r resource finalizers own w)
  unfolding send_merge_patch
  sent-Sends resource finalizers own w = elim (Bool-cases r.use_server_side_apply_for_finalizers) [
    | inl applying ↦
        subst (λ b. Sends resource finalizers own w (by_mode b)) (sym applying)
          (send_apply-Sends resource finalizers own w applying)
    | inr merging ↦
        subst (λ b. Sends resource finalizers own w (by_mode b)) (sym merging)
          (merges _ merging (send_patch-Patches r resource lib _ _ _ w))
  ]
    where
      by_mode : Bool → Result (GitLabSource C) × World C W
      by_mode b =
          (if b then send_apply lib r resource own else send_merge_patch lib r resource finalizers)
            w

  -- What `clearFinalizer` does: nothing, or one patch with the other finalizers.
  abbrev pub Cleared : GitLabSource C → Option Err → World C W → Type 0
  Cleared resource e w =
      (((implements r.reconciler.finalize_kind ≡ false)
          ⊎ (resource.metadata.deleting ≡ false)
          ⊎ (released e ≡ false)
          ⊎ (¬ In finalizer_name resource.metadata.finalizers))
        × (clear_finalizer lib r resource e w ≡ (ok resource, w)))
      ⊎ ((implements r.reconciler.finalize_kind ≡ true)
          × (resource.metadata.deleting ≡ true)
          × (released e ≡ true)
          × In finalizer_name resource.metadata.finalizers
          × (finalizers : List String) × ((a : String)
              → In a finalizers ↔ (In a resource.metadata.finalizers × (a ≢ finalizer_name)))
          × (t : Result (GitLabSource C) × World C W) × Sends resource finalizers [] w t
          × Forgives r resource t (clear_finalizer lib r resource e w))

  -- `clearFinalizer` calls nothing and gives the resource back unless the implementation is a
  -- `Finalizer`, the resource is being deleted, the result of `FinalizeKind` releases it, and it has
  -- the finalizer. Then it asks the API for one patch of the resource: a merge patch with the
  -- resource's other finalizers and no more, or, by server-side apply, a configuration without
  -- finalizers; without a kind to apply as it fails and asks for no patch. The event about the patch
  -- is recorded, and an error of the update is dropped just where the API then does not find the
  -- resource.
  pub clear_finalizer-Cleared :
      (resource : GitLabSource C) (e : Option Err) (w : World C W) → Cleared resource e w
  clear_finalizer-Cleared resource e w = elim (clear_finalizer-ClearedBySent lib r resource e w) [
    | inl untouched ↦ inl untouched
    | inr (fin, gone, free, there, finalizers, others, same) ↦ inr (
      fin,
      gone,
      free,
      there,
      finalizers,
      others,
      sent lib r resource finalizers [] w,
      sent-Sends resource finalizers [] w,
      subst (Forgives r resource (sent lib r resource finalizers [] w)) (sym same)
          (cleared-Forgives r resource lib w (sent lib r resource finalizers [] w)),
    )
  ]

  -- What `setFinalizerIfFinalizer` does: nothing, or one patch with one finalizer more.
  abbrev pub Marked : GitLabSource C → World C W → Type 0
  Marked resource w =
      (((implements r.reconciler.finalize_kind ≡ false)
          ⊎ (resource.metadata.deleting ≡ true)
          ⊎ In finalizer_name resource.metadata.finalizers)
        × (set_finalizer_if_finalizer lib r resource w ≡ (ok resource, w)))
      ⊎ ((implements r.reconciler.finalize_kind ≡ true)
          × (resource.metadata.deleting ≡ false)
          × (¬ In finalizer_name resource.metadata.finalizers)
          × Sends resource (resource.metadata.finalizers ++ finalizer_name ∷ [])
              (finalizer_name ∷ []) w (set_finalizer_if_finalizer lib r resource w))

  -- `setFinalizerIfFinalizer` calls nothing on a resource that is being deleted or has the
  -- finalizer, or for an implementation that is no `Finalizer`. On any other it asks the API for one
  -- patch of the resource: a merge patch that adds the finalizer behind the resource's own, or, by
  -- server-side apply, a configuration with the finalizer alone; without a kind to apply as it fails
  -- and asks for no patch. It gives the answer of the patch, and records the event about it, none for
  -- a conflict.
  pub set_finalizer_if_finalizer-Marked :
      (resource : GitLabSource C) (w : World C W) → Marked resource w
  set_finalizer_if_finalizer-Marked resource w =
      elim (set_finalizer_if_finalizer-MarkedBySent lib r resource w) [
        | inl untouched ↦ inl untouched
        | inr (fin, alive, missing, same) ↦ inr (
          fin,
          alive,
          missing,
          subst
              (Sends resource (resource.metadata.finalizers ++ finalizer_name ∷ [])
                (finalizer_name ∷ []) w)
              (sym same)
              (sent-Sends resource (resource.metadata.finalizers ++ finalizer_name ∷ [])
                (finalizer_name ∷ []) w),
        )
      ]
