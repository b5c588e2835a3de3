-- ===== src/Runtime/Reconcile/Marking.antt =====
-- `ReconcileKind` runs on a source that has the finalizer.
use mathlib.Core.Path.{subst}
use eventing_gitlab.Base.{
  ◌≡◌, refl, sym, ◌++◌, inl, inr, List, [], ◌∷◌, String, true, false, arith, In, All, Bool-cases,
}
use eventing_gitlab.Errors.{Err, Result, ok, err, panic}
use eventing_gitlab.Source.Types.{GitLabSource}
use eventing_gitlab.Reconciler.Cluster.{World}
use eventing_gitlab.Reconciler.Calls.{Ending-calling}
use eventing_gitlab.Runtime.Impl.{
  Patch, merge_patch, apply_patch, ReconcilerImpl, Library, implements,
}
use eventing_gitlab.Runtime.Finalizers.{
  patched, send_patch, send_merge_patch, apply_as, send_apply, set_finalizer_if_finalizer,
}
use eventing_gitlab.Runtime.Finalizers.Laws.{sent, set_finalizer_if_finalizer-MarkedBySent}

In-last : {A : Type 0} (a : A) (xs : List A) → In a (xs ++ a ∷ [])
In-last a [] = inl refl
In-last a (x ∷ xs) = inr (In-last a xs)

-- What a patch documents: a merge patch replaces the finalizers, and an apply adds its own.
abbrev pub Applied : {C : Type 0} → Patch → GitLabSource C → Type 0
Applied (merge_patch finalizers resource_version) updated = updated.metadata.finalizers ≡ finalizers
Applied (apply_patch api_version kind name uid namespace finalizers field_manager force) updated =
    All (λ f. In f updated.metadata.finalizers) finalizers

-- The API applies the patches that it accepts.
pub record Patching {C W : Type 0} (r : ReconcilerImpl C W) : Type 0 where
  pub applies :
      (namespace name : String) (p : Patch) (e : W) {updated : GitLabSource C} {e' : W}
      → r.client.patch namespace name p e ≡ (ok updated, e')
      → Applied p updated

module _ {C W : Type 0} (lib : Library C W) (r : ReconcilerImpl C W) (api : Patching r) where
  open r use {finalizer_name}

  -- A resource that is returned has the finalizer.
  abbrev pub Bears : Result (GitLabSource C) × World C W → Type 0
  Bears (ok o, w) = In finalizer_name o.metadata.finalizers
  Bears (err e, w) = Unit
  Bears (panic, w) = Unit

  pub Bears-eq-ok :
      (marked : GitLabSource C) (x : Result (GitLabSource C) × World C W)
      → Bears x
      → x.0 ≡ ok marked
      → In finalizer_name marked.metadata.finalizers
  Bears-eq-ok marked (ok o, w) bears h =
      let same : o ≡ marked = ground arith in
      subst (λ m. In finalizer_name m.metadata.finalizers) same bears
  Bears-eq-ok marked (err e, w) bears h = ground arith
  Bears-eq-ok marked (panic, w) bears h = ground arith

  send_patch-Bears :
      (o : GitLabSource C) (p : Patch) (messages : String × String) (w : World C W)
      → ((updated : GitLabSource C)
          → Applied p updated
          → In finalizer_name updated.metadata.finalizers)
      → Bears (send_patch lib r o p messages w)
  unfolding send_patch patched
  send_patch-Bears o p messages w marks =
      Ending-calling Bears (r.client.patch o.metadata.namespace o.metadata.name p)
        (patched lib r messages) w
        (λ updated e h.
          marks updated (api.applies o.metadata.namespace o.metadata.name p w.environment h))
        (λ x e h. failed x (record w { environment = e })) (λ w'. tt)
    where
      failed : (x : Err) (w' : World C W) → Bears (patched lib r messages (err x) w')
      failed x w' = elim (Bool-cases (r.client.is_conflict x)) [
        | inl conflict ↦ rw (conflict, patched) tt
        | inr other ↦ rw (other, patched) tt
      ]

  apply_as-Bears :
      (o : GitLabSource C) (gvks : Result (List (String × String))) (w : World C W)
      → Bears (apply_as lib r o (finalizer_name ∷ []) gvks w)
  unfolding apply_as
  apply_as-Bears o (ok []) w = tt
  apply_as-Bears o (ok ((api_version, kind) ∷ gvks)) w = send_patch-Bears o _ _ w (λ updated h. h.0)
  apply_as-Bears o (err e) w = tt
  apply_as-Bears o panic w = tt

  sent-Bears :
      (o : GitLabSource C) (w : World C W)
      → Bears (sent lib r o (o.metadata.finalizers ++ finalizer_name ∷ []) (finalizer_name ∷ []) w)
  unfolding send_merge_patch send_apply
  sent-Bears o w = elim (Bool-cases r.use_server_side_apply_for_finalizers) [
    | inl applied ↦ rw (applied) (apply_as-Bears o (lib.object_kinds o) w)
    | inr merged ↦ rw (merged) (
        send_patch-Bears o _ _ w (λ updated h.
          subst (In finalizer_name) (sym h) (In-last finalizer_name o.metadata.finalizers)))
  ]

  pub set_finalizer_if_finalizer-Bears :
      (o : GitLabSource C) (w : World C W)
      → implements r.reconciler.finalize_kind ≡ true
      → o.metadata.deleting ≡ false
      → Bears (set_finalizer_if_finalizer lib r o w)
  set_finalizer_if_finalizer-Bears o w fin alive =
      elim (set_finalizer_if_finalizer-MarkedBySent lib r o w) [
        | inr (f, a, missing, h) ↦ subst Bears (sym h) (sent-Bears o w)
        | inl (why, h) ↦ subst Bears (sym h) (elim why [
          | inl other ↦ absurd (ground arith)
          | inr (inl gone) ↦ absurd (ground arith)
          | inr (inr there) ↦ there
        ])
      ]
