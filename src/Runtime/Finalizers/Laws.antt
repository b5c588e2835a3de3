-- ===== src/Runtime/Finalizers/Laws.antt =====
-- When the finalizer is set and cleared.
use eventing_gitlab.Base.{
  ◌≡◌, ◌≢◌, ◌↔◌, ◌⊎◌, inl, inr, refl, Option, none, some, List, [], ◌∷◌, ◌++◌, String, true, false,
  arith, In, Bool-cases, sym, ◌∙◌, if◌then◌else◌, eq_iff, eq_refl,
}
use eventing_gitlab.Errors.{Err, event, warning, as_event, ok, attempt, ◌>>=◌}
use eventing_gitlab.Source.Types.{GitLabSource}
use eventing_gitlab.Source.EventTypes.{has_key}
use eventing_gitlab.Source.EventTypes.Sorting.{In-sort_strings}
use eventing_gitlab.Source.EventTypes.Laws.{has_key_iff}
use eventing_gitlab.Reconciler.Cluster.{World, Doing}
use eventing_gitlab.Runtime.Impl.{ReconcilerImpl, Library, implements}
use eventing_gitlab.Runtime.Finalizers.{
  delete_key, once_each, set_list, released, send_merge_patch, send_apply,
  update_finalizers_filtered_merge_patch, update_finalizers_filtered_server_side_apply,
  update_finalizers_filtered, set_finalizer_if_finalizer, cleared, clear_finalizer,
}

In-delete_key : (a k : String) (xs : List String) → In a (delete_key k xs) ↔ (In a xs × (a ≢ k))
unfolding delete_key
In-delete_key a k [] = ((λ h. absurd h), λ h. h.0)
In-delete_key a k (x ∷ xs) = ground (arith, eq_iff k x, In-delete_key a k xs)

In-once_each : (a : String) (xs : List String) → In a (once_each xs) ↔ In a xs
unfolding once_each
In-once_each a [] = ((λ h. h), λ h. h)
In-once_each a (x ∷ xs) = ground (arith, In-once_each a xs, has_key_iff x xs)

In-set_list : (a : String) (xs : List String) → In a (set_list xs) ↔ In a xs
unfolding set_list
In-set_list a xs =
    let (to, from) = In-sort_strings a (once_each xs) in
    let (down, up) = In-once_each a xs in ((λ h. down (to h)), λ h. from (up h))

-- An error that is no event and wraps none, and a warning event, do not release the resource.
pub released-plain : (x : Err) → as_event x ≡ none → released (some x) ≡ false
unfolding released
released-plain x h = ground arith

pub released-warning :
    (reason format : String) (x : Err) → released (some (event warning reason format x)) ≡ false
unfolding released as_event
released-warning reason format x = refl

module _ {C W : Type 0} (lib : Library C W) (r : ReconcilerImpl C W) where
  open r use {finalizer_name}

  -- The one request of an update: a merge patch with `finalizers`, or, by server-side apply, the
  -- configuration with `own`.
  abbrev pub sent : GitLabSource C → (finalizers own : List String) → Doing C W (GitLabSource C)
  sent resource finalizers own =
      if r.use_server_side_apply_for_finalizers
      then send_apply lib r resource own
      else send_merge_patch lib r resource finalizers

  update_finalizers_filtered_same :
      (resource : GitLabSource C) (desired : List String) (w : World C W)
      → has_key finalizer_name desired ≡ has_key finalizer_name resource.metadata.finalizers
      → update_finalizers_filtered lib r resource desired w ≡ (ok resource, w)
  unfolding update_finalizers_filtered update_finalizers_filtered_merge_patch
      update_finalizers_filtered_server_side_apply
  update_finalizers_filtered_same resource desired w same = ground arith

  update_finalizers_filtered_adds :
      (resource : GitLabSource C) (desired : List String) (w : World C W)
      → has_key finalizer_name desired ≡ true
      → has_key finalizer_name resource.metadata.finalizers ≡ false
      → update_finalizers_filtered lib r resource desired w
        ≡ sent resource
            (resource.metadata.finalizers ++ finalizer_name ∷ [])
            (finalizer_name ∷ [])
            w
  unfolding update_finalizers_filtered update_finalizers_filtered_merge_patch
      update_finalizers_filtered_server_side_apply
  update_finalizers_filtered_adds resource desired w there missing = ground arith

  update_finalizers_filtered_removes :
      (resource : GitLabSource C) (desired : List String) (w : World C W)
      → has_key finalizer_name desired ≡ false
      → has_key finalizer_name resource.metadata.finalizers ≡ true
      → update_finalizers_filtered lib r resource desired w
        ≡ sent resource (set_list (delete_key finalizer_name resource.metadata.finalizers)) [] w
  unfolding update_finalizers_filtered update_finalizers_filtered_merge_patch
      update_finalizers_filtered_server_side_apply
  update_finalizers_filtered_removes resource desired w missing there = ground arith

  -- After a result of `FinalizeKind` that does not release the source, `clearFinalizer` leaves the
  -- resource with its finalizer, calls nothing and records nothing.
  pub clear_finalizer_unreleased :
      (resource : GitLabSource C) (e : Option Err) (w : World C W)
      → released e ≡ false
      → clear_finalizer lib r resource e w ≡ (ok resource, w)
  unfolding clear_finalizer cleared
  clear_finalizer_unreleased resource e w held =
      ground (arith, update_finalizers_filtered_same resource resource.metadata.finalizers w refl)

  delete_key-has_key :
      (xs : List String) → has_key finalizer_name (delete_key finalizer_name xs) ≡ false
  delete_key-has_key xs =
      elim (Bool-cases (has_key finalizer_name (delete_key finalizer_name xs))) [
        | inl kept ↦ absurd (
            ((In-delete_key finalizer_name finalizer_name xs).0
                ((has_key_iff finalizer_name (delete_key finalizer_name xs)).0 kept)).1
              refl)
        | inr missing ↦ missing
      ]

  In-others :
      (xs : List String) (a : String)
      → In a (set_list (delete_key finalizer_name xs)) ↔ (In a xs × (a ≢ finalizer_name))
  In-others xs a =
      let (to, from) = In-set_list a (delete_key finalizer_name xs) in
      let (down, up) = In-delete_key a finalizer_name xs in ((λ h. down (to h)), λ h. from (up h))

  inserted : (xs : List String) → has_key finalizer_name (finalizer_name ∷ xs) ≡ true
  unfolding has_key
  inserted xs = ground (arith, eq_refl finalizer_name)

  -- What `clearFinalizer` does: nothing, or one patch with the other finalizers.
  abbrev pub ClearedBySent : GitLabSource C → Option Err → World C W → Type 0
  ClearedBySent resource e w =
      (((implements r.reconciler.finalize_kind ≡ false)
          ⊎ (resource.metadata.deleting ≡ false)
          ⊎ (released e ≡ false)
          ⊎ (¬ In finalizer_name resource.metadata.finalizers))
        × (clear_finalizer lib r resource e w ≡ (ok resource, w)))
      ⊎ ((implements r.reconciler.finalize_kind ≡ true)
          × (resource.metadata.deleting ≡ true)
          × (released e ≡ true)
          × In finalizer_name resource.metadata.finalizers
          × (finalizers : List String) × ((a : String)
              → In a finalizers ↔ (In a resource.metadata.finalizers × (a ≢ finalizer_name)))
          × (clear_finalizer lib r resource e w
              ≡ (attempt (sent resource finalizers []) >>= cleared lib r resource) w))

  -- `clearFinalizer` calls nothing and gives the resource back unless the implementation is a
  -- `Finalizer`, the resource is being deleted, the result of `FinalizeKind` releases it, and it has
  -- the finalizer; then it sends one patch: a merge patch with the resource's other finalizers and no
  -- more, or, by server-side apply, a configuration without finalizers.
  pub clear_finalizer-ClearedBySent :
      (resource : GitLabSource C) (e : Option Err) (w : World C W) → ClearedBySent resource e w
  unfolding clear_finalizer cleared
  clear_finalizer-ClearedBySent resource e w =
      let existing = resource.metadata.finalizers in
      elim (Bool-cases (implements r.reconciler.finalize_kind)) [
        | inr other ↦ inl (inl other, ground arith)
        | inl fin ↦ elim (Bool-cases resource.metadata.deleting) [
          | inr alive ↦ inl (inr (inl alive), ground arith)
          | inl gone ↦ elim (Bool-cases (released e)) [
            | inr held ↦ inl (inr (inr (inl held)), clear_finalizer_unreleased resource e w held)
            | inl free ↦ elim (Bool-cases (has_key finalizer_name existing)) [
              | inr missing ↦ inl (
                inr (inr (inr (λ h. absurd (ground (arith, has_key_iff finalizer_name existing))))),
                ground (
                  arith,
                  update_finalizers_filtered_same resource (delete_key finalizer_name existing) w
                      (delete_key-has_key existing ∙ sym missing),
                ),
              )
              | inl there ↦ inr (
                fin,
                gone,
                free,
                (has_key_iff finalizer_name existing).0 there,
                set_list (delete_key finalizer_name existing),
                In-others existing,
                ground (
                  arith,
                  update_finalizers_filtered_removes resource (delete_key finalizer_name existing) w
                      (delete_key-has_key existing) there,
                ),
              )
            ]
          ]
        ]
      ]

  -- What `setFinalizerIfFinalizer` does: nothing, or one patch with one finalizer more.
  abbrev pub MarkedBySent : GitLabSource C → World C W → Type 0
  MarkedBySent resource w =
      (((implements r.reconciler.finalize_kind ≡ false)
          ⊎ (resource.metadata.deleting ≡ true)
          ⊎ In finalizer_name resource.metadata.finalizers)
        × (set_finalizer_if_finalizer lib r resource w ≡ (ok resource, w)))
      ⊎ ((implements r.reconciler.finalize_kind ≡ true)
          × (resource.metadata.deleting ≡ false)
          × (¬ In finalizer_name resource.metadata.finalizers)
          × (set_finalizer_if_finalizer lib r resource w
              ≡ sent resource (resource.metadata.finalizers ++ finalizer_name ∷ [])
                  (finalizer_name ∷ []) w))

  -- `setFinalizerIfFinalizer` calls nothing on a resource that is being deleted or has the
  -- finalizer, or for an implementation that is no `Finalizer`; on any other it sends one patch: a
  -- merge patch that adds the finalizer behind the resource's own, or, by server-side apply, a
  -- configuration with the finalizer alone.
  pub set_finalizer_if_finalizer-MarkedBySent :
      (resource : GitLabSource C) (w : World C W) → MarkedBySent resource w
  unfolding set_finalizer_if_finalizer has_key
  set_finalizer_if_finalizer-MarkedBySent resource w =
      let existing = resource.metadata.finalizers in
      elim (Bool-cases (implements r.reconciler.finalize_kind)) [
        | inr other ↦ inl (inl other, ground arith)
        | inl fin ↦ elim (Bool-cases resource.metadata.deleting) [
          | inl gone ↦ inl (
            inr (inl gone),
            ground (arith, update_finalizers_filtered_same resource existing w refl),
          )
          | inr alive ↦ elim (Bool-cases (has_key finalizer_name existing)) [
            | inl there ↦ inl (
              inr (inr ((has_key_iff finalizer_name existing).0 there)),
              ground (
                arith,
                update_finalizers_filtered_same resource (finalizer_name ∷ existing) w
                    (inserted existing ∙ sym there),
              ),
            )
            | inr missing ↦ inr (
              fin,
              alive,
              (λ h. absurd (ground (arith, has_key_iff finalizer_name existing))),
              ground (
                arith,
                update_finalizers_filtered_adds resource (finalizer_name ∷ existing) w
                    (inserted existing) missing,
              ),
            )
          ]
        ]
      ]
