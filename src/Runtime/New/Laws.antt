-- ===== src/Runtime/New/Laws.antt =====
-- What holds of every reconciler that is made.
use eventing_gitlab.Base.{
  ◌≡◌, ◌≢◌, ◌↔◌, ◌⊎◌, inl, inr, List, [], ◌∷◌, String, Bool, true, arith, Bool-cases, eq_iff, ◌==◌,
}
use eventing_gitlab.Errors.{Result, ok, err, panic, Action}
use eventing_gitlab.Source.Types.{GitLabSource}
use eventing_gitlab.Runtime.Impl.{SourceClient, Interface, ReconcilerImpl}
use eventing_gitlab.Runtime.New.{
  Options, given, with_names, apply_options, apply_each, default_finalizer_name, default_impl,
  new_reconciler,
}

-- The options that end the program.
abbrev pub Refused : {C : Type 0} → List (Options C) → Type 0
Refused [] = ⊥
Refused (opts ∷ []) =
    (opts.use_server_side_apply_for_finalizers ≡ true) × (opts.finalizer_field_manager ≡ "")
Refused (opts ∷ more ∷ options) = Unit

module _ {C W : Type 0} where
  -- The finalizer has a name, and server-side apply a field manager.
  abbrev pub Configured : ReconcilerImpl C W → Type 0
  Configured rec =
      (rec.finalizer_name ≢ "")
      × (rec.use_server_side_apply_for_finalizers ≡ true → rec.finalizer_field_manager ≢ "")

  abbrev pub ConfiguredResult : Result (ReconcilerImpl C W) → Type 0
  ConfiguredResult (ok rec) = Configured rec
  ConfiguredResult (err e) = ⊥
  ConfiguredResult panic = Unit

  module _ (is_leader_for : String → String → Bool) (client : SourceClient C W)
      (lister : String → String → Action W (GitLabSource C)) (r : Interface C W) where
    -- `NewReconciler` ends the program exactly for an implementation that is `LeaderAware`, for more
    -- than one options struct, and for one that asks for server-side apply without a field manager.
    pub new_reconciler-eq-panic_iff :
        (is_leader_aware : Bool) (options : List (Options C))
        → (new_reconciler is_leader_for client lister r is_leader_aware options ≡ panic)
          ↔ ((is_leader_aware ≡ true) ⊎ Refused options)
    unfolding new_reconciler apply_each apply_options
    new_reconciler-eq-panic_iff is_leader_aware [] = ground arith
    new_reconciler-eq-panic_iff is_leader_aware (opts ∷ []) =
        ground (arith, eq_iff opts.finalizer_field_manager "")
    new_reconciler-eq-panic_iff is_leader_aware (opts ∷ more ∷ options) = ground arith

    given-ne : (option value : String) → value ≢ "" → given option value ≢ ""
    unfolding given
    given-ne option value h = ground (arith, eq_iff option "")

    default-Configured : Configured (default_impl is_leader_for client lister r)
    default-Configured = (
      (λ h. absurd (ground (arith, eq_iff default_finalizer_name ""))),
      λ h. absurd (ground arith),
    )

    apply_options-Configured :
        (opts : Options C)
        → ConfiguredResult (apply_options opts (default_impl is_leader_for client lister r))
    unfolding apply_options with_names
    apply_options-Configured opts =
        let named = given-ne opts.finalizer_name default_finalizer_name default-Configured.0 in
        elim (Bool-cases opts.use_server_side_apply_for_finalizers) [
          | inr merges ↦ rw (merges) (named, λ h. absurd (ground arith))
          | inl applies ↦ elim (Bool-cases (opts.finalizer_field_manager == "")) [
            | inl empty ↦ rw (applies, empty) tt
            | inr managed ↦
                rw (applies, managed)
                  (named, λ h e. absurd (ground (arith, eq_iff opts.finalizer_field_manager "")))
          ]
        ]

    apply_each-Configured :
        (options : List (Options C))
        → ConfiguredResult (apply_each options (default_impl is_leader_for client lister r))
    unfolding apply_each
    apply_each-Configured [] = default-Configured
    apply_each-Configured (opts ∷ []) = apply_options-Configured opts
    apply_each-Configured (opts ∷ more ∷ options) = tt

    -- Every reconciler that `NewReconciler` returns has a finalizer with a name, and a field manager
    -- if it uses server-side apply; it returns no error.
    pub new_reconciler-Configured :
        (is_leader_aware : Bool) (options : List (Options C))
        → ConfiguredResult (new_reconciler is_leader_for client lister r is_leader_aware options)
    unfolding new_reconciler apply_each apply_options with_names
    new_reconciler-Configured is_leader_aware options = elim (Bool-cases is_leader_aware) [
      | inl aware ↦ rw (aware) tt
      | inr other ↦ rw (other) (apply_each-Configured options)
    ]
