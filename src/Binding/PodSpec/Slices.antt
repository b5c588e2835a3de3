-- ===== src/Binding/PodSpec/Slices.antt =====
-- One list of volumes or of mounts under `Do` and `Undo`.
use eventing_gitlab.Base.{
  ℕ, ◌+◌, ◌-◌, ◌≡◌, refl, inl, inr, List, [], ◌∷◌, ◌++◌, String, arith, Bool-cases, ◌==◌, eq_iff,
  if◌then◌else◌,
}
use eventing_gitlab.Binding.PodSpec.{volume_name, remove_first}

module _ {A : Type 0} (name : A → String) where
  -- The number of entries with the binding's volume name.
  abbrev pub count_named : List A → ℕ
  count_named [] = 0
  count_named (v ∷ vs) = if name v == volume_name then count_named vs + 1 else count_named vs

  -- The entries of other names.
  abbrev pub others : List A → List A
  others [] = []
  others (v ∷ vs) = if name v == volume_name then others vs else v ∷ others vs

  pub count_named-remove_first :
      (vs : List A) → count_named (remove_first name vs) ≡ count_named vs - 1
  unfolding remove_first
  count_named-remove_first [] = omega arith
  count_named-remove_first (v ∷ vs) = elim (Bool-cases (name v == volume_name)) [
    | inl e ↦ rw e (omega arith)
    | inr e ↦ rw (e, e) (count_named-remove_first vs)
  ]

  pub remove_first_absent : (vs : List A) → count_named vs ≡ 0 → remove_first name vs ≡ vs
  unfolding remove_first
  remove_first_absent [] h = refl
  remove_first_absent (v ∷ vs) h = ground (arith, remove_first_absent vs)

  pub remove_first-append :
      (vs : List A) (v : A)
      → count_named vs ≡ 0
      → name v ≡ volume_name
      → remove_first name (vs ++ v ∷ []) ≡ vs
  unfolding remove_first
  remove_first-append [] v h e = ground (arith, eq_iff (name v) volume_name)
  remove_first-append (w ∷ vs) v h e = ground (arith, remove_first-append vs v)

  pub others-remove_first : (vs : List A) → others (remove_first name vs) ≡ others vs
  unfolding remove_first
  others-remove_first [] = refl
  others-remove_first (v ∷ vs) = ground (arith, others-remove_first vs)

  pub others-append :
      (vs : List A) (v : A) → name v ≡ volume_name → others (vs ++ v ∷ []) ≡ others vs
  others-append [] v e = ground (arith, eq_iff (name v) volume_name)
  others-append (w ∷ vs) v e = ground (arith, others-append vs v)

  pub count_named-append :
      (vs : List A) (v : A) → name v ≡ volume_name → count_named (vs ++ v ∷ []) ≡ count_named vs + 1
  count_named-append [] v e = ground (arith, eq_iff (name v) volume_name)
  count_named-append (w ∷ vs) v e = ground (arith, count_named-append vs v)
