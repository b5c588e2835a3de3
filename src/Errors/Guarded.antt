-- ===== src/Errors/Guarded.antt =====
-- Calls that do not panic and whose errors all have a property, and the rules for their parts.
use eventing_gitlab.Base.{◌≡◌, ap, List, String, inl, inr, arith}
use eventing_gitlab.Errors.{Err, wrap, Result, ok, err, panic, Action, wrapping, ended, ◌>>=◌}

abbrev pub Guarded : {A : Type 0} → (Err → Type 0) → Result A → Type 0
Guarded P (ok a) = Unit
Guarded P (err e) = P e
Guarded P panic = ⊥

module _ (P : Err → Type 0) {S A B : Type 0} where
  pub Guarded-bind :
      (m : Action S A) (f : A → Action S B) (s : S)
      → Guarded P (m s).0
      → ((a : A) (s' : S) → (m s).0 ≡ ok a → Guarded P (f a s').0)
      → Guarded P ((m >>= f) s).0
  Guarded-bind m f s h k = elim (ended (m s)) [
    | inl (a, s', r) ↦ rw (r, Guarded) (k a (m s).1 (ap (λ t. t.0) r))
    | inr (inl (e, s', r)) ↦ rw (r, Guarded) (rw (r, Guarded) at h)
    | inr (inr (s', r)) ↦ rw (r, Guarded) (rw (r, Guarded) at h)
  ]

module _ (P : Err → Type 0)
    (closed : (f : String) (a : List String) (e : Err) → P e → P (wrap f a e)) where
  pub Guarded-wrapping :
      {S A : Type 0} (f : String) (a : List String) (m : Action S A) (s : S)
      → Guarded P (m s).0
      → Guarded P (wrapping f a m s).0
  Guarded-wrapping f a m s h = elim (ended (m s)) [
    | inl (x, s', r) ↦ rw (r, Guarded) tt
    | inr (inl (e, s', r)) ↦ rw (r, Guarded) (closed f a e (rw (r, Guarded) at h))
    | inr (inr (s', r)) ↦ rw (r, Guarded) (rw (r, Guarded) at h)
  ]

-- What a wrapped call returns is what the call returned.
pub wrapping-eq-ok :
    {S A : Type 0} (f : String) (args : List String) (m : Action S A) (s : S) {a : A}
    → (wrapping f args m s).0 ≡ ok a
    → (m s).0 ≡ ok a
wrapping-eq-ok f args m s h = elim (ended (m s)) [
  | inl (x, s', r) ↦ ground arith
  | inr (inl (e, s', r)) ↦ ground arith
  | inr (inr (s', r)) ↦ ground arith
]
