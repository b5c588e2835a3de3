-- ===== src/Errors.antt =====
-- Go errors as they are built and told apart in pkg/reconciler/source/gitlabsource.go and in
-- pkg/client/gitlab/webhook_client.go, and the actions of code that can fail.
pub mod Guarded
pub mod Ending
pub mod Continuing
use eventing_gitlab.Base.{
  ℕ, ◌≡◌, refl, ◌⊎◌, inl, inr, List, Option, none, some, String, Bool, true, false,
}

-- The type of a Kubernetes event.
pub data Severity : Type 0 where
  normal warning : Severity

-- An error value. `errorf` is the result of `errors.New` or of `fmt.Errorf` without `%w`, its
-- format kept apart from its arguments; `wrap` is `fmt.Errorf` with `%w` at the end; `event` is a
-- `*reconciler.ReconcilerEvent` with its one argument, which its format prints by `%s`;
-- `response` is a `*gitlab.ErrorResponse` with the status code; `foreign` is any other error of
-- another package.
pub data Err : Type 0 where
  errorf : (format : String) → (args : List String) → Err
  wrap : (format : String) → (args : List String) → Err → Err
  event : Severity → (reason : String) → (format : String) → Err → Err
  response : (status : ℕ) → Err
  foreign : ℕ → Err

-- `errors.As(err, &glErr)` for a `*gitlab.ErrorResponse`. The `As` of an event searches an error
-- that `fmt.Errorf` builds from its format, which wraps nothing since the format has no `%w`.
unfoldable pub as_response : Err → Option ℕ
as_response (errorf f a) = none
as_response (wrap f a e) = as_response e
as_response (event s r f e) = none
as_response (response c) = some c
as_response (foreign n) = none

-- `reconciler.EventAs(err, &event)`: the type of the event that the error is or wraps.
unfoldable pub as_event : Err → Option Severity
as_event (errorf f a) = none
as_event (wrap f a e) = as_event e
as_event (event s r f e) = some s
as_event (response c) = none
as_event (foreign n) = none

-- The type assertion `err.(*reconciler.ReconcilerEvent)`.
unfoldable pub is_event : Err → Bool
is_event (event s r f e) = true
is_event _ = false

-- How a call ends: a panic unwinds past every caller.
pub data Result (A : Type 0) : Type 0 where
  ok : A → Result A
  err : Err → Result A
  panic : Result A

-- An action on a state: what was written before an error stays written.
abbrev pub Action : Type 0 → Type 0 → Type 0
Action S A = S → Result A × S

module _ {S A : Type 0} where
  abbrev pub pure : A → Action S A
  pure a s = (ok a, s)

  abbrev pub fail : Err → Action S A
  fail e s = (err e, s)

  -- The result of a call whose error the caller looks at. A panic is not caught.
  abbrev pub attempt : Action S A → Action S (Result A)
  attempt m s =
      let (r, s') = m s in
      elim r [ ok a ↦ (ok (ok a), s') | err e ↦ (ok (err e), s') | panic ↦ (panic, s') ]

  abbrev pub of_result : Result A → Action S A
  of_result r s = (r, s)

  abbrev pub crash : Action S A
  crash s = (panic, s)

infixl 5 ◌>>=◌ ◌>>◌
abbrev pub ◌>>=◌ : {S A B : Type 0} → Action S A → (A → Action S B) → Action S B
◌>>=◌ m f s =
    let (r, s') = m s in elim r [ ok a ↦ f a s' | err e ↦ (err e, s') | panic ↦ (panic, s') ]

abbrev pub ◌>>◌ : {S A B : Type 0} → Action S A → Action S B → Action S B
m >> k = m >>= λ _. k

abbrev pub modify : {S : Type 0} → (S → S) → Action S (Unit {0})
modify f s = (ok tt, f s)

-- `fmt.Errorf("…: %w", args…, err)` on the error path of a call.
abbrev pub wrapping : {S A : Type 0} → String → List String → Action S A → Action S A
wrapping f a m s =
    let (r, s') = m s in
    elim r [ ok x ↦ (ok x, s') | err e ↦ (err (wrap f a e), s') | panic ↦ (panic, s') ]

-- How a call has ended, with the equation.
pub ended :
    {S A : Type 0} (r : Result A × S)
    → ((a : A) × (s : S) × (r ≡ (ok a, s)))
      ⊎ ((e : Err) × (s : S) × (r ≡ (err e, s)))
      ⊎ ((s : S) × (r ≡ (panic, s)))
ended (ok a, s) = inl (a, s, refl)
ended (err e, s) = inr (inl (e, s, refl))
ended (panic, s) = inr (inr (s, refl))
