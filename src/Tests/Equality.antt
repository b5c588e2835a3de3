-- ===== src/Tests/Equality.antt =====
-- Statuses can be told apart.
use native.Mathlib.Decide.{ℕ_discrete}
use eventing_gitlab.Base.{String, Bool-cases, inl, inr, eq_iff, arith, ◌==◌}
use eventing_gitlab.Errors.{Err}
use eventing_gitlab.Source.Types.{GitLabSourceStatus}
use eventing_gitlab.Tests.Board.{Board}

String-discrete : Discrete String
String-discrete a b = elim (Bool-cases (a == b)) [
  | inl same ↦ yes ((eq_iff a b).0 same)
  | inr other ↦ no (λ e. absurd (ground (arith, eq_iff a b)))
]

Err-discrete : Discrete Err
Err-discrete = hlevel (ℕ_discrete, String-discrete)

pub GitLabSourceStatus-discrete : Discrete (GitLabSourceStatus Board)
GitLabSourceStatus-discrete = hlevel (ℕ_discrete, String-discrete, Err-discrete)
