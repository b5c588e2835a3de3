-- ===== src/Binding/Status.antt =====
-- The status of a GitLabBinding: pkg/apis/bindings/v1alpha1/gitlabbinding_lifecycle.go.
use eventing_gitlab.Base.{ℕ, [], String}
use eventing_gitlab.Source.Status.{Message}
use eventing_gitlab.Binding.Types.{GitLabBindingStatus}

-- What `sbCondSet.Manage` gives: a living set with no dependents, so that `Ready` is all of it.
pub record ReadyManager (C : Type 0) : Type 0 where
  pub mark_true : C → C
  pub mark_false : (reason : String) → Message → C → C
  pub initialize : C → C

module _ {C : Type 0} (mgr : ReadyManager C) where
  unfoldable pub set_observed_generation : ℕ → GitLabBindingStatus C → GitLabBindingStatus C
  set_observed_generation gen s = record s { observed_generation = gen }

  unfoldable pub initialize_conditions : GitLabBindingStatus C → GitLabBindingStatus C
  initialize_conditions s = record s { conditions = mgr.initialize s.conditions }

  -- The message is given as a format with no arguments.
  unfoldable pub mark_binding_unavailable :
      (reason message : String) → GitLabBindingStatus C → GitLabBindingStatus C
  mark_binding_unavailable reason message s = record s {
    conditions = mgr.mark_false reason (record { format = message; args = [] }) s.conditions;
  }

  unfoldable pub mark_binding_available : GitLabBindingStatus C → GitLabBindingStatus C
  mark_binding_available s = record s { conditions = mgr.mark_true s.conditions }
