-- ===== src/Source/Status.antt =====
-- The conditions of a GitLabSource: pkg/apis/sources/v1alpha1/gitlabsource_lifecyle.go. The
-- condition manager of knative.dev/pkg/apis is a parameter with the behaviour it documents.
use eventing_gitlab.Base.{◌≡◌, ◌≢◌, ◌↔◌, Option, none, some, List, [], String}
use eventing_gitlab.Errors.{Err}
use eventing_gitlab.Source.Types.{GitLabSourceStatus}

-- `ready` is the condition that sums the others up.
pub data ConditionType : Type 0 where
  ready sink_provided deployed webhook_configured : ConditionType

-- A message as a format and the errors that it prints.
pub record Message : Type 0 where
  pub format : String
  pub args : List Err

pub data Condition : Type 0 where
  is_true : Condition
  is_false : (reason : String) → Message → Condition
  is_unknown : Condition

-- What `gitLabSourceCondSet.Manage` gives: the living set with the dependents `sink_provided`,
-- `deployed` and `webhook_configured`. `mark_true` makes the set ready just where every dependent
-- is true; `mark_false` passes its reason on to `ready`.
pub record ConditionManager (C : Type 0) : Type 0 where
  pub get : C → ConditionType → Condition
  pub mark_true : ConditionType → C → C
  pub mark_false : ConditionType → (reason : String) → Message → C → C
  pub get-mark_true : (t : ConditionType) (c : C) → t ≢ ready → get (mark_true t c) t ≡ is_true
  pub get-mark_true_ne :
      (t u : ConditionType) (c : C) → u ≢ t → u ≢ ready → get (mark_true t c) u ≡ get c u
  pub ready-mark_true :
      (t : ConditionType) (c : C)
      → t ≢ ready
      → (get (mark_true t c) ready ≡ is_true) ↔ (
          (get (mark_true t c) sink_provided ≡ is_true)
          × (get (mark_true t c) deployed ≡ is_true)
          × (get (mark_true t c) webhook_configured ≡ is_true))
  pub get-mark_false :
      (t : ConditionType) (reason : String) (m : Message) (c : C)
      → get (mark_false t reason m c) t ≡ is_false reason m
  pub get-mark_false_ne :
      (t u : ConditionType) (reason : String) (m : Message) (c : C)
      → u ≢ t
      → u ≢ ready
      → get (mark_false t reason m c) u ≡ get c u
  pub ready-mark_false :
      (t : ConditionType) (reason : String) (m : Message) (c : C)
      → get (mark_false t reason m c) ready ≡ is_false reason m

module _ {C : Type 0} (mgr : ConditionManager C) where
  open mgr use {mark_true, mark_false}

  -- `MarkSink`: a nil URI is no sink.
  unfoldable pub mark_sink : Option String → GitLabSourceStatus C → GitLabSourceStatus C
  mark_sink none s = record s {
    conditions =
        mark_false sink_provided "EmptySinkURI"
          (record { format = "The sink has no URI"; args = [] }) s.conditions;
    sink_uri = none;
  }
  mark_sink (some uri) s = record s {
    conditions = mark_true sink_provided s.conditions;
    sink_uri = some uri;
  }

  unfoldable pub mark_no_sink : GitLabSourceStatus C → GitLabSourceStatus C
  mark_no_sink s = record s {
    conditions =
        mark_false sink_provided "SinkNotFound"
          (record { format = "The sink does not exist or its URI is not set"; args = [] })
          s.conditions;
  }

  unfoldable pub mark_webhook : GitLabSourceStatus C → GitLabSourceStatus C
  mark_webhook s = record s { conditions = mark_true webhook_configured s.conditions }

  unfoldable pub mark_no_webhook :
      (reason : String) → Message → GitLabSourceStatus C → GitLabSourceStatus C
  mark_no_webhook reason m s = record s {
    conditions = mark_false webhook_configured reason m s.conditions;
  }

  unfoldable pub mark_deployed : GitLabSourceStatus C → GitLabSourceStatus C
  mark_deployed s = record s { conditions = mark_true deployed s.conditions }

  unfoldable pub mark_not_deployed :
      (reason : String) → Message → GitLabSourceStatus C → GitLabSourceStatus C
  mark_not_deployed reason m s = record s { conditions = mark_false deployed reason m s.conditions }
