-- ===== src/Fakes.antt =====
-- The fake clients for tests, pkg/client/clientset/versioned/typed: what both share. The object
-- tracker behind them is that of k8s.io/client-go/testing.
pub mod Sources
pub mod Bindings
pub mod Reading
pub mod Requests
use eventing_gitlab.Base.{Option, none, some, List, [], ◌∷◌, ◌++◌, String, Bool, if◌then◌else◌}
use eventing_gitlab.Errors.{Err, Result, ok, panic, Action}
use eventing_gitlab.Clientset.{ListOptions}

-- The calls that make a `testing.Action`, with what they are given; the resource and the kind stand
-- for themselves with their group and version.
pub data TestAction (A O : Type 0) : Type 0 where
  new_get_action : (resource namespace name : String) → TestAction A O
  new_list_action : (resource kind namespace : String) → ListOptions → TestAction A O
  new_watch_action : (resource namespace : String) → ListOptions → TestAction A O
  new_create_action : (resource namespace : String) → A → TestAction A O
  new_update_action : (resource namespace : String) → A → TestAction A O
  new_update_subresource_action : (resource subresource namespace : String) → A → TestAction A O
  new_delete_action_with_options : (resource namespace name : String) → O → TestAction A O
  new_delete_collection_action : (resource namespace : String) → ListOptions → TestAction A O
  new_patch_subresource_action :
      (resource namespace name patch_type bytes : String)
      → (sub_resources : List String) → TestAction A O

-- A list with its metadata, as a text.
pub record Listed (A : Type 0) : Type 0 where
  pub list_meta : String
  pub items : List A

-- A `runtime.Object` that is not nil.
pub data Object (A : Type 0) : Type 0 where
  one : A → Object A
  many : Listed A → Object A
  another : Object A

-- The empty object that is returned when nothing reacts.
pub data Default : Type 0 where
  empty_object empty_list : Default

-- A Go result, of which either part may be nil.
abbrev pub Pair : Type 0 → Type 0
Pair A = Option A × Option Err

-- `testing.Fake`, and the selectors of package labels: `extract` is the label that
-- `ExtractFromListOptions` gives.
pub record Fake (A O H L W : Type 0) : Type 0 where
  pub invokes : TestAction A O → Default → W → Pair (Object A) × W
  pub invokes_watch : TestAction A O → Action W H
  pub extract : ListOptions → Option L
  pub everything : L
  pub matches : L → A → Bool

module _ {A : Type 0} where
  -- `if obj == nil { return nil, err }; return obj.(*T), err`, where the assertion may panic.
  abbrev pub as_one : {W : Type 0} → Pair (Object A) × W → Result (Pair A) × W
  as_one ((none, e), w) = (ok (none, e), w)
  as_one ((some (one a), e), w) = (ok (some a, e), w)
  as_one ((some (many l), e), w) = (panic, w)
  as_one ((some another, e), w) = (panic, w)

  -- The items that a selector matches, in order.
  unfoldable pub matching : (A → Bool) → List A → List A
  matching test [] = []
  matching test (x ∷ xs) = let rest = matching test xs in if test x then x ∷ rest else rest

  -- The list with the items that its label matches.
  abbrev pub as_list :
      {W : Type 0} → (A → Bool) → Pair (Object A) × W → Result (Pair (Listed A)) × W
  as_list test ((none, e), w) = (ok (none, e), w)
  as_list test ((some (many l), e), w) =
      (ok (some (record { list_meta = l.list_meta; items = matching test l.items }), e), w)
  as_list test ((some (one a), e), w) = (panic, w)
  as_list test ((some another, e), w) = (panic, w)

-- `if label == nil { label = labels.Everything() }`
abbrev pub label_or : {L : Type 0} → L → Option L → L
label_or everything none = everything
label_or everything (some label) = label

-- `_, err := …; return err`
abbrev pub error_of : {A W : Type 0} → Pair (Object A) × W → Option Err × W
error_of ((o, e), w) = (e, w)
