-- ===== src/Clientset.antt =====
-- The generated typed clients: pkg/client/clientset/versioned/typed. A call of the REST client is a
-- request, put together by the methods of `rest.Interface`, which sends it.
pub mod Sources
pub mod Bindings
pub mod Local
pub mod Config
use eventing_gitlab.Base.{ℕ, Option, none, some, List, String, Bool}
use eventing_gitlab.Errors.{Action}
use Prim.Native.Nat.{◌*◌, ◌%◌, ◌^◌}

pub data Verb : Type 0 where
  get post put delete : Verb
  patch : (patch_type : String) → Verb

-- A `metav1.ListOptions`, of which the code reads and writes three fields. `selectors` is the rest,
-- and the seconds are a 64-bit word.
pub record ListOptions : Type 0 where
  pub label_selector : String
  pub selectors : String
  pub watch : Bool
  pub timeout_seconds : Option ℕ

-- The options of a call: those of a list, or any others, of the type `O`.
pub data Params (O : Type 0) : Type 0 where
  list_options : ListOptions → Params O
  other_options : O → Params O

pub data Body (A O : Type 0) : Type 0 where
  object : A → Body A O
  delete_options : O → Body A O
  patch_data : String → Body A O

-- What a `rest.Request` holds when it is sent. The timeout is in nanoseconds, as a 64-bit word.
pub record Request (A O : Type 0) : Type 0 where
  pub verb : Verb
  pub namespace : String
  pub resource : String
  pub name : Option String
  pub sub_resources : List String
  pub params : Option (Params O)
  pub timeout : Option ℕ
  pub body : Option (Body A O)

-- `rest.Interface`: the object, the list, the watch or the error that a request is answered by. `H`
-- is the type of watches.
pub record RestInterface (A O H W : Type 0) : Type 0 where
  pub do_into : Request A O → Action W A
  pub do_into_list : Request A O → Action W (List A)
  pub do_error : Request A O → Action W (Unit {0})
  pub do_watch : Request A O → Action W H

-- `time.Duration(*opts.TimeoutSeconds) * time.Second`, which wraps around, and zero without a
-- timeout.
unfoldable pub timeout_of : ListOptions → ℕ
timeout_of opts = elim opts.timeout_seconds [
  | none ↦ 0
  | some seconds ↦ (seconds * 1000000000) % 2 ^ 64
]
