-- ===== src/Copies.antt =====
-- The deep copies of the API types, zz_generated.deepcopy.go of pkg/apis, over memory: what the
-- copies of both resources share.
pub mod Sources
pub mod Bindings
use mathlib.Core.Option
use eventing_gitlab.Base.{ℕ, ◌≡◌, refl, Option, none, some, String}
use eventing_gitlab.Memory.{Store, Run, pure, and_then}
use eventing_gitlab.Memory.Layouts.{Layout, Copies, Gives, gives, bind}

-- The types of the structs of other packages, in memory or as values.
pub record Shape : Type 1 where
  pub object_meta : Type 0
  pub list_meta : Type 0
  pub source_spec : Type 0
  pub source_status : Type 0
  pub binding_spec : Type 0
  pub secret_key_selector : Type 0

-- A `metav1.TypeMeta`, which has no pointers.
pub record TypeMeta : Type 0 where
  pub kind : String
  pub api_version : String

-- The `DeepCopyInto` of a struct of another package, as the struct that it writes, and what is
-- documented of it: it copies.
pub record Copier (Cell T V : Type 0) : Type 1 where
  pub layout : Layout Cell T V
  pub deep_copy_into : T → Run Cell T
  pub copies : Copies layout deep_copy_into

-- The copying of the structs of other packages, which are of the shape `m` in memory and of the shape
-- `v` as values.
pub record Library (Cell : Type 0) (m v : Shape) : Type 1 where
  pub object_meta : Copier Cell m.object_meta v.object_meta
  pub list_meta : Copier Cell m.list_meta v.list_meta
  pub source_spec : Copier Cell m.source_spec v.source_spec
  pub source_status : Copier Cell m.source_status v.source_status
  pub binding_spec : Copier Cell m.binding_spec v.binding_spec
  pub secret_key_selector : Copier Cell m.secret_key_selector v.secret_key_selector

module _ {Cell O : Type 0} where
  -- `if c := in.DeepCopy(); c != nil { return c }; return nil`, where an interface that is not nil
  -- holds a pointer with its type.
  abbrev pub as_object : (ℕ → O) → Option ℕ → Run Cell (Option O)
  as_object object (some c) = pure (some (object c))
  as_object object none = pure none

  -- So the interface is nil just where the copy is, and else it holds the copy.
  pub as_object-Gives :
      (object : ℕ → O) {P : Option ℕ → Store Cell → Type 0} (q : Option ℕ) (m : Store Cell)
      → P q m
      → Gives (λ o m'. (r : Option ℕ) × (o ≡ Option.map object r) × P r m') (as_object object q m)
  as_object-Gives object none m h = gives (none, refl, h)
  as_object-Gives object (some c) m h = gives (some c, refl, h)
