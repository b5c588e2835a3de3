-- ===== src/Copies/Bindings.antt =====
-- pkg/apis/bindings/v1alpha1/zz_generated.deepcopy.go, as Copies.Sources models the other package.
pub mod Layouts
pub mod Laws
use eventing_gitlab.Base.{ℕ, List, Option}
use eventing_gitlab.Memory.{Boxed, Run, Slot, pure, ◌>>=◌, copy_pointer, copy_each}
use eventing_gitlab.Copies.{Shape, TypeMeta, Library, as_object}

-- `SecretValueFromSource`
pub record SecretValueStruct (s : Shape) (At : Type 0 → Type 0) : Type 0 where
  pub secret_key_ref : At s.secret_key_selector

-- `GitLabBindingSpec`
pub record BindingSpecStruct (s : Shape) (At : Type 0 → Type 0) : Type 0 where
  pub binding_spec : s.binding_spec
  pub access_token : SecretValueStruct s At

-- `GitLabBindingStatus`
pub record BindingStatusStruct (s : Shape) : Type 0 where
  pub source_status : s.source_status

-- `GitLabBinding`
pub record BindingStruct (s : Shape) (At : Type 0 → Type 0) : Type 0 where
  pub type_meta : TypeMeta
  pub object_meta : s.object_meta
  pub spec : BindingSpecStruct s At
  pub status : BindingStatusStruct s

-- `GitLabBindingList`
pub record BindingListStruct (s : Shape) (At : Type 0 → Type 0) : Type 0 where
  pub type_meta : TypeMeta
  pub list_meta : s.list_meta
  pub items : At (List (BindingStruct s At))

-- The types that pointers and slices lead to.
pub record BindingCells (Cell : Type 0) (s : Shape) : Type 0 where
  pub secret_key_selector : Boxed Cell s.secret_key_selector
  pub secret_value : Boxed Cell (SecretValueStruct s Slot)
  pub spec : Boxed Cell (BindingSpecStruct s Slot)
  pub status : Boxed Cell (BindingStatusStruct s)
  pub binding : Boxed Cell (BindingStruct s Slot)
  pub binding_array : Boxed Cell (List (BindingStruct s Slot))
  pub binding_list : Boxed Cell (BindingListStruct s Slot)

-- A `runtime.Object` that is not nil: a pointer, with its type.
pub data BindingObject : Type 0 where
  git_lab_binding : (pointer : ℕ) → BindingObject
  git_lab_binding_list : (pointer : ℕ) → BindingObject

module _ {Cell : Type 0} {s v : Shape} (cells : BindingCells Cell s) (lib : Library Cell s v) where
  -- `SecretValueFromSource.DeepCopyInto`
  unfoldable pub copy_secret_value : SecretValueStruct s Slot → Run Cell (SecretValueStruct s Slot)
  copy_secret_value t = do
    ref ←
        copy_pointer cells.secret_key_selector lib.secret_key_selector.deep_copy_into
          t.secret_key_ref
    pure (record t { secret_key_ref = ref })

  -- `GitLabBindingSpec.DeepCopyInto`
  unfoldable pub copy_binding_spec : BindingSpecStruct s Slot → Run Cell (BindingSpecStruct s Slot)
  copy_binding_spec t = do
    base ← lib.binding_spec.deep_copy_into t.binding_spec
    access ← copy_secret_value t.access_token
    pure (record t { binding_spec = base; access_token = access })

  -- `GitLabBindingStatus.DeepCopyInto`
  unfoldable pub copy_binding_status : BindingStatusStruct s → Run Cell (BindingStatusStruct s)
  copy_binding_status t = do
    base ← lib.source_status.deep_copy_into t.source_status
    pure (record t { source_status = base })

  -- `GitLabBinding.DeepCopyInto`
  unfoldable pub copy_binding : BindingStruct s Slot → Run Cell (BindingStruct s Slot)
  copy_binding t = do
    meta ← lib.object_meta.deep_copy_into t.object_meta
    spec ← copy_binding_spec t.spec
    status ← copy_binding_status t.status
    pure (record t { object_meta = meta; spec = spec; status = status })

  -- `GitLabBindingList.DeepCopyInto`
  unfoldable pub copy_binding_list : BindingListStruct s Slot → Run Cell (BindingListStruct s Slot)
  copy_binding_list t = do
    meta ← lib.list_meta.deep_copy_into t.list_meta
    items ← copy_pointer cells.binding_array (copy_each copy_binding) t.items
    pure (record t { list_meta = meta; items = items })

  -- The `DeepCopy` of each type: nil for nil, and otherwise a pointer to a new struct.
  unfoldable pub deep_copy_binding_secret_value : Option ℕ → Run Cell (Option ℕ)
  deep_copy_binding_secret_value = copy_pointer cells.secret_value copy_secret_value

  unfoldable pub deep_copy_binding_spec : Option ℕ → Run Cell (Option ℕ)
  deep_copy_binding_spec = copy_pointer cells.spec copy_binding_spec

  unfoldable pub deep_copy_binding_status : Option ℕ → Run Cell (Option ℕ)
  deep_copy_binding_status = copy_pointer cells.status copy_binding_status

  unfoldable pub deep_copy_binding : Option ℕ → Run Cell (Option ℕ)
  deep_copy_binding = copy_pointer cells.binding copy_binding

  unfoldable pub deep_copy_binding_list : Option ℕ → Run Cell (Option ℕ)
  deep_copy_binding_list = copy_pointer cells.binding_list copy_binding_list

  -- `GitLabBinding.DeepCopyObject`
  unfoldable pub binding_deep_copy_object : Option ℕ → Run Cell (Option BindingObject)
  binding_deep_copy_object p = do c ← deep_copy_binding p; as_object git_lab_binding c

  -- `GitLabBindingList.DeepCopyObject`
  unfoldable pub binding_list_deep_copy_object : Option ℕ → Run Cell (Option BindingObject)
  binding_list_deep_copy_object p = do
    c ← deep_copy_binding_list p
    as_object git_lab_binding_list c
