-- ===== src/Copies/Sources.antt =====
-- pkg/apis/sources/v1alpha1/zz_generated.deepcopy.go. `At T` is a pointer to `T`, or a slice that is
-- an array `T`: an address in memory, and an `Option T` as a value. A `DeepCopyInto` gives the
-- struct that it writes to `out`, of which it reads nothing.
pub mod Layouts
pub mod Laws
use eventing_gitlab.Base.{ℕ, String, List, Bool, Option}
use eventing_gitlab.Memory.{Boxed, Run, Slot, pure, ◌>>=◌, copy_pointer, copy_each}
use eventing_gitlab.Copies.{Shape, TypeMeta, Library, as_object}

-- `SecretValueFromSource`
pub record SecretValueStruct (s : Shape) (At : Type 0 → Type 0) : Type 0 where
  pub secret_key_ref : At s.secret_key_selector

-- `GitLabSourceSpec`
pub record SourceSpecStruct (s : Shape) (At : Type 0 → Type 0) : Type 0 where
  pub source_spec : s.source_spec
  pub service_account_name : String
  pub project_url : String
  pub event_types : At (List String)
  pub access_token : SecretValueStruct s At
  pub secret_token : SecretValueStruct s At
  pub ssl_verify : Bool

-- `GitLabSourceStatus`
pub record SourceStatusStruct (s : Shape) (At : Type 0 → Type 0) : Type 0 where
  pub source_status : s.source_status
  pub webhook_id : At ℕ

-- `GitLabSource`
pub record SourceStruct (s : Shape) (At : Type 0 → Type 0) : Type 0 where
  pub type_meta : TypeMeta
  pub object_meta : s.object_meta
  pub spec : SourceSpecStruct s At
  pub status : SourceStatusStruct s At

-- `GitLabSourceList`
pub record SourceListStruct (s : Shape) (At : Type 0 → Type 0) : Type 0 where
  pub type_meta : TypeMeta
  pub list_meta : s.list_meta
  pub items : At (List (SourceStruct s At))

-- The types that pointers and slices lead to.
pub record SourceCells (Cell : Type 0) (s : Shape) : Type 0 where
  pub string_array : Boxed Cell (List String)
  pub int : Boxed Cell ℕ
  pub secret_key_selector : Boxed Cell s.secret_key_selector
  pub secret_value : Boxed Cell (SecretValueStruct s Slot)
  pub spec : Boxed Cell (SourceSpecStruct s Slot)
  pub status : Boxed Cell (SourceStatusStruct s Slot)
  pub source : Boxed Cell (SourceStruct s Slot)
  pub source_array : Boxed Cell (List (SourceStruct s Slot))
  pub source_list : Boxed Cell (SourceListStruct s Slot)

-- A `runtime.Object` that is not nil: a pointer, with its type.
pub data SourceObject : Type 0 where
  git_lab_source : (pointer : ℕ) → SourceObject
  git_lab_source_list : (pointer : ℕ) → SourceObject

module _ {Cell : Type 0} {s v : Shape} (cells : SourceCells Cell s) (lib : Library Cell s v) where
  -- `SecretValueFromSource.DeepCopyInto`
  unfoldable pub copy_secret_value : SecretValueStruct s Slot → Run Cell (SecretValueStruct s Slot)
  copy_secret_value t = do
    ref ←
        copy_pointer cells.secret_key_selector lib.secret_key_selector.deep_copy_into
          t.secret_key_ref
    pure (record t { secret_key_ref = ref })

  -- `GitLabSourceSpec.DeepCopyInto`
  unfoldable pub copy_spec : SourceSpecStruct s Slot → Run Cell (SourceSpecStruct s Slot)
  copy_spec t = do
    base ← lib.source_spec.deep_copy_into t.source_spec
    types ← copy_pointer cells.string_array pure t.event_types
    access ← copy_secret_value t.access_token
    secret ← copy_secret_value t.secret_token
    pure (record t {
      source_spec = base;
      event_types = types;
      access_token = access;
      secret_token = secret;
    })

  -- `GitLabSourceStatus.DeepCopyInto`
  unfoldable pub copy_status : SourceStatusStruct s Slot → Run Cell (SourceStatusStruct s Slot)
  copy_status t = do
    base ← lib.source_status.deep_copy_into t.source_status
    id ← copy_pointer cells.int pure t.webhook_id
    pure (record t { source_status = base; webhook_id = id })

  -- `GitLabSource.DeepCopyInto`
  unfoldable pub copy_source : SourceStruct s Slot → Run Cell (SourceStruct s Slot)
  copy_source t = do
    meta ← lib.object_meta.deep_copy_into t.object_meta
    spec ← copy_spec t.spec
    status ← copy_status t.status
    pure (record t { object_meta = meta; spec = spec; status = status })

  -- `GitLabSourceList.DeepCopyInto`
  unfoldable pub copy_source_list : SourceListStruct s Slot → Run Cell (SourceListStruct s Slot)
  copy_source_list t = do
    meta ← lib.list_meta.deep_copy_into t.list_meta
    items ← copy_pointer cells.source_array (copy_each copy_source) t.items
    pure (record t { list_meta = meta; items = items })

  -- The `DeepCopy` of each type: nil for nil, and otherwise a pointer to a new struct.
  unfoldable pub deep_copy_secret_value : Option ℕ → Run Cell (Option ℕ)
  deep_copy_secret_value = copy_pointer cells.secret_value copy_secret_value

  unfoldable pub deep_copy_spec : Option ℕ → Run Cell (Option ℕ)
  deep_copy_spec = copy_pointer cells.spec copy_spec

  unfoldable pub deep_copy_status : Option ℕ → Run Cell (Option ℕ)
  deep_copy_status = copy_pointer cells.status copy_status

  unfoldable pub deep_copy_source : Option ℕ → Run Cell (Option ℕ)
  deep_copy_source = copy_pointer cells.source copy_source

  unfoldable pub deep_copy_source_list : Option ℕ → Run Cell (Option ℕ)
  deep_copy_source_list = copy_pointer cells.source_list copy_source_list

  -- `GitLabSource.DeepCopyObject`
  unfoldable pub source_deep_copy_object : Option ℕ → Run Cell (Option SourceObject)
  source_deep_copy_object p = do c ← deep_copy_source p; as_object git_lab_source c

  -- `GitLabSourceList.DeepCopyObject`
  unfoldable pub source_list_deep_copy_object : Option ℕ → Run Cell (Option SourceObject)
  source_list_deep_copy_object p = do c ← deep_copy_source_list p; as_object git_lab_source_list c
