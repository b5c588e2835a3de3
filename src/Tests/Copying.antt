-- ===== src/Tests/Copying.antt =====
-- Deep copies in a small memory, where the metadata of an object is a pointer to its finalizers and
-- the other structs of other packages are texts.
use mathlib.Core.Option
use eventing_gitlab.Base.{
  ℕ, zero, suc, ◌≡◌, refl, Option, none, some, List, [], ◌∷◌, String, true, arith,
}
use eventing_gitlab.Memory.{Boxed, Slot, Store, pure, copy_pointer}
use eventing_gitlab.Memory.Layouts.{Whole, Gives, IsDeepCopy}
use eventing_gitlab.Memory.Pointers.{plain, pointer, pure-Copies, copy_pointer-Copies}
use eventing_gitlab.Copies.{Shape, TypeMeta, Copier, Library}
use eventing_gitlab.Copies.Sources
use eventing_gitlab.Copies.Sources.{
  SourceSpecStruct, SourceStatusStruct, SourceStruct, SourceListStruct, SourceCells,
  deep_copy_source, source_list_deep_copy_object, git_lab_source_list,
}
use eventing_gitlab.Copies.Sources.Laws.{
  source_pointer, list_pointer, deep_copy_source-IsDeepCopy,
  source_list_deep_copy_object-IsDeepCopy,
}
use eventing_gitlab.Copies.Bindings
use eventing_gitlab.Copies.Sources.Layouts as SourceLayouts
use eventing_gitlab.Copies.Bindings.Layouts as BindingLayouts
use eventing_gitlab.Copies.Bindings.{
  BindingSpecStruct, BindingStatusStruct, BindingStruct, BindingListStruct, BindingCells,
  binding_list_deep_copy_object, git_lab_binding_list,
}
use eventing_gitlab.Copies.Bindings.Laws.{
  binding_list_pointer, binding_list_deep_copy_object-IsDeepCopy,
}

abbrev in_memory : Shape
in_memory = record {
  object_meta = Slot (List String);
  list_meta = String;
  source_spec = String;
  source_status = String;
  binding_spec = String;
  secret_key_selector = String;
}

abbrev as_value : Shape
as_value = record {
  object_meta = Option (List String);
  list_meta = String;
  source_spec = String;
  source_status = String;
  binding_spec = String;
  secret_key_selector = String;
}

data Cell : Type 0 where
  strings_cell : List String → Cell
  int_cell : ℕ → Cell
  selector_cell : String → Cell
  source_secret_cell : Sources.SecretValueStruct in_memory Slot → Cell
  source_spec_cell : SourceSpecStruct in_memory Slot → Cell
  source_status_cell : SourceStatusStruct in_memory Slot → Cell
  source_cell : SourceStruct in_memory Slot → Cell
  source_array_cell : List (SourceStruct in_memory Slot) → Cell
  source_list_cell : SourceListStruct in_memory Slot → Cell
  binding_secret_cell : Bindings.SecretValueStruct in_memory Slot → Cell
  binding_spec_cell : BindingSpecStruct in_memory Slot → Cell
  binding_status_cell : BindingStatusStruct in_memory → Cell
  binding_cell : BindingStruct in_memory Slot → Cell
  binding_array_cell : List (BindingStruct in_memory Slot) → Cell
  binding_list_cell : BindingListStruct in_memory Slot → Cell

abbrev strings_box : Boxed Cell (List String)
strings_box = record {
  wrap = strings_cell;
  unwrap = λ c. elim c [ strings_cell x ↦ some x | _ ↦ none ];
  unwrap-wrap = λ t. refl;
}

abbrev selector_box : Boxed Cell String
selector_box = record {
  wrap = selector_cell;
  unwrap = λ c. elim c [ selector_cell x ↦ some x | _ ↦ none ];
  unwrap-wrap = λ t. refl;
}

abbrev source_cells : SourceCells Cell in_memory
source_cells = record {
  string_array = strings_box;
  int = record {
    wrap = int_cell;
    unwrap = λ c. elim c [ int_cell x ↦ some x | _ ↦ none ];
    unwrap-wrap = λ t. refl;
  };
  secret_key_selector = selector_box;
  secret_value = record {
    wrap = source_secret_cell;
    unwrap = λ c. elim c [ source_secret_cell x ↦ some x | _ ↦ none ];
    unwrap-wrap = λ t. refl;
  };
  spec = record {
    wrap = source_spec_cell;
    unwrap = λ c. elim c [ source_spec_cell x ↦ some x | _ ↦ none ];
    unwrap-wrap = λ t. refl;
  };
  status = record {
    wrap = source_status_cell;
    unwrap = λ c. elim c [ source_status_cell x ↦ some x | _ ↦ none ];
    unwrap-wrap = λ t. refl;
  };
  source = record {
    wrap = source_cell;
    unwrap = λ c. elim c [ source_cell x ↦ some x | _ ↦ none ];
    unwrap-wrap = λ t. refl;
  };
  source_array = record {
    wrap = source_array_cell;
    unwrap = λ c. elim c [ source_array_cell x ↦ some x | _ ↦ none ];
    unwrap-wrap = λ t. refl;
  };
  source_list = record {
    wrap = source_list_cell;
    unwrap = λ c. elim c [ source_list_cell x ↦ some x | _ ↦ none ];
    unwrap-wrap = λ t. refl;
  };
}

abbrev binding_cells : BindingCells Cell in_memory
binding_cells = record {
  secret_key_selector = selector_box;
  secret_value = record {
    wrap = binding_secret_cell;
    unwrap = λ c. elim c [ binding_secret_cell x ↦ some x | _ ↦ none ];
    unwrap-wrap = λ t. refl;
  };
  spec = record {
    wrap = binding_spec_cell;
    unwrap = λ c. elim c [ binding_spec_cell x ↦ some x | _ ↦ none ];
    unwrap-wrap = λ t. refl;
  };
  status = record {
    wrap = binding_status_cell;
    unwrap = λ c. elim c [ binding_status_cell x ↦ some x | _ ↦ none ];
    unwrap-wrap = λ t. refl;
  };
  binding = record {
    wrap = binding_cell;
    unwrap = λ c. elim c [ binding_cell x ↦ some x | _ ↦ none ];
    unwrap-wrap = λ t. refl;
  };
  binding_array = record {
    wrap = binding_array_cell;
    unwrap = λ c. elim c [ binding_array_cell x ↦ some x | _ ↦ none ];
    unwrap-wrap = λ t. refl;
  };
  binding_list = record {
    wrap = binding_list_cell;
    unwrap = λ c. elim c [ binding_list_cell x ↦ some x | _ ↦ none ];
    unwrap-wrap = λ t. refl;
  };
}

abbrev text_copier : Copier Cell String String
text_copier = record { layout = plain String; deep_copy_into = pure; copies = pure-Copies String }

abbrev library : Library Cell in_memory as_value
library = record {
  object_meta = record {
    layout = pointer (plain (List String)) strings_box;
    deep_copy_into = copy_pointer strings_box pure;
    copies = copy_pointer-Copies (plain (List String)) strings_box (pure-Copies (List String));
  };
  list_meta = text_copier;
  source_spec = text_copier;
  source_status = text_copier;
  binding_spec = text_copier;
  secret_key_selector = text_copier;
}

abbrev source_meta : TypeMeta
source_meta = record { kind = "GitLabSource"; api_version = "v1alpha1" }

-- The source at address 3, with its finalizers, event types and access token at 0, 1 and 2.
abbrev stored_source : SourceStruct in_memory Slot
stored_source = record {
  type_meta = source_meta;
  object_meta = some 0;
  spec = record {
    source_spec = "sink";
    service_account_name = "default";
    project_url = "https://gitlab.example.com/a/b";
    event_types = some 1;
    access_token = record { secret_key_ref = some 2 };
    secret_token = record { secret_key_ref = none };
    ssl_verify = true;
  };
  status = record { source_status = "Ready"; webhook_id = none };
}

abbrev source_value : SourceStruct as_value Option
source_value = record {
  type_meta = source_meta;
  object_meta = some ("finalizer" ∷ []);
  spec = record {
    source_spec = "sink";
    service_account_name = "default";
    project_url = "https://gitlab.example.com/a/b";
    event_types = some ("push_events" ∷ "issues_events" ∷ []);
    access_token = record { secret_key_ref = some "token" };
    secret_token = record { secret_key_ref = none };
    ssl_verify = true;
  };
  status = record { source_status = "Ready"; webhook_id = none };
}

abbrev stored_binding : BindingStruct in_memory Slot
stored_binding = record {
  type_meta = source_meta;
  object_meta = some 0;
  spec = record { binding_spec = "subject"; access_token = record { secret_key_ref = some 2 } };
  status = record { source_status = "Ready" };
}

abbrev binding_value : BindingStruct as_value Option
binding_value = record {
  type_meta = source_meta;
  object_meta = some ("finalizer" ∷ []);
  spec = record {
    binding_spec = "subject";
    access_token = record { secret_key_ref = some "token" };
  };
  status = record { source_status = "Ready" };
}

abbrev cell_at : ℕ → Cell
cell_at zero = strings_cell ("finalizer" ∷ [])
cell_at (suc zero) = strings_cell ("push_events" ∷ "issues_events" ∷ [])
cell_at (suc (suc zero)) = selector_cell "token"
cell_at (suc (suc (suc zero))) = source_cell stored_source
cell_at (suc (suc (suc (suc zero)))) = source_array_cell (stored_source ∷ [])
cell_at (suc (suc (suc (suc (suc zero))))) =
    source_list_cell (record { type_meta = source_meta; list_meta = "7"; items = some 4 })
cell_at (suc (suc (suc (suc (suc (suc zero)))))) = binding_array_cell (stored_binding ∷ [])
cell_at (suc (suc (suc (suc (suc (suc (suc n))))))) =
    binding_list_cell (record { type_meta = source_meta; list_meta = "7"; items = some 6 })

abbrev memory : Store Cell
memory = record { next = 8; cell = cell_at }

-- The copy of the source stands behind the eight cells, and its own pointers behind it.
copied_to :
    Option.map (λ r. r.0) (deep_copy_source source_cells library (some 3) memory) ≡ some (some 8)
unfolding deep_copy_source copy_pointer Sources.copy_source Sources.copy_spec Sources.copy_status
    Sources.copy_secret_value
copied_to = refl

stored_source-Whole :
    Whole (SourceLayouts.source source_cells library) memory stored_source source_value
stored_source-Whole = (
  refl,
  (omega arith, ("finalizer" ∷ [], refl, refl)),
  (
    refl,
    refl,
    refl,
    (omega arith, ("push_events" ∷ "issues_events" ∷ [], refl, refl)),
    (omega arith, ("token", refl, refl)),
    tt,
    refl,
  ),
  (refl, tt),
)

stored_binding-Whole :
    Whole (BindingLayouts.binding binding_cells library) memory stored_binding binding_value
stored_binding-Whole = (
  refl,
  (omega arith, ("finalizer" ∷ [], refl, refl)),
  (refl, (omega arith, ("token", refl, refl))),
  refl,
)

deep_copy_source-IsDeepCopy_example :
    Gives
      (IsDeepCopy (source_pointer source_cells library) memory (some 3) (some source_value))
      (deep_copy_source source_cells library (some 3) memory)
deep_copy_source-IsDeepCopy_example =
    deep_copy_source-IsDeepCopy source_cells library (some 3) (some source_value) memory
      (omega arith, (stored_source, refl, stored_source-Whole))

abbrev stored_sources : SourceListStruct in_memory Slot
stored_sources = record { type_meta = source_meta; list_meta = "7"; items = some 4 }

abbrev sources_value : SourceListStruct as_value Option
sources_value = record {
  type_meta = source_meta;
  list_meta = "7";
  items = some (source_value ∷ []);
}

source_list_deep_copy_object-IsDeepCopy_example :
    Gives
      (λ r m'.
        (q : Option ℕ) × (r ≡ Option.map git_lab_source_list q)
        × IsDeepCopy (list_pointer source_cells library) memory (some 5) (some sources_value) q m')
      (source_list_deep_copy_object source_cells library (some 5) memory)
source_list_deep_copy_object-IsDeepCopy_example =
    source_list_deep_copy_object-IsDeepCopy source_cells library (some 5) (some sources_value)
      memory
      (
        omega arith,
        (
          stored_sources,
          refl,
          (refl, refl, (omega arith, (stored_source ∷ [], refl, (stored_source-Whole, tt)))),
        ),
      )

abbrev stored_bindings : BindingListStruct in_memory Slot
stored_bindings = record { type_meta = source_meta; list_meta = "7"; items = some 6 }

abbrev bindings_value : BindingListStruct as_value Option
bindings_value = record {
  type_meta = source_meta;
  list_meta = "7";
  items = some (binding_value ∷ []);
}

binding_list_deep_copy_object-IsDeepCopy_check :
    Gives
      (λ r m'.
        (q : Option ℕ) × (r ≡ Option.map git_lab_binding_list q)
        × IsDeepCopy
            (binding_list_pointer binding_cells library)
            memory
            (some 7)
            (some bindings_value)
            q
            m')
      (binding_list_deep_copy_object binding_cells library (some 7) memory)
binding_list_deep_copy_object-IsDeepCopy_check =
    binding_list_deep_copy_object-IsDeepCopy binding_cells library (some 7) (some bindings_value)
      memory
      (
        omega arith,
        (
          stored_bindings,
          refl,
          (refl, refl, (omega arith, (stored_binding ∷ [], refl, (stored_binding-Whole, tt)))),
        ),
      )
