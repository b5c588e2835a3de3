-- ===== src/Copies/Bindings/Layouts.antt =====
-- What the structs of pkg/apis/bindings/v1alpha1 stand for, in memory.
use eventing_gitlab.Base.{◌≡◌, Option, List}
use eventing_gitlab.Memory.{Slot}
use eventing_gitlab.Memory.Layouts.{Layout}
use eventing_gitlab.Memory.Pointers.{pointer, each}
use eventing_gitlab.Copies.{Shape, Library}
use eventing_gitlab.Copies.Bindings.{
  SecretValueStruct, BindingSpecStruct, BindingStatusStruct, BindingStruct, BindingListStruct,
  BindingCells,
}

module _ {Cell : Type 0} {s v : Shape} (cells : BindingCells Cell s) (lib : Library Cell s v) where
  abbrev pub selector_pointer :
      Layout Cell (Slot s.secret_key_selector) (Option v.secret_key_selector)
  selector_pointer = pointer lib.secret_key_selector.layout cells.secret_key_selector

  abbrev pub secret_value : Layout Cell (SecretValueStruct s Slot) (SecretValueStruct v Option)
  secret_value = record {
    Represents = λ c S t o. selector_pointer.Represents c S t.secret_key_ref o.secret_key_ref;
    represents_agree = λ c c' S S' t o agree h.
        selector_pointer.represents_agree c c' S S' t.secret_key_ref o.secret_key_ref agree h;
  }

  abbrev pub binding_spec : Layout Cell (BindingSpecStruct s Slot) (BindingSpecStruct v Option)
  binding_spec = record {
    Represents = λ c S t o.
        lib.binding_spec.layout.Represents c S t.binding_spec o.binding_spec
        × secret_value.Represents c S t.access_token o.access_token;
    represents_agree = λ c c' S S' t o agree h. (
      lib.binding_spec.layout.represents_agree c c' S S' t.binding_spec o.binding_spec agree h.0,
      secret_value.represents_agree c c' S S' t.access_token o.access_token agree h.1,
    );
  }

  abbrev pub binding_status : Layout Cell (BindingStatusStruct s) (BindingStatusStruct v)
  binding_status = record {
    Represents = λ c S t o. lib.source_status.layout.Represents c S t.source_status o.source_status;
    represents_agree = λ c c' S S' t o agree h.
        lib.source_status.layout.represents_agree c c' S S' t.source_status o.source_status agree h;
  }

  abbrev pub binding : Layout Cell (BindingStruct s Slot) (BindingStruct v Option)
  binding = record {
    Represents = λ c S t o.
        (t.type_meta ≡ o.type_meta)
        × lib.object_meta.layout.Represents c S t.object_meta o.object_meta
        × binding_spec.Represents c S t.spec o.spec
        × binding_status.Represents c S t.status o.status;
    represents_agree = λ c c' S S' t o agree h. (
      h.0,
      lib.object_meta.layout.represents_agree c c' S S' t.object_meta o.object_meta agree h.1,
      binding_spec.represents_agree c c' S S' t.spec o.spec agree h.2,
      binding_status.represents_agree c c' S S' t.status o.status agree h.3,
    );
  }

  abbrev pub items :
      Layout Cell (Slot (List (BindingStruct s Slot))) (Option (List (BindingStruct v Option)))
  items = pointer (each binding) cells.binding_array

  abbrev pub binding_list : Layout Cell (BindingListStruct s Slot) (BindingListStruct v Option)
  binding_list = record {
    Represents = λ c S t o.
        (t.type_meta ≡ o.type_meta)
        × lib.list_meta.layout.Represents c S t.list_meta o.list_meta
        × items.Represents c S t.items o.items;
    represents_agree = λ c c' S S' t o agree h. (
      h.0,
      lib.list_meta.layout.represents_agree c c' S S' t.list_meta o.list_meta agree h.1,
      items.represents_agree c c' S S' t.items o.items agree h.2,
    );
  }
