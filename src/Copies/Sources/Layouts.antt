-- ===== src/Copies/Sources/Layouts.antt =====
-- What the structs of pkg/apis/sources/v1alpha1 stand for, in memory.
use eventing_gitlab.Base.{ℕ, ◌≡◌, Option, List, String}
use eventing_gitlab.Memory.{Slot}
use eventing_gitlab.Memory.Layouts.{Layout}
use eventing_gitlab.Memory.Pointers.{plain, pointer, each}
use eventing_gitlab.Copies.{Shape, Library}
use eventing_gitlab.Copies.Sources.{
  SecretValueStruct, SourceSpecStruct, SourceStatusStruct, SourceStruct, SourceListStruct,
  SourceCells,
}

module _ {Cell : Type 0} {s v : Shape} (cells : SourceCells Cell s) (lib : Library Cell s v) where
  abbrev pub selector_pointer :
      Layout Cell (Slot s.secret_key_selector) (Option v.secret_key_selector)
  selector_pointer = pointer lib.secret_key_selector.layout cells.secret_key_selector

  abbrev pub strings : Layout Cell (Slot (List String)) (Option (List String))
  strings = pointer (plain (List String)) cells.string_array

  abbrev pub int_pointer : Layout Cell (Slot ℕ) (Option ℕ)
  int_pointer = pointer (plain ℕ) cells.int

  abbrev pub secret_value : Layout Cell (SecretValueStruct s Slot) (SecretValueStruct v Option)
  secret_value = record {
    Represents = λ c S t o. selector_pointer.Represents c S t.secret_key_ref o.secret_key_ref;
    represents_agree = λ c c' S S' t o agree h.
        selector_pointer.represents_agree c c' S S' t.secret_key_ref o.secret_key_ref agree h;
  }

  abbrev pub source_spec : Layout Cell (SourceSpecStruct s Slot) (SourceSpecStruct v Option)
  source_spec = record {
    Represents = λ c S t o.
        lib.source_spec.layout.Represents c S t.source_spec o.source_spec
        × (t.service_account_name ≡ o.service_account_name)
        × (t.project_url ≡ o.project_url)
        × strings.Represents c S t.event_types o.event_types
        × secret_value.Represents c S t.access_token o.access_token
        × secret_value.Represents c S t.secret_token o.secret_token
        × (t.ssl_verify ≡ o.ssl_verify);
    represents_agree = λ c c' S S' t o agree h. (
      lib.source_spec.layout.represents_agree c c' S S' t.source_spec o.source_spec agree h.0,
      h.1,
      h.2,
      strings.represents_agree c c' S S' t.event_types o.event_types agree h.3,
      secret_value.represents_agree c c' S S' t.access_token o.access_token agree h.4,
      secret_value.represents_agree c c' S S' t.secret_token o.secret_token agree h.5,
      h.6,
    );
  }

  abbrev pub source_status : Layout Cell (SourceStatusStruct s Slot) (SourceStatusStruct v Option)
  source_status = record {
    Represents = λ c S t o.
        lib.source_status.layout.Represents c S t.source_status o.source_status
        × int_pointer.Represents c S t.webhook_id o.webhook_id;
    represents_agree = λ c c' S S' t o agree h. (
      lib.source_status.layout.represents_agree c c' S S' t.source_status o.source_status agree h.0,
      int_pointer.represents_agree c c' S S' t.webhook_id o.webhook_id agree h.1,
    );
  }

  abbrev pub source : Layout Cell (SourceStruct s Slot) (SourceStruct v Option)
  source = record {
    Represents = λ c S t o.
        (t.type_meta ≡ o.type_meta)
        × lib.object_meta.layout.Represents c S t.object_meta o.object_meta
        × source_spec.Represents c S t.spec o.spec
        × source_status.Represents c S t.status o.status;
    represents_agree = λ c c' S S' t o agree h. (
      h.0,
      lib.object_meta.layout.represents_agree c c' S S' t.object_meta o.object_meta agree h.1,
      source_spec.represents_agree c c' S S' t.spec o.spec agree h.2,
      source_status.represents_agree c c' S S' t.status o.status agree h.3,
    );
  }

  abbrev pub items :
      Layout Cell (Slot (List (SourceStruct s Slot))) (Option (List (SourceStruct v Option)))
  items = pointer (each source) cells.source_array

  abbrev pub source_list : Layout Cell (SourceListStruct s Slot) (SourceListStruct v Option)
  source_list = record {
    Represents = λ c S t o.
        (t.type_meta ≡ o.type_meta)
        × lib.list_meta.layout.Represents c S t.list_meta o.list_meta
        × items.Represents c S t.items o.items;
    represents_agree = λ c c' S S' t o agree h. (
      h.0,
      lib.list_meta.layout.represents_agree c c' S S' t.list_meta o.list_meta agree h.1,
      items.represents_agree c c' S S' t.items o.items agree h.2,
    );
  }
