-- ===== src/Copies/Bindings/Laws.antt =====
-- The deep copies of pkg/apis/bindings/v1alpha1.
use mathlib.Core.Option
use eventing_gitlab.Base.{ℕ, ◌≡◌, Option}
use eventing_gitlab.Memory.{Store, Slot}
use eventing_gitlab.Memory.Layouts.{
  Layout, Extends-trans, Gives, gives, bind, Whole, Fresh-Extends, Copies, copy_later, IsDeepCopy,
  Copies-IsDeepCopy,
}
use eventing_gitlab.Memory.Pointers.{pointer, each, copy_pointer-Copies, copy_each-Copies}
use eventing_gitlab.Copies.{Shape, Library, as_object-Gives}
use eventing_gitlab.Copies.Bindings.{
  BindingListStruct, BindingCells, git_lab_binding_list, copy_secret_value, copy_binding_spec,
  copy_binding_status, copy_binding, copy_binding_list, deep_copy_binding_list,
  binding_list_deep_copy_object,
}
use eventing_gitlab.Copies.Bindings.Layouts.{
  secret_value, binding_spec, binding_status, binding, items, binding_list,
}

module _ {Cell : Type 0} {s v : Shape} (cells : BindingCells Cell s) (lib : Library Cell s v) where
  copy_secret_value-Copies : Copies (secret_value cells lib) (copy_secret_value cells lib)
  unfolding copy_secret_value
  copy_secret_value-Copies t o m h =
      let selector = lib.secret_key_selector in
      bind
        (copy_pointer-Copies selector.layout cells.secret_key_selector selector.copies
          t.secret_key_ref o.secret_key_ref m h)
        λ ref m' fresh. gives fresh

  copy_binding_spec-Copies : Copies (binding_spec cells lib) (copy_binding_spec cells lib)
  unfolding copy_binding_spec
  copy_binding_spec-Copies t o m h =
      let base = lib.binding_spec.layout in
      bind (lib.binding_spec.copies t.binding_spec o.binding_spec m h.0) λ a m1 fa.
        bind
          (copy_later (secret_value cells lib) t.access_token o.access_token
            copy_secret_value-Copies fa.0 h.1)
          λ b m2 (eb, fb). gives (fb.0, ((Fresh-Extends base m a o.binding_spec eb fa).1, fb.1))

  copy_binding_status-Copies : Copies (binding_status cells lib) (copy_binding_status cells lib)
  unfolding copy_binding_status
  copy_binding_status-Copies t o m h =
      bind (lib.source_status.copies t.source_status o.source_status m h) λ a m1 fa. gives fa

  copy_binding-Copies : Copies (binding cells lib) (copy_binding cells lib)
  unfolding copy_binding
  copy_binding-Copies t o m h =
      let spec = binding_spec cells lib in
      bind (lib.object_meta.copies t.object_meta o.object_meta m h.1) λ a m1 fa.
        bind (copy_later spec t.spec o.spec copy_binding_spec-Copies fa.0 h.2) λ b m2 (eb, fb).
          bind
            (copy_later (binding_status cells lib) t.status o.status copy_binding_status-Copies fb.0
              h.3)
            λ c m3 (ec, fc). gives (
              fc.0,
              (
                h.0,
                (Fresh-Extends lib.object_meta.layout m a o.object_meta (Extends-trans eb ec) fa).1,
                (Fresh-Extends spec m b o.spec ec fb).1,
                fc.1,
              ),
            )

  copy_binding_list-Copies : Copies (binding_list cells lib) (copy_binding_list cells lib)
  unfolding copy_binding_list
  copy_binding_list-Copies t o m h =
      bind (lib.list_meta.copies t.list_meta o.list_meta m h.1) λ a m1 fa.
        bind
          (copy_later (items cells lib) t.items o.items
            (copy_pointer-Copies (each (binding cells lib)) cells.binding_array
              (copy_each-Copies (binding cells lib) copy_binding-Copies))
            fa.0 h.2)
          λ b m2 (eb, fb).
            gives (fb.0, (h.0, (Fresh-Extends lib.list_meta.layout m a o.list_meta eb fa).1, fb.1))

  -- A pointer to a `GitLabBindingList`.
  abbrev pub binding_list_pointer :
      Layout Cell (Slot (BindingListStruct s Slot)) (Option (BindingListStruct v Option))
  binding_list_pointer = pointer (binding_list cells lib) cells.binding_list

  deep_copy_binding_list-Copies : Copies binding_list_pointer (deep_copy_binding_list cells lib)
  unfolding deep_copy_binding_list
  deep_copy_binding_list-Copies =
      copy_pointer-Copies (binding_list cells lib) cells.binding_list copy_binding_list-Copies

  -- On every whole `GitLabBindingList`, and on nil, `DeepCopyObject` returns: the nil interface for nil,
  -- and else a pointer to a new list of bindings for the same values. The old memory is kept, and
  -- neither list changes by a later write to the cells of the other.
  pub binding_list_deep_copy_object-IsDeepCopy :
      (p : Option ℕ) (o : Option (BindingListStruct v Option)) (m : Store Cell)
      → Whole binding_list_pointer m p o
      → Gives
          (λ r m'.
            (q : Option ℕ) × (r ≡ Option.map git_lab_binding_list q)
            × IsDeepCopy binding_list_pointer m p o q m')
          (binding_list_deep_copy_object cells lib p m)
  unfolding binding_list_deep_copy_object
  binding_list_deep_copy_object-IsDeepCopy p o m whole =
      bind (Copies-IsDeepCopy binding_list_pointer deep_copy_binding_list-Copies p o m whole)
        λ q m' deep. as_object-Gives git_lab_binding_list q m' deep
