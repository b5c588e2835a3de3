-- ===== src/Copies/Sources/Laws.antt =====
-- The deep copies of pkg/apis/sources/v1alpha1.
use mathlib.Core.Option
use eventing_gitlab.Base.{ℕ, ◌≡◌, Option}
use eventing_gitlab.Memory.{Store, Slot}
use eventing_gitlab.Memory.Layouts.{
  Layout, Extends-trans, Gives, gives, bind, Whole, Fresh-Extends, Copies, copy_later, IsDeepCopy,
  Copies-IsDeepCopy,
}
use eventing_gitlab.Memory.Pointers.{
  plain, pure-Copies, pointer, each, copy_pointer-Copies, copy_each-Copies,
}
use eventing_gitlab.Copies.{Shape, Library, as_object-Gives}
use eventing_gitlab.Copies.Sources.{
  SourceStruct, SourceListStruct, SourceCells, git_lab_source_list, copy_secret_value, copy_spec,
  copy_status, copy_source, copy_source_list, deep_copy_source, deep_copy_source_list,
  source_list_deep_copy_object,
}
use eventing_gitlab.Copies.Sources.Layouts.{
  strings, int_pointer, secret_value, source_spec, source_status, source, items, source_list,
}

module _ {Cell : Type 0} {s v : Shape} (cells : SourceCells Cell s) (lib : Library Cell s v) where
  copy_secret_value-Copies : Copies (secret_value cells lib) (copy_secret_value cells lib)
  unfolding copy_secret_value
  copy_secret_value-Copies t o m h =
      let selector = lib.secret_key_selector in
      bind
        (copy_pointer-Copies selector.layout cells.secret_key_selector selector.copies
          t.secret_key_ref o.secret_key_ref m h)
        λ ref m' fresh. gives fresh

  copy_spec-Copies : Copies (source_spec cells lib) (copy_spec cells lib)
  unfolding copy_spec
  copy_spec-Copies t o m h =
      let base = lib.source_spec.layout in
      let types = strings cells lib in
      let secret = secret_value cells lib in
      bind (lib.source_spec.copies t.source_spec o.source_spec m h.0) λ a m1 fa.
        bind
          (copy_later types t.event_types o.event_types
            (copy_pointer-Copies (plain _) cells.string_array (pure-Copies _)) fa.0 h.3)
          λ b m2 (eb, fb).
            bind (copy_later secret t.access_token o.access_token copy_secret_value-Copies fb.0 h.4)
              λ c m3 (ec, fc).
                bind
                  (copy_later secret t.secret_token o.secret_token copy_secret_value-Copies fc.0
                    h.5)
                  λ d m4 (ed, fd).
                    let ecd = Extends-trans ec ed in
                    gives (
                      fd.0,
                      (
                        (Fresh-Extends base m a o.source_spec (Extends-trans eb ecd) fa).1,
                        h.1,
                        h.2,
                        (Fresh-Extends types m b o.event_types ecd fb).1,
                        (Fresh-Extends secret m c o.access_token ed fc).1,
                        fd.1,
                        h.6,
                      ),
                    )

  copy_status-Copies : Copies (source_status cells lib) (copy_status cells lib)
  unfolding copy_status
  copy_status-Copies t o m h =
      bind (lib.source_status.copies t.source_status o.source_status m h.0) λ a m1 fa.
        bind
          (copy_later (int_pointer cells lib) t.webhook_id o.webhook_id
            (copy_pointer-Copies (plain _) cells.int (pure-Copies _)) fa.0 h.1)
          λ b m2 (eb, fb).
            gives
              (fb.0, ((Fresh-Extends lib.source_status.layout m a o.source_status eb fa).1, fb.1))

  copy_source-Copies : Copies (source cells lib) (copy_source cells lib)
  unfolding copy_source
  copy_source-Copies t o m h =
      let spec = source_spec cells lib in
      bind (lib.object_meta.copies t.object_meta o.object_meta m h.1) λ a m1 fa.
        bind (copy_later spec t.spec o.spec copy_spec-Copies fa.0 h.2) λ b m2 (eb, fb).
          bind (copy_later (source_status cells lib) t.status o.status copy_status-Copies fb.0 h.3)
            λ c m3 (ec, fc). gives (
              fc.0,
              (
                h.0,
                (Fresh-Extends lib.object_meta.layout m a o.object_meta (Extends-trans eb ec) fa).1,
                (Fresh-Extends spec m b o.spec ec fb).1,
                fc.1,
              ),
            )

  copy_source_list-Copies : Copies (source_list cells lib) (copy_source_list cells lib)
  unfolding copy_source_list
  copy_source_list-Copies t o m h =
      bind (lib.list_meta.copies t.list_meta o.list_meta m h.1) λ a m1 fa.
        bind
          (copy_later (items cells lib) t.items o.items
            (copy_pointer-Copies (each (source cells lib)) cells.source_array
              (copy_each-Copies (source cells lib) copy_source-Copies))
            fa.0 h.2)
          λ b m2 (eb, fb).
            gives (fb.0, (h.0, (Fresh-Extends lib.list_meta.layout m a o.list_meta eb fa).1, fb.1))

  -- A pointer to a `GitLabSource`, and to a `GitLabSourceList`.
  abbrev pub source_pointer :
      Layout Cell (Slot (SourceStruct s Slot)) (Option (SourceStruct v Option))
  source_pointer = pointer (source cells lib) cells.source

  abbrev pub list_pointer :
      Layout Cell (Slot (SourceListStruct s Slot)) (Option (SourceListStruct v Option))
  list_pointer = pointer (source_list cells lib) cells.source_list

  deep_copy_source-Copies : Copies source_pointer (deep_copy_source cells lib)
  unfolding deep_copy_source
  deep_copy_source-Copies = copy_pointer-Copies (source cells lib) cells.source copy_source-Copies

  deep_copy_source_list-Copies : Copies list_pointer (deep_copy_source_list cells lib)
  unfolding deep_copy_source_list
  deep_copy_source_list-Copies =
      copy_pointer-Copies (source_list cells lib) cells.source_list copy_source_list-Copies

  -- On every whole `GitLabSource`, and on nil, `DeepCopy` returns: nil for nil, and else a new source
  -- for the same value. The old memory is kept, and neither source changes by a later write to the
  -- cells of the other.
  pub deep_copy_source-IsDeepCopy :
      (p : Option ℕ) (o : Option (SourceStruct v Option)) (m : Store Cell)
      → Whole source_pointer m p o
      → Gives (IsDeepCopy source_pointer m p o) (deep_copy_source cells lib p m)
  deep_copy_source-IsDeepCopy p o m whole =
      Copies-IsDeepCopy source_pointer deep_copy_source-Copies p o m whole

  -- On every whole `GitLabSourceList`, and on nil, `DeepCopyObject` returns: the nil interface for nil,
  -- and else a pointer to a new list of sources for the same values. The old memory is kept, and
  -- neither list changes by a later write to the cells of the other.
  pub source_list_deep_copy_object-IsDeepCopy :
      (p : Option ℕ) (o : Option (SourceListStruct v Option)) (m : Store Cell)
      → Whole list_pointer m p o
      → Gives
          (λ r m'.
            (q : Option ℕ) × (r ≡ Option.map git_lab_source_list q)
            × IsDeepCopy list_pointer m p o q m')
          (source_list_deep_copy_object cells lib p m)
  unfolding source_list_deep_copy_object
  source_list_deep_copy_object-IsDeepCopy p o m whole =
      bind (Copies-IsDeepCopy list_pointer deep_copy_source_list-Copies p o m whole)
        λ q m' deep. as_object-Gives git_lab_source_list q m' deep
