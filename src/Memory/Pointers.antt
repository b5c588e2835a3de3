-- ===== src/Memory/Pointers.antt =====
-- What plain values, pointers and lists in memory stand for, and the copying of them.
use eventing_gitlab.Base.{ℕ, suc, ◌≡◌, ◌≢◌, refl, ◌∙◌, ap, Option, none, some, List, [], ◌∷◌, arith}
use eventing_gitlab.Memory.{Store, Run, Slot, write, Boxed, pure, copy_pointer, copy_each}
use eventing_gitlab.Memory.Layouts.{
  Layout, Between, Extends, Extends-refl, Extends-trans, Gives, gives, bind, mono, Whole,
  Whole-Extends, Fresh, Fresh-Extends, Copies, copy_later,
}

write_self : {Cell : Type 0} (c : ℕ → Cell) (p : ℕ) (x : Cell) → write c p x p ≡ x
write_self c p x = ground arith

write_other : {Cell : Type 0} (c : ℕ → Cell) (p q : ℕ) (x : Cell) → p ≢ q → write c p x q ≡ c q
write_other c p q x h = ground arith

module _ {Cell : Type 0} where
  -- A value without pointers stands for itself.
  abbrev pub plain : (T : Type 0) → Layout Cell T T
  plain T = record { Represents = λ c S t v. t ≡ v; represents_agree = λ c c' S S' t v agree h. h }

  pub pure-Copies : (T : Type 0) → Copies (plain T) pure
  pure-Copies T t v m h = gives (Extends-refl m, h)

  module _ {T V : Type 0} (l : Layout Cell T V) where
    abbrev pub Each : (ℕ → Cell) → (ℕ → Type 0) → List T → List V → Type 0
    Each c S [] [] = Unit
    Each c S [] (v ∷ vs) = ⊥
    Each c S (t ∷ ts) [] = ⊥
    Each c S (t ∷ ts) (v ∷ vs) = l.Represents c S t v × Each c S ts vs

    pub Each-agree :
        (c c' : ℕ → Cell) (S S' : ℕ → Type 0) (ts : List T) (vs : List V)
        → ((p : ℕ) → S p → S' p × (c' p ≡ c p))
        → Each c S ts vs
        → Each c' S' ts vs
    Each-agree c c' S S' [] [] agree h = tt
    Each-agree c c' S S' [] (v ∷ vs) agree h = h
    Each-agree c c' S S' (t ∷ ts) [] agree h = h
    Each-agree c c' S S' (t ∷ ts) (v ∷ vs) agree (h, hs) =
        (l.represents_agree c c' S S' t v agree h, Each-agree c c' S S' ts vs agree hs)

    -- The elements of an array, in order.
    abbrev pub each : Layout Cell (List T) (List V)
    each = record { Represents = Each; represents_agree = Each-agree }

    copy_each_later :
        {f : T → Run Cell T} (ts : List T) (vs : List V) {m m' : Store Cell}
        → Copies l f
        → Extends m m'
        → Whole each m ts vs
        → Gives (λ os m''. Extends m' m'' × Fresh each m vs os m'') (copy_each f ts m')
    unfolding copy_each
    copy_each_later [] [] {m} {m'} copies e h = gives (Extends-refl m', (e, tt))
    copy_each_later [] (v ∷ vs) copies e h = absurd h
    copy_each_later (t ∷ ts) [] copies e h = absurd h
    copy_each_later (t ∷ ts) (v ∷ vs) {m} {m'} copies e (h, hs) =
        bind (copy_later l t v copies e h) λ o m1 (e1, fresh).
          bind (copy_each_later ts vs copies fresh.0 hs) λ os m2 (e2, (e', all)).
            gives (Extends-trans e1 e2, (e', ((Fresh-Extends l m o v e2 fresh).1, all)))

    pub copy_each-Copies : {f : T → Run Cell T} → Copies l f → Copies each (copy_each f)
    copy_each-Copies copies ts vs m h =
        mono (copy_each_later ts vs copies (Extends-refl m) h) λ os m' (later, fresh). fresh

    module _ (box : Boxed Cell T) where
      abbrev pub PointsTo : (ℕ → Cell) → (ℕ → Type 0) → Slot T → Option V → Type 0
      PointsTo c S none none = Unit
      PointsTo c S none (some v) = ⊥
      PointsTo c S (some p) none = ⊥
      PointsTo c S (some p) (some v) =
          S p × ((t : T) × (box.unwrap (c p) ≡ some t) × l.Represents c S t v)

      pub pointer_agree :
          (c c' : ℕ → Cell) (S S' : ℕ → Type 0) (s : Slot T) (o : Option V)
          → ((p : ℕ) → S p → S' p × (c' p ≡ c p))
          → PointsTo c S s o
          → PointsTo c' S' s o
      pointer_agree c c' S S' none none agree h = tt
      pointer_agree c c' S S' none (some v) agree h = h
      pointer_agree c c' S S' (some p) none agree h = h
      pointer_agree c c' S S' (some p) (some v) agree (inside, (t, holds, r)) = (
        (agree p inside).0,
        (t, ap box.unwrap (agree p inside).1 ∙ holds, l.represents_agree c c' S S' t v agree r),
      )

      -- A pointer, or a slice.
      abbrev pub pointer : Layout Cell (Slot T) (Option V)
      pointer = record { Represents = PointsTo; represents_agree = pointer_agree }

      -- The memory behind `new`, and the one behind the copying into the new cell.
      new-Extends :
          (m : Store Cell) (x : Cell)
          → Extends m (record { next = suc m.next; cell = write m.cell m.next x })
      new-Extends m x = record {
        grows = omega arith;
        keeps = λ p h. write_other m.cell m.next p x (omega arith);
      }

      store-Fresh :
          {m m1 m2 : Store Cell} (y : T) (v : V)
          → m1.next ≡ suc m.next
          → Extends m m1
          → Fresh l m1 v y m2
          → Fresh pointer m
              (some v)
              (some m.next)
              (record m2 { cell = write m2.cell m.next (box.wrap y) })
      store-Fresh {m} {m1} {m2} y v one e (e', fresh) =
          let c = write m2.cell m.next (box.wrap y) in
          (
            record {
              grows = omega (arith, e.grows, e'.grows);
              keeps = λ p h.
                  write_other m2.cell m.next p (box.wrap y) (omega arith)
                  ∙ (Extends-trans e e').keeps p h;
            },
            (
              (omega arith, omega (arith, e'.grows)),
              (
                y,
                ap box.unwrap (write_self m2.cell m.next (box.wrap y)) ∙ box.unwrap-wrap y,
                l.represents_agree m2.cell c (Between m1.next m2.next) (Between m.next m2.next) y v
                    (λ p h. (
                      (omega (arith, h.0), h.1),
                      write_other m2.cell m.next p (box.wrap y) (omega (arith, h.0)),
                    ))
                    fresh,
              ),
            ),
          )

      pub copy_pointer-Copies :
          {f : T → Run Cell T} → Copies l f → Copies pointer (copy_pointer box f)
      unfolding copy_pointer
      copy_pointer-Copies copies none none m h = gives (Extends-refl m, tt)
      copy_pointer-Copies copies none (some v) m h = absurd h
      copy_pointer-Copies copies (some p) none m h = absurd h
      copy_pointer-Copies {f} copies (some p) (some v) m (inside, (t, holds, whole)) = rw holds (
          bind (copies t v _ (Whole-Extends l t v (new-Extends m (box.wrap t)) whole))
            λ y m2 fresh. gives (store-Fresh y v refl (new-Extends m (box.wrap t)) fresh))
