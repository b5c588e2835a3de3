-- ===== src/Memory.antt =====
-- The memory of a Go program, as far as copying needs it: cells at addresses, which are handed out in
-- order. A pointer and a slice are an address or nil; a slice is the array that it starts.
pub mod Layouts
pub mod Pointers
use eventing_gitlab.Base.{ℕ, suc, ◌≡◌, Option, none, some, List, [], ◌∷◌, nat_eq, if◌then◌else◌}

pub record Store (Cell : Type 0) : Type 0 where
  pub next : ℕ
  pub cell : ℕ → Cell

-- What a run leaves: a value and the memory behind it. `none` is a fault, such as a read of a cell
-- that holds another type.
abbrev pub Ended : (Cell A : Type 0) → Type 0
Ended Cell A = Option (A × Store Cell)

abbrev pub Run : (Cell A : Type 0) → Type 0
Run Cell A = Store Cell → Ended Cell A

-- Of a pointer, and of a slice, the memory shows an address or nil.
abbrev pub Slot : Type 0 → Type 0
Slot T = Option ℕ

abbrev pub write : {Cell : Type 0} → (ℕ → Cell) → ℕ → Cell → ℕ → Cell
write c p x q = if nat_eq p q then x else c q

-- How the cells hold values of a type.
pub record Boxed (Cell T : Type 0) : Type 0 where
  pub wrap : T → Cell
  pub unwrap : Cell → Option T
  pub unwrap-wrap : (t : T) → unwrap (wrap t) ≡ some t

module _ {Cell : Type 0} where
  abbrev pub pure : {A : Type 0} → A → Run Cell A
  pure a m = some (a, m)

  abbrev pub and_then : {A B : Type 0} → Ended Cell A → (A → Run Cell B) → Ended Cell B
  and_then none k = none
  and_then (some (a, m)) k = k a m

  infixl 5 ◌>>=◌ ◌>>◌
  abbrev pub ◌>>=◌ : {A B : Type 0} → Run Cell A → (A → Run Cell B) → Run Cell B
  f >>= k = λ m. and_then (f m) k

  abbrev pub ◌>>◌ : {A B : Type 0} → Run Cell A → Run Cell B → Run Cell B
  f >> g = f >>= λ _. g

  abbrev pub new : Cell → Run Cell ℕ
  new x m = some (m.next, record { next = suc m.next; cell = write m.cell m.next x })

  abbrev pub store : ℕ → Cell → Run Cell (Unit {0})
  store p x m = some (tt, record m { cell = write m.cell p x })

  module _ {T : Type 0} where
    abbrev pub read : Option T → Run Cell T
    read none m = none
    read (some t) m = some (t, m)

    abbrev pub load : Boxed Cell T → ℕ → Run Cell T
    load box p m = read (box.unwrap (m.cell p)) m

    -- The copy of what a pointer or a slice leads to: nothing for nil, and otherwise a new cell by `new`
    -- or `make`, which first holds a shallow copy, `*out = *in`, and then what `into` makes of it.
    unfoldable pub copy_pointer :
        Boxed Cell T → (into : T → Run Cell T) → Slot T → Run Cell (Slot T)
    copy_pointer box into none = pure none
    copy_pointer box into (some p) = do
      x ← load box p
      q ← new (box.wrap x)
      y ← into x
      store q (box.wrap y)
      pure (some q)

    -- `for i := range *in { (*in)[i].DeepCopyInto(&(*out)[i]) }`
    unfoldable pub copy_each : (into : T → Run Cell T) → List T → Run Cell (List T)
    copy_each into [] = pure []
    copy_each into (x ∷ xs) = do y ← into x; ys ← copy_each into xs; pure (y ∷ ys)
