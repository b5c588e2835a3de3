-- ===== src/Memory/Layouts.antt =====
-- What a value in memory stands for, and what it means to copy it.
use eventing_gitlab.Base.{ℕ, ◌≤◌, ◌<◌, ◌≡◌, refl, ◌∙◌, some, arith}
use eventing_gitlab.Memory.{Store, Ended, Run, and_then}

abbrev pub Below : ℕ → ℕ → Type 0
Below high p = p < high

abbrev pub Between : ℕ → ℕ → ℕ → Type 0
Between low high p = (low ≤ p) × (p < high)

-- How a value of `T` in memory stands for a value of `V`: what the cells hold, and that every address
-- on the way is in a set. It depends on the cells at these addresses only.
pub record Layout (Cell T V : Type 0) : Type 1 where
  pub Represents : (ℕ → Cell) → (ℕ → Type 0) → T → V → Type 0
  pub represents_agree :
      (c c' : ℕ → Cell) (S S' : ℕ → Type 0) (t : T) (v : V)
      → ((p : ℕ) → S p → S' p × (c' p ≡ c p))
      → Represents c S t v
      → Represents c' S' t v

-- Memory that is made of another by new cells alone.
pub record Extends {Cell : Type 0} (m m' : Store Cell) : Type 0 where
  pub grows : m.next ≤ m'.next
  pub keeps : (p : ℕ) → p < m.next → m'.cell p ≡ m.cell p

-- The run ends without a fault, with this behind it.
pub data Gives {Cell A : Type 0} (P : A → Store Cell → Type 0) : Ended Cell A → Type 0 where
  gives : {a : A} {m : Store Cell} → P a m → Gives P (some (a, m))

module _ {Cell : Type 0} where
  pub Extends-refl : (m : Store Cell) → Extends m m
  Extends-refl m = record { grows = omega arith; keeps = λ p h. refl }

  pub Extends-trans : {m m' m'' : Store Cell} → Extends m m' → Extends m' m'' → Extends m m''
  Extends-trans {m} {m'} {m''} e f = record {
    grows = omega (arith, e.grows, f.grows);
    keeps = λ p h. f.keeps p (omega (arith, e.grows)) ∙ e.keeps p h;
  }

  pub bind :
      {A B : Type 0} {P : A → Store Cell → Type 0} {Q : B → Store Cell → Type 0} {r : Ended Cell A}
      {k : A → Run Cell B}
      → Gives P r
      → ((a : A) (m : Store Cell) → P a m → Gives Q (k a m))
      → Gives Q (and_then r k)
  bind (gives p) next = next _ _ p

  pub mono :
      {A : Type 0} {P Q : A → Store Cell → Type 0} {r : Ended Cell A}
      → Gives P r
      → ((a : A) (m : Store Cell) → P a m → Q a m)
      → Gives Q r
  mono (gives p) weaken = gives (weaken _ _ p)

  -- The value behind a run, with its properties.
  pub Gives-some :
      {A : Type 0} {P : A → Store Cell → Type 0} {r : Ended Cell A}
      → Gives P r
      → (a : A) × (m : Store Cell) × (r ≡ some (a, m)) × P a m
  Gives-some (gives {a} {m} p) = (a, m, refl, p)

  module _ {T V : Type 0} (l : Layout Cell T V) where
    -- A value that is whole: every address on the way is in use.
    abbrev pub Whole : Store Cell → T → V → Type 0
    Whole m t v = l.Represents m.cell (Below m.next) t v

    -- A value all of whose cells are new since `m`.
    abbrev pub Fresh : (m : Store Cell) → V → T → Store Cell → Type 0
    Fresh m v t m' = Extends m m' × l.Represents m'.cell (Between m.next m'.next) t v

    -- A copying function: on every whole value it ends without a fault, leaves all cells as they are,
    -- and gives a value that stands for the same and has new cells only.
    abbrev pub Copies : (T → Run Cell T) → Type 0
    Copies f = (t : T) (v : V) (m : Store Cell) → Whole m t v → Gives (Fresh m v) (f t m)

    pub Whole-Extends :
        {m m' : Store Cell} (t : T) (v : V) → Extends m m' → Whole m t v → Whole m' t v
    Whole-Extends {m} {m'} t v e =
        l.represents_agree m.cell m'.cell (Below m.next) (Below m'.next) t v
          λ p h. (omega (arith, e.grows), e.keeps p h)

    pub Fresh-Extends :
        (m : Store Cell) {m' m'' : Store Cell} (t : T) (v : V)
        → Extends m' m''
        → Fresh m v t m'
        → Fresh m v t m''
    Fresh-Extends m {m'} {m''} t v e (first, fresh) = (
      Extends-trans first e,
      l.represents_agree m'.cell m''.cell (Between m.next m'.next) (Between m.next m''.next) t v
          (λ p h. ((h.0, omega (arith, h.1, e.grows)), e.keeps p h.1)) fresh,
    )

    -- A copy that is made later, of a value that was there at first.
    pub copy_later :
        {f : T → Run Cell T} {m m' : Store Cell} (t : T) (v : V)
        → Copies f
        → Extends m m'
        → Whole m t v
        → Gives (λ o m''. Extends m' m'' × Fresh m v o m'') (f t m')
    copy_later {f} {m} {m'} t v copies e whole =
        mono (copies t v m' (Whole-Extends t v e whole)) λ o m'' (later, fresh). (
          later,
          (
            Extends-trans e later,
            l.represents_agree m''.cell m''.cell (Between m'.next m''.next)
                (Between m.next m''.next) o v (λ p h. ((omega (arith, h.0, e.grows), h.1), refl))
                fresh,
          ),
        )

    -- `new` in the memory `m'` is a deep copy of `old` in the memory `m`: the old memory is kept, both
    -- stand for the same value, and whatever is written later to the cells of the one, or to newer
    -- ones, the other stands for it still.
    pub record IsDeepCopy (m : Store Cell) (old : T) (v : V) (new : T) (m' : Store Cell)
        : Type 0 where
      pub extends : Extends m m'
      pub new_whole : Whole m' new v
      pub old_kept :
          (c : ℕ → Cell)
          → ((p : ℕ) → p < m.next → c p ≡ m'.cell p)
          → l.Represents c (Below m.next) old v
      pub new_kept :
          (c : ℕ → Cell)
          → ((p : ℕ) → Between m.next m'.next p → c p ≡ m'.cell p)
          → l.Represents c (Between m.next m'.next) new v

    -- What a copying function gives is a deep copy.
    pub Copies-IsDeepCopy :
        {f : T → Run Cell T}
        → Copies f
        → (t : T) (v : V) (m : Store Cell) → Whole m t v
        → Gives (IsDeepCopy m t v) (f t m)
    Copies-IsDeepCopy copies t v m whole = mono (copies t v m whole) λ o m' (e, fresh). record {
      extends = e;
      new_whole =
          l.represents_agree m'.cell m'.cell (Between m.next m'.next) (Below m'.next) o v
            (λ p h. (h.1, refl)) fresh;
      old_kept = λ c same.
          l.represents_agree m.cell c (Below m.next) (Below m.next) t v
            (λ p h. (h, same p h ∙ e.keeps p h)) whole;
      new_kept = λ c same.
          l.represents_agree m'.cell c (Between m.next m'.next) (Between m.next m'.next) o v
            (λ p h. (h, same p h)) fresh;
    }
