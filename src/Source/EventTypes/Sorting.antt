-- ===== src/Source/EventTypes/Sorting.antt =====
-- `sort.Strings`, and lists of texts that are sorted and without repetitions.
use eventing_gitlab.Base.{
  ◌≡◌, refl, sym, ◌∙◌, ◌↔◌, ◌⊎◌, inl, inr, true, List, [], ◌∷◌, String, arith, Bool-cases, In,
  Distinct, All,
}
use eventing_gitlab.Base.Texts.{leb_text, leb_text_total, leb_text_trans, leb_text_antisymm}
use eventing_gitlab.Source.EventTypes.{insert_sorted, sort_strings}

-- Every element stands before all that follow it.
abbrev pub IsSorted : List String → Type 0
IsSorted [] = Unit
IsSorted (x ∷ xs) = All (λ y. leb_text x y ≡ true) xs × IsSorted xs

In-insert_sorted : (a x : String) (ys : List String) → In a (insert_sorted x ys) ↔ In a (x ∷ ys)
unfolding insert_sorted
In-insert_sorted a x [] = (λ h. h, λ h. h)
In-insert_sorted a x (y ∷ ys) = ground (arith, In-insert_sorted a x ys)

pub In-sort_strings : (a : String) (xs : List String) → In a (sort_strings xs) ↔ In a xs
unfolding sort_strings
In-sort_strings a [] = (λ h. h, λ h. h)
In-sort_strings a (x ∷ xs) =
    ground (arith, In-insert_sorted a x (sort_strings xs), In-sort_strings a xs)

All-lower :
    (x y : String) (ys : List String)
    → leb_text x y ≡ true
    → All (λ z. leb_text y z ≡ true) ys
    → All (λ z. leb_text x z ≡ true) ys
All-lower x y [] h k = tt
All-lower x y (z ∷ ys) h k = (leb_text_trans x y z h k.0, All-lower x y ys h k.1)

All-insert_sorted :
    (P : String → Type 0) (x : String) (ys : List String)
    → P x
    → All P ys
    → All P (insert_sorted x ys)
unfolding insert_sorted
All-insert_sorted P x [] p h = (p, tt)
All-insert_sorted P x (y ∷ ys) p h = elim (Bool-cases (leb_text x y)) [
  | inl e ↦ rw e (p, h)
  | inr e ↦ rw e (h.0, All-insert_sorted P x ys p h.1)
]

insert_sorted-IsSorted :
    (x : String) (ys : List String) → IsSorted ys → IsSorted (insert_sorted x ys)
unfolding insert_sorted
insert_sorted-IsSorted x [] h = (tt, tt)
insert_sorted-IsSorted x (y ∷ ys) h = elim (Bool-cases (leb_text x y)) [
  | inl e ↦ rw e ((e, All-lower x y ys e h.0), h)
  | inr e ↦ rw e (
    All-insert_sorted (λ z. leb_text y z ≡ true) x ys (ground (arith, leb_text_total x y)) h.0,
    insert_sorted-IsSorted x ys h.1,
  )
]

pub sort_strings-IsSorted : (xs : List String) → IsSorted (sort_strings xs)
unfolding sort_strings
sort_strings-IsSorted [] = tt
sort_strings-IsSorted (x ∷ xs) =
    insert_sorted-IsSorted x (sort_strings xs) (sort_strings-IsSorted xs)

insert_sorted-Distinct :
    (x : String) (ys : List String) → ¬ In x ys → Distinct ys → Distinct (insert_sorted x ys)
unfolding insert_sorted
insert_sorted-Distinct x [] n h = ((λ k. k), tt)
insert_sorted-Distinct x (y ∷ ys) n h = elim (Bool-cases (leb_text x y)) [
  | inl e ↦ rw e (n, h)
  | inr e ↦ rw e (
    λ k. elim ((In-insert_sorted y x ys).0 k) [ inl p ↦ n (inl (sym p)) | inr q ↦ h.0 q ],
    insert_sorted-Distinct x ys (λ k. n (inr k)) h.1,
  )
]

pub sort_strings-Distinct : (xs : List String) → Distinct xs → Distinct (sort_strings xs)
unfolding sort_strings
sort_strings-Distinct [] h = tt
sort_strings-Distinct (x ∷ xs) h =
    insert_sorted-Distinct x (sort_strings xs) (λ k. h.0 ((In-sort_strings x xs).0 k))
      (sort_strings-Distinct xs h.1)

All-In : (P : String → Type 0) (a : String) (xs : List String) → All P xs → In a xs → P a
All-In P a [] h k = absurd k
All-In P a (x ∷ xs) h (inl e) = rw e h.0
All-In P a (x ∷ xs) h (inr k) = All-In P a xs h.1 k

head_le :
    (x a : String) (xs : List String)
    → IsSorted (x ∷ xs)
    → In a (x ∷ xs)
    → (x ≡ a) ⊎ (leb_text x a ≡ true)
head_le x a xs h (inl e) = inl (sym e)
head_le x a xs h (inr k) = inr (All-In (λ z. leb_text x z ≡ true) a xs h.0 k)

heads_equal :
    (x y : String) (xs ys : List String)
    → IsSorted (x ∷ xs)
    → IsSorted (y ∷ ys)
    → ((a : String) → In a (x ∷ xs) ↔ In a (y ∷ ys))
    → x ≡ y
heads_equal x y xs ys hx hy same = elim (head_le x y xs hx ((same y).1 (inl refl))) [
  | inl e ↦ e
  | inr p ↦ elim (head_le y x ys hy ((same x).0 (inl refl))) [
    | inl e ↦ sym e
    | inr q ↦ leb_text_antisymm x y p q
  ]
]

-- A sorted list without repetitions is determined by its members.
pub eq_of_members :
    (xs ys : List String)
    → IsSorted xs
    → Distinct xs
    → IsSorted ys
    → Distinct ys
    → ((a : String) → In a xs ↔ In a ys)
    → xs ≡ ys
eq_of_members [] [] sx dx sy dy same = refl
eq_of_members [] (y ∷ ys) sx dx sy dy same = absurd ((same y).1 (inl refl))
eq_of_members (x ∷ xs) [] sx dx sy dy same = absurd ((same x).0 (inl refl))
eq_of_members (x ∷ xs) (y ∷ ys) sx dx sy dy same =
    let e = heads_equal x y xs ys sx sy same in
    let there = λ (a : String) (k : In a xs). elim ((same a).0 (inr k)) as (λ _. In a ys) [
      | inl p ↦ absurd (dx.0 (rw (e ∙ sym p) k))
      | inr q ↦ q
    ] in
    let back = λ (a : String) (k : In a ys). elim ((same a).1 (inr k)) as (λ _. In a xs) [
      | inl p ↦ absurd (dy.0 (rw (sym e ∙ sym p) k))
      | inr q ↦ q
    ] in
    let tails = eq_of_members xs ys sx.1 dx.1 sy.1 dy.1 (λ a. (there a, back a)) in
    λ i. e i ∷ tails i
