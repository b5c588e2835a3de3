-- ===== src/Source/EventTypes/Laws.antt =====
-- `EventTypes` of a GitLabSource against the set of the types that its webhooks emit.

use text.Mathlib.TextLemmas.{append_cancel_left}
use eventing_gitlab.Base.{
  ◌≡◌, refl, ap, ◌↔◌, ◌⊎◌, inl, inr, true, List, [], ◌∷◌, map, String, arith, Bool-cases, In,
  Distinct, eq_iff,
}
use eventing_gitlab.Source.Types.{GitLabSource}
use eventing_gitlab.Source.EventTypes.{
  event_prefix_gitlab, gitlab_event_type, event_type_for_webhook, has_key, unique_types,
  event_types,
}
use eventing_gitlab.Source.EventTypes.Sorting.{
  IsSorted, In-sort_strings, sort_strings-IsSorted, sort_strings-Distinct, eq_of_members,
}

-- An order in which `range` may visit the keys of a map: each key, and each once.
pub record IsIteration (order : List String → List String) : Type 0 where
  pub visits : (a : String) (keys : List String) → In a (order keys) ↔ In a keys
  pub once : (keys : List String) → Distinct keys → Distinct (order keys)

pub has_key_iff : (k : String) (m : List String) → (has_key k m ≡ true) ↔ In k m
unfolding has_key
has_key_iff k [] = (λ e. cc, λ h. absurd h)
has_key_iff k (j ∷ m) = ground (arith, eq_iff k j, has_key_iff k m)

In-unique_types :
    (a : String) (seen hooks : List String)
    → In a (unique_types seen hooks) ↔ (In a seen ⊎ In a (map event_type_for_webhook hooks))
unfolding unique_types
In-unique_types a seen [] = (λ h. inl h, λ h. elim h [ inl k ↦ k | inr k ↦ absurd k ])
In-unique_types a seen (hook ∷ hooks) =
    let typ = event_type_for_webhook hook in
    elim (Bool-cases (has_key typ seen)) [
      | inl old ↦ rw old (known ((has_key_iff typ seen).0 old) (In-unique_types a seen hooks))
      | inr new ↦ rw new (fresh (In-unique_types a (typ ∷ seen) hooks))
    ]
  where
    known :
        {X : Type 0}
        → In (event_type_for_webhook hook) seen
        → X ↔ (In a seen ⊎ In a (map event_type_for_webhook hooks))
        → X ↔ (In a seen ⊎ In a (map event_type_for_webhook (hook ∷ hooks)))
    known k (to, from) = (
      λ x. elim (to x) [ inl p ↦ inl p | inr p ↦ inr (inr p) ],
      λ x. elim x [
        | inl p ↦ from (inl p)
        | inr q ↦ elim q [ inl e ↦ from (inl (rw e k)) | inr p ↦ from (inr p) ]
      ],
    )

    fresh :
        {X : Type 0}
        → X ↔ (In a (event_type_for_webhook hook ∷ seen) ⊎ In a (map event_type_for_webhook hooks))
        → X ↔ (In a seen ⊎ In a (map event_type_for_webhook (hook ∷ hooks)))
    fresh (to, from) = (
      λ x. elim (to x) [
        | inl p ↦ elim p [ inl e ↦ inr (inl e) | inr q ↦ inl q ]
        | inr p ↦ inr (inr p)
      ],
      λ x. elim x [
        | inl p ↦ from (inl (inr p))
        | inr q ↦ elim q [ inl e ↦ from (inl (inl e)) | inr p ↦ from (inr p) ]
      ],
    )

unique_types-Distinct :
    (seen hooks : List String) → Distinct seen → Distinct (unique_types seen hooks)
unfolding unique_types
unique_types-Distinct seen [] h = h
unique_types-Distinct seen (hook ∷ hooks) h =
    let typ = event_type_for_webhook hook in
    elim (Bool-cases (has_key typ seen)) [
      | inl old ↦ rw old (unique_types-Distinct seen hooks h)
      | inr new ↦ rw new (
          unique_types-Distinct (typ ∷ seen) hooks ((λ k. cc (new, (has_key_iff typ seen).1 k)), h))
    ]

gitlab_event_type_injective : (s t : String) → gitlab_event_type s ≡ gitlab_event_type t → s ≡ t
unfolding gitlab_event_type
gitlab_event_type_injective s t e = append_cancel_left event_prefix_gitlab s t e

In-map_event_type :
    (s : String) (xs : List String) → In (gitlab_event_type s) (map gitlab_event_type xs) → In s xs
In-map_event_type s [] h = h
In-map_event_type s (x ∷ xs) (inl e) = inl (gitlab_event_type_injective s x e)
In-map_event_type s (x ∷ xs) (inr h) = inr (In-map_event_type s xs h)

map-Distinct : (xs : List String) → Distinct xs → Distinct (map gitlab_event_type xs)
map-Distinct [] h = tt
map-Distinct (x ∷ xs) h = ((λ k. h.0 (In-map_event_type x xs k)), map-Distinct xs h.1)

-- Lists with the same members have images with the same members.
In-map_mono :
    (a : String) (f : String → String) (xs ys : List String)
    → ((b : String) → In b xs → In b ys)
    → In a (map f xs)
    → In a (map f ys)
In-map_mono a f [] ys sub h = absurd h
In-map_mono a f (x ∷ xs) ys sub (inl e) = rw e (image x ys (sub x (inl refl)))
  where
    image : (x : String) (ys : List String) → In x ys → In (f x) (map f ys)
    image x [] k = k
    image x (y ∷ ys) (inl e) = inl (ap f e)
    image x (y ∷ ys) (inr k) = inr (image x ys k)
In-map_mono a f (x ∷ xs) ys sub (inr h) = In-map_mono a f xs ys (λ b k. sub b (inr k)) h

map-map : (f g : String → String) (xs : List String) → map f (map g xs) ≡ map (λ x. f (g x)) xs
map-map f g [] = refl
map-map f g (x ∷ xs) = rw (map-map f g xs)

module _ {C : Type 0} (order : List String → List String) (h : IsIteration order)
    (s : GitLabSource C) where
  -- In whatever order the map of types is visited, the declared types are sorted, without
  -- repetitions, and exactly the prefixed types of the webhooks that the source lists.
  pub event_types-IsSorted :
      IsSorted (event_types order s)
      × Distinct (event_types order s)
      × ((t : String)
          → In t (event_types order s)
            ↔ In t
                (map (λ hook. gitlab_event_type (event_type_for_webhook hook)) s.spec.event_types))
  unfolding event_types
  event_types-IsSorted =
      let keys = unique_types [] s.spec.event_types in
      let members = λ (b : String). In-unique_types b [] s.spec.event_types in
      (
        sort_strings-IsSorted (map gitlab_event_type (order keys)),
        sort_strings-Distinct (map gitlab_event_type (order keys)) (
            map-Distinct (order keys)
              (h.once keys (unique_types-Distinct [] s.spec.event_types tt))),
        λ t. rw (← map-map gitlab_event_type event_type_for_webhook s.spec.event_types) (
          λ k.
              In-map_mono t gitlab_event_type (order keys) _
                (λ b m. elim ((members b).0 ((h.visits b keys).0 m)) [
                  | inl p ↦ absurd p
                  | inr p ↦ p
                ])
                ((In-sort_strings t (map gitlab_event_type (order keys))).0 k),
          λ k. (In-sort_strings t (map gitlab_event_type (order keys))).1 (
              In-map_mono t gitlab_event_type _ (order keys)
                (λ b m. (h.visits b keys).1 ((members b).1 (inr m))) k),
        ),
      )

-- In whatever orders two runs visit the map of types, they declare the same list for a source.
pub event_types_deterministic :
    {C : Type 0} (order order' : List String → List String)
    → IsIteration order
    → IsIteration order'
    → (s : GitLabSource C) → event_types order s ≡ event_types order' s
event_types_deterministic order order' h h' s =
    let (sorted, distinct, members) = event_types-IsSorted order h s in
    let (sorted', distinct', members') = event_types-IsSorted order' h' s in
    eq_of_members _ _ sorted distinct sorted' distinct'
      (λ a. (λ k. (members' a).1 ((members a).0 k), λ k. (members a).1 ((members' a).0 k)))
