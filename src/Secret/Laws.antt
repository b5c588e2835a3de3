-- ===== src/Secret/Laws.antt =====
-- The getter against reading each Secret object anew.
use eventing_gitlab.Base.{
  ◌≡◌, refl, ◌⊎◌, inl, inr, Option, none, some, List, [], ◌∷◌, String, arith, length, Option-cases,
  eq_iff,
}
use eventing_gitlab.Errors.{Err, wrap, Result, ok, err, panic, ended}
use eventing_gitlab.Source.Types.{SecretKeySelector}
use eventing_gitlab.Secret.{
  SecretData, secret_value, Cache, find_secret, SecretInterface, fetch, get_from, get,
}

-- One value for each selector, each Secret object read where it is needed.
abbrev pub read_each :
    (String → Result SecretData) → List (Option SecretKeySelector) → Result (List String)
read_each look [] = ok []
read_each look (none ∷ refs) = elim (read_each look refs) [
  | ok vals ↦ ok ("" ∷ vals)
  | err e ↦ err e
  | panic ↦ panic
]
read_each look (some ref ∷ refs) = elim (look ref.name) [
  | err e ↦ err (wrap "getting Secret %q from cluster: %w" (ref.name ∷ []) e)
  | ok secr ↦ elim (read_each look refs) [
    | ok vals ↦ ok (secret_value ref.key secr ∷ vals)
    | err e ↦ err e
    | panic ↦ panic
  ]
  | panic ↦ panic
]

module _ {S : Type 0} (cli : SecretInterface S) where
  length-get_from :
      (cache : Cache) (refs : List (Option SecretKeySelector)) (s : S) {vals : List String}
      → (get_from cli cache refs s).0 ≡ ok vals
      → length vals ≡ length refs
  unfolding get_from
  length-get_from cache [] s e = ground arith
  length-get_from cache (none ∷ refs) s e = elim (ended (get_from cli cache refs s)) [
    | inl (vs, s', r) ↦ ground (arith, length-get_from cache refs s {vals = vs})
    | inr (inl (x, s', r)) ↦ ground arith
    | inr (inr (s', r)) ↦ ground arith
  ]
  length-get_from cache (some ref ∷ refs) s e = elim (ended (fetch cli ref.name cache s)) [
    | inl ((d, cache'), s', f) ↦ elim (ended (get_from cli cache' refs s')) [
      | inl (vs, s'', r) ↦ ground (arith, length-get_from cache' refs s' {vals = vs})
      | inr (inl (x, s'', r)) ↦ ground arith
      | inr (inr (s'', r)) ↦ ground arith
    ]
    | inr (inl (x, s', f)) ↦ ground arith
    | inr (inr (s', f)) ↦ ground arith
  ]

  module _ (look : String → Result SecretData)
      (stable : (name : String) (s : S) → (cli name s).0 ≡ look name) where
    -- The cache holds what the cluster answers.
    abbrev IsCurrent : Cache → Type 0
    IsCurrent cache =
        (name : String) (d : SecretData) → find_secret name cache ≡ some d → look name ≡ ok d

    fetch_lem :
        (name : String) (cache : Cache) (s : S)
        → IsCurrent cache
        → ((d : SecretData) × (cache' : Cache) × (s' : S) × (fetch cli name cache s
              ≡ (ok (d, cache'), s'))
            × (look name ≡ ok d)
            × IsCurrent cache')
          ⊎ ((e : Err) × (s' : S) × (fetch cli name cache s
                ≡ (err (wrap "getting Secret %q from cluster: %w" (name ∷ []) e), s'))
              × (look name ≡ err e))
          ⊎ ((s' : S) × (fetch cli name cache s ≡ (panic, s')) × (look name ≡ panic))
    unfolding fetch find_secret
    fetch_lem name cache s h = elim (Option-cases (find_secret name cache)) [
      | inl unknown ↦ elim (ended (cli name s)) [
        | inl (d, s', r) ↦
            let answer : look name ≡ ok d = ground (arith, stable name s) in
            inl (
              d,
              (name, d) ∷ cache,
              s',
              ground arith,
              answer,
              λ n x k. ground (arith, eq_iff name n, h n x, answer),
            )
        | inr (inl (e, s', r)) ↦ inr (inl (e, s', ground arith, ground (arith, stable name s)))
        | inr (inr (s', r)) ↦ inr (inr (s', ground arith, ground (arith, stable name s)))
      ]
      | inr (d, known) ↦ inl (d, cache, s, ground arith, h name d known, h)
    ]

    get_from-read_each :
        (cache : Cache) (refs : List (Option SecretKeySelector)) (s : S)
        → IsCurrent cache
        → (get_from cli cache refs s).0 ≡ read_each look refs
    unfolding get_from
    get_from-read_each cache [] s h = refl
    get_from-read_each cache (none ∷ refs) s h =
        let ih = get_from-read_each cache refs s h in
        elim (ended (get_from cli cache refs s)) [
          | inl (vs, s', r) ↦ ground (arith, ih)
          | inr (inl (e, s', r)) ↦ ground (arith, ih)
          | inr (inr (s', r)) ↦ ground (arith, ih)
        ]
    get_from-read_each cache (some ref ∷ refs) s h = elim (fetch_lem ref.name cache s h) [
      | inl (d, cache', s', f, answer, h') ↦
          let ih = get_from-read_each cache' refs s' h' in
          elim (ended (get_from cli cache' refs s')) [
            | inl (vs, s'', r) ↦ ground (arith, ih)
            | inr (inl (e, s'', r)) ↦ ground (arith, ih)
            | inr (inr (s'', r)) ↦ ground (arith, ih)
          ]
      | inr (inl (e, s', f, answer)) ↦ ground arith
      | inr (inr (s', f, answer)) ↦ ground arith
    ]

    -- Where the cluster's answers do not change during the call, the getter gives what reading
    -- every Secret object anew gives: the same values, and the same error for the first Secret
    -- that cannot be read.
    pub get-read_each :
        (refs : List (Option SecretKeySelector)) (s : S) → (get cli refs s).0 ≡ read_each look refs
    unfolding get find_secret
    get-read_each refs s = get_from-read_each [] refs s (λ name d e. cc)

-- Where the getter succeeds, it gives exactly one value for each selector.
pub length-get :
    {S : Type 0} (cli : SecretInterface S) (refs : List (Option SecretKeySelector)) (s : S)
    {vals : List String}
    → (get cli refs s).0 ≡ ok vals
    → length vals ≡ length refs
unfolding get
length-get cli refs s e = length-get_from cli [] refs s e
