-- ===== src/Secret/Calls.antt =====
-- The calls of the Secret interface that the getter makes.
use eventing_gitlab.Base.{
  ◌≡◌, sym, ◌⊎◌, inl, inr, Option, none, some, List, [], ◌∷◌, String, arith, In, Distinct,
  Option-cases, eq_iff,
}
use mathlib.Core.Path.{subst}
use eventing_gitlab.Errors.{Err, wrap, ok, err, panic, ended}
use eventing_gitlab.Source.Types.{SecretKeySelector}
use eventing_gitlab.Secret.{SecretData, Cache, find_secret, SecretInterface, fetch, get_from, get}

-- A Secret interface that writes down the names that it is asked for, the last one first.
abbrev pub logged : {S : Type 0} → SecretInterface S → SecretInterface (S × List String)
logged cli name (s, log) = let (r, s') = cli name s in (r, (s', name ∷ log))

module _ {S : Type 0} (cli : SecretInterface S) where
  -- Every name that was asked for is in the cache, and none was asked for twice.
  abbrev IsThrifty : Cache → List String → Type 0
  IsThrifty cache log =
      Distinct log × ((name : String) → find_secret name cache ≡ none → ¬ In name log)

  fetch-IsThrifty :
      (name : String) (cache : Cache) (s : S) (log : List String)
      → IsThrifty cache log
      → ((d : SecretData) × (cache' : Cache) × (s' : S) × (log' : List String) × (fetch
              (logged cli)
              name
              cache
              (s, log)
            ≡ (ok (d, cache'), (s', log')))
          × IsThrifty cache' log')
        ⊎ ((e : Err) × (s' : S) × (log' : List String) × (fetch (logged cli) name cache (s, log)
              ≡ (err e, (s', log')))
            × Distinct log')
        ⊎ ((s' : S) × (log' : List String) × (fetch (logged cli) name cache (s, log)
              ≡ (panic, (s', log')))
            × Distinct log')
  unfolding fetch find_secret
  fetch-IsThrifty name cache s log h = elim (Option-cases (find_secret name cache)) [
    | inl unknown ↦
        let new : Distinct (name ∷ log) = (h.1 name unknown, h.0) in
        elim (ended (cli name s)) [
          | inl (d, s', r) ↦ inl (
            d,
            (name, d) ∷ cache,
            s',
            name ∷ log,
            ground arith,
            (new, λ n k. ground (arith, eq_iff name n, h.1 n)),
          )
          | inr (inl (e, s', r)) ↦ inr (
              inl (
                wrap "getting Secret %q from cluster: %w" (name ∷ []) e,
                s',
                name ∷ log,
                ground arith,
                new,
              ))
          | inr (inr (s', r)) ↦ inr (inr (s', name ∷ log, ground arith, new))
        ]
    | inr (d, known) ↦ inl (d, cache, s, log, ground arith, h)
  ]

  get_from-Distinct :
      (cache : Cache) (refs : List (Option SecretKeySelector)) (s : S) (log : List String)
      → IsThrifty cache log
      → Distinct (get_from (logged cli) cache refs (s, log)).1.1
  unfolding get_from
  get_from-Distinct cache [] s log h = h.0
  get_from-Distinct cache (none ∷ refs) s log h =
      let later = get_from (logged cli) cache refs (s, log) in
      let same : (get_from (logged cli) cache (none ∷ refs) (s, log)).1 ≡ later.1 =
        elim (ended later) [
          | inl (vs, s', r) ↦ ground arith
          | inr (inl (e, s', r)) ↦ ground arith
          | inr (inr (s', r)) ↦ ground arith
        ] in
      subst (λ st. Distinct st.1) (sym same) (get_from-Distinct cache refs s log h)
  get_from-Distinct cache (some ref ∷ refs) s log h =
      elim (fetch-IsThrifty ref.name cache s log h) [
        | inl (d, cache', s', log', f, h') ↦
            let later = get_from (logged cli) cache' refs (s', log') in
            let same : (get_from (logged cli) cache (some ref ∷ refs) (s, log)).1 ≡ later.1 =
              elim (ended later) [
                | inl (vs, s'', r) ↦ ground arith
                | inr (inl (e, s'', r)) ↦ ground arith
                | inr (inr (s'', r)) ↦ ground arith
              ] in
            subst (λ st. Distinct st.1) (sym same) (get_from-Distinct cache' refs s' log' h')
        | inr (inl (e, s', log', f, distinct)) ↦
            let same : (get_from (logged cli) cache (some ref ∷ refs) (s, log)).1 ≡ (s', log') =
              ground arith in
            subst (λ st. Distinct st.1) (sym same) distinct
        | inr (inr (s', log', f, distinct)) ↦
            let same : (get_from (logged cli) cache (some ref ∷ refs) (s, log)).1 ≡ (s', log') =
              ground arith in
            subst (λ st. Distinct st.1) (sym same) distinct
      ]

  -- However the cluster answers, and also on an error path, the getter asks for no Secret object
  -- twice.
  pub get-Distinct :
      (refs : List (Option SecretKeySelector)) (s : S)
      → Distinct (get (logged cli) refs (s, [])).1.1
  unfolding get find_secret
  get-Distinct refs s = get_from-Distinct [] refs s [] (tt, λ name e k. k)
