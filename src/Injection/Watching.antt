-- ===== src/Injection/Watching.antt =====
-- Each selector of a context has an informer that its own factory has made.
use mathlib.Core.Path.{subst}
use eventing_gitlab.Base.{
  ℕ, zero, suc, ◌≡◌, refl, sym, ap, ◌∙◌, ◌⊎◌, inl, inr, ◌==◌, eq_iff, Option, some, List, [], ◌∷◌,
  String, In, Bool-cases, arith,
}
use eventing_gitlab.Base.Dict.{lookup}
use eventing_gitlab.Errors.{Result, Action, ok, pure, ◌>>=◌}
use eventing_gitlab.Informers.Factory.Steps.{requested, done, next}
use eventing_gitlab.Informers.Factory.Keeping.{Run-scope}
use eventing_gitlab.Informers.Groups.{Caching, Scope, sources_group}
use eventing_gitlab.Informers.Groups.Sources.{
  source_type, default_source_informer, source_informer, git_lab_sources, sources_v1alpha1,
}
use eventing_gitlab.Injection.{Made, Access, Context, at, set_at, get_value}
use eventing_gitlab.Injection.Factories.{get_filtered_factory}
use eventing_gitlab.Injection.Informers.{
  source_access_of, source_access, with_each_source_informer, with_filtered_source_informers,
  get_filtered_source_informer,
}

-- An action behind one that returns.
ok-bind :
    {S A B : Type 0} (m : Action S A) (f : A → Action S B) (s s' : S) (a : A)
    → m s ≡ (ok a, s')
    → (m >>= f) s ≡ f a s'
ok-bind m f s s' a h = ap (λ r. ((λ _. r) >>= f) s) h

module _ {A : Type 0} where
  -- What a pointer leads to behind an assignment by the same or by another one.
  at-set_at :
      (p q : ℕ) (xs : List A) (x y : A)
      → at q xs ≡ some x
      → (at q (set_at p y xs) ≡ some x) ⊎ ((q ≡ p) × (at q (set_at p y xs) ≡ some y))
  unfolding at set_at
  at-set_at p q [] x y h = inl h
  at-set_at zero zero (z ∷ xs) x y h = inr (refl, refl)
  at-set_at zero (suc q) (z ∷ xs) x y h = inl h
  at-set_at (suc p) zero (z ∷ xs) x y h = inl h
  at-set_at (suc p) (suc q) (z ∷ xs) x y h = elim (at-set_at p q xs x y h) [
    | inl kept ↦ inl kept
    | inr (same, there) ↦ inr (ap suc same, there)
  ]

-- The scope of a selector.
abbrev pub scope_for : (namespace selector : String) → Scope
scope_for namespace selector = record {
  namespace = namespace;
  tweak_list_options = some (λ options. record options { label_selector = selector });
}

-- The entry of a selector is an informer of its scope.
abbrev pub Has : {C O H W : Type 0} → (namespace selector : String) → Context C O H W → Type 0
Has namespace selector ctx =
    (a : Access) × (lookup selector ctx.filtered_source_informers ≡ some a)
    × (a.scope ≡ scope_for namespace selector)

module _ {C O H W I T : Type 0} (lib : Caching C H W I T) (namespace : String) where
  -- A factory of that scope.
  abbrev pub InScope : String → Made C O H W I T → Type 0
  InScope selector made =
      (made.factory.namespace ≡ namespace)
      × (made.factory.tweak_list_options
          ≡ some (λ options. record options { label_selector = selector }))

  -- The entry of a selector leads to such a factory.
  abbrev pub Ready : String → List (String × ℕ) → List (Made C O H W I T) → Type 0
  Ready selector entries s =
      (p : ℕ) × (made : Made C O H W I T) × (lookup selector entries ≡ some p)
      × (at p s ≡ some made)
      × InScope selector made

  -- The factory behind the access to its informer of the sources.
  abbrev accessed : Made C O H W I T → I × Made C O H W I T
  accessed made =
      let scope = git_lab_sources (sources_v1alpha1 (sources_group made.factory)) in
      let (informer, factory) = source_informer lib made.client scope made.factory in
      (informer, record made { factory = factory })

  accessed-InScope :
      (selector : String) (made : Made C O H W I T)
      → InScope selector made
      → InScope selector (accessed made).1
  unfolding source_informer
  accessed-InScope selector made (same_namespace, same_tweak) =
      let scope = git_lab_sources (sources_v1alpha1 (sources_group made.factory)) in
      let kept = Run-scope lib.set_transform (
        next _ _ _
          (requested source_type (default_source_informer lib made.client scope) made.factory)
          (done _)) in
      (kept.0 ∙ same_namespace, kept.1 ∙ same_tweak)

  -- The scope of the access to a factory.
  abbrev scope_at : Made C O H W I T → Scope
  scope_at made = git_lab_sources (sources_v1alpha1 (sources_group made.factory))

  scope_at-InScope :
      (selector : String) (made : Made C O H W I T)
      → InScope selector made
      → scope_at made ≡ scope_for namespace selector
  unfolding sources_group sources_v1alpha1 git_lab_sources
  scope_at-InScope selector made (same_namespace, same_tweak) = rw (same_namespace, same_tweak) refl

  abbrev continued :
      ℕ
      → List (Made C O H W I T)
      → Option (Made C O H W I T)
      → Result (Access × I) × List (Made C O H W I T)
  continued p s o = (get_value o >>= source_access_of lib p) s

  source_access-made :
      (p : ℕ) (s : List (Made C O H W I T)) (made : Made C O H W I T)
      → at p s ≡ some made
      → source_access lib p s ≡ (
        ok (record { of_factory = p; scope = scope_at made }, (accessed made).0),
        set_at p (accessed made).1 s,
      )
  unfolding source_access source_access_of
  source_access-made p s made there = ap (continued p s) there

  accessed-Ready :
      (selector : String) (entries : List (String × ℕ)) (s : List (Made C O H W I T)) (p : ℕ)
      (made : Made C O H W I T)
      → at p s ≡ some made
      → Ready selector entries s
      → Ready selector entries (set_at p (accessed made).1 s)
  accessed-Ready selector entries s p made there (q, m, found, leads, fits) =
      elim (at-set_at p q s m (accessed made).1 leads) [
        | inl kept ↦ (q, m, found, kept, fits)
        | inr (same, now) ↦
            let one : made ≡ m = cc in
            (
              q,
              (accessed made).1,
              found,
              now,
              subst (λ z. InScope selector (accessed z).1) (sym one)
                  (accessed-InScope selector m fits),
            )
      ]

  with_access-Has :
      (selector other : String) (a : Access) (ctx : Context C O H W)
      → a.scope ≡ scope_for namespace other
      → Has namespace selector ctx ⊎ (selector ≡ other)
      → Has namespace selector
          (record ctx { filtered_source_informers = (other, a) ∷ ctx.filtered_source_informers })
  unfolding lookup
  with_access-Has selector other a ctx fits h = elim (Bool-cases (selector == other)) [
    | inl same ↦ (
      a,
      (rw (same) refl),
      (fits ∙ ap (scope_for namespace) (sym ((eq_iff selector other).0 same))),
    )
    | inr differs ↦ elim h [
      | inl (b, found, scoped) ↦ (b, (rw (differs) found), scoped)
      | inr same ↦ absurd (ground (arith, eq_iff selector other))
    ]
  ]

  -- The turn of the loop behind the access to the informer, and behind the later turns.
  abbrev later_turns :
      I → Context C O H W × List I → Action (List (Made C O H W I T)) (Context C O H W × List I)
  later_turns informer (ctx, infs) = pure (ctx, informer ∷ infs)

  abbrev with_access : String → Context C O H W → Access → Context C O H W
  with_access x ctx a = record ctx {
    filtered_source_informers = (x, a) ∷ ctx.filtered_source_informers;
  }

  abbrev this_turn :
      String
      → List String
      → Context C O H W
      → Access × I
      → Action (List (Made C O H W I T)) (Context C O H W × List I)
  this_turn x xs ctx (access, informer) =
      with_each_source_informer lib xs (with_access x ctx access) >>= later_turns informer

  with_each_source_informer_turn :
      (x : String) (xs : List String) (ctx ctx' : Context C O H W) (infs : List I)
      (s s' : List (Made C O H W I T)) (p : ℕ) (made : Made C O H W I T)
      → lookup x ctx.filtered_factories ≡ some p
      → at p s ≡ some made
      → with_each_source_informer lib xs
          (with_access x ctx (record { of_factory = p; scope = scope_at made }))
          (set_at p (accessed made).1 s)
        ≡ (ok (ctx', infs), s')
      → with_each_source_informer lib (x ∷ xs) ctx s ≡ (ok (ctx', (accessed made).0 ∷ infs), s')
  unfolding with_each_source_informer get_filtered_factory
  with_each_source_informer_turn x xs ctx ctx' infs s s' p made found there ran =
      ok-bind (get_filtered_factory x ctx) (λ f. source_access lib f >>= this_turn x xs ctx) s s p
        (rw (found) refl)
      ∙ ok-bind (source_access lib p) (this_turn x xs ctx) s (set_at p (accessed made).1 s)
          (record { of_factory = p; scope = scope_at made }, (accessed made).0)
          (source_access-made p s made there)
      ∙ ok-bind
          (with_each_source_informer lib xs
            (with_access x ctx (record { of_factory = p; scope = scope_at made })))
          (later_turns (accessed made).0) (set_at p (accessed made).1 s) s' (ctx', infs) ran

  with_each_source_informer-Has :
      (target : String) (selectors : List String) (ctx : Context C O H W)
      (s : List (Made C O H W I T))
      → ((selector : String) → In selector selectors → Ready selector ctx.filtered_factories s)
      → Has namespace target ctx ⊎ In target selectors
      → (ctx' : Context C O H W) × (infs : List I) × (s' : List (Made C O H W I T))
        × (with_each_source_informer lib selectors ctx s ≡ (ok (ctx', infs), s'))
        × Has namespace target ctx'
  unfolding with_each_source_informer
  with_each_source_informer-Has target [] ctx s ready (inl h) = (ctx, [], s, refl, h)
  with_each_source_informer-Has target [] ctx s ready (inr h) = absurd h
  with_each_source_informer-Has target (x ∷ xs) ctx s ready h =
      let (p, made, found, there, fits) = ready x (inl refl) in
      let access : Access = record { of_factory = p; scope = scope_at made } in
      let (ctx', infs, s', ran, has) =
        with_each_source_informer-Has target xs
          (record ctx { filtered_source_informers = (x, access) ∷ ctx.filtered_source_informers })
          (set_at p (accessed made).1 s)
          (λ selector listed.
            accessed-Ready selector ctx.filtered_factories s p made there
              (ready selector (inr listed)))
          (elim h [
            | inl kept ↦
                inl (with_access-Has target x access ctx (scope_at-InScope x made fits) (inl kept))
            | inr (inl here) ↦
                inl (with_access-Has target x access ctx (scope_at-InScope x made fits) (inr here))
            | inr (inr later) ↦ inr later
          ]) in
      (
        ctx',
        (accessed made).0 ∷ infs,
        s',
        with_each_source_informer_turn x xs ctx ctx' infs s s' p made found there ran,
        has,
      )

  -- Where each selector of the context has a factory of its scope, the filtered `withInformer` of the
  -- sources returns, and `Get` then gives for each selector an informer of just that scope.
  pub with_filtered_source_informers-Has :
      (target : String) (selectors : List String) (ctx : Context C O H W)
      (s : List (Made C O H W I T))
      → ctx.label_selectors ≡ some selectors
      → ((selector : String) → In selector selectors → Ready selector ctx.filtered_factories s)
      → In target selectors
      → (ctx' : Context C O H W) × (infs : List I) × (s' : List (Made C O H W I T)) × (a : Access)
        × (with_filtered_source_informers lib ctx s ≡ (ok (ctx', infs), s'))
        × (get_filtered_source_informer target ctx' s' ≡ (ok a, s'))
        × (a.scope ≡ scope_for namespace target)
  unfolding with_filtered_source_informers get_filtered_source_informer
  with_filtered_source_informers-Has target selectors ctx s set ready listed =
      let (ctx', infs, s', ran, (a, found, scoped)) =
        with_each_source_informer-Has target selectors ctx s ready (inr listed) in
      (ctx', infs, s', a, ((rw (set) refl) ∙ ran), (rw (found) refl), scoped)
