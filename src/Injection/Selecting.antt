-- ===== src/Injection/Selecting.antt =====
-- Each selector of a context has a factory of its own.
use mathlib.Core.Path.{subst}
use eventing_gitlab.Base.{
  ℕ, zero, suc, ◌≡◌, refl, ◌∙◌, ◌⊎◌, inl, inr, ◌==◌, eq_iff, eq_refl, Option, none, some, List, [],
  ◌∷◌, ◌++◌, String, In, Bool-cases, length,
}
use eventing_gitlab.Base.Dict.{lookup}
use eventing_gitlab.Errors.{ok}
use eventing_gitlab.Informers.Factory.{
  new_shared_informer_factory_with_options, apply_all, with_namespace, with_tweak_list_options,
}
use eventing_gitlab.Informers.Groups.{Clients}
use eventing_gitlab.Injection.{Made, Context, at}
use eventing_gitlab.Injection.Factories.{
  client_in, get_filtered_factory, with_selectors, filtered_factory, with_each_factory,
  with_filtered_factories, scope_options,
}

-- The namespace of a scope: all of them are the empty text.
abbrev pub in_scope : Option String → String
in_scope none = ""
in_scope (some namespace) = namespace

pub filtered_factory-fields :
    (I T : Type 0) (scope : Option String) (resync : ℕ) (selector : String)
    → let f = filtered_factory {I = I} {T = T} scope resync selector in
      (f.namespace ≡ in_scope scope)
      × (f.default_resync ≡ resync)
      × (f.tweak_list_options ≡ some (λ options. record options { label_selector = selector }))
unfolding filtered_factory scope_options new_shared_informer_factory_with_options apply_all
    with_namespace with_tweak_list_options
filtered_factory-fields I T none resync selector = (refl, refl, refl)
filtered_factory-fields I T (some n) resync selector = (refl, refl, refl)

module _ {A : Type 0} where
  at-length : (xs : List A) (x : A) → at (length xs) (xs ++ x ∷ []) ≡ some x
  unfolding at
  at-length [] x = refl
  at-length (y ∷ xs) x = at-length xs x

  at-append : (p : ℕ) (xs ys : List A) (x : A) → at p xs ≡ some x → at p (xs ++ ys) ≡ some x
  unfolding at
  at-append p [] ys x h = cc
  at-append zero (y ∷ xs) ys x h = h
  at-append (suc p) (y ∷ xs) ys x h = at-append p xs ys x h

module _ {C O H W I T : Type 0} (c : Clients C O H W) (namespace_scope : Option String)
    (resync_period : ℕ) where
  -- The factory of a selector, for the client.
  abbrev pub made_for : String → Made C O H W I T
  made_for selector = record {
    client = c;
    factory = filtered_factory namespace_scope resync_period selector;
  }

  -- The entry of a selector leads to its factory.
  abbrev pub Selects : String → List (String × ℕ) → List (Made C O H W I T) → Type 0
  Selects selector entries s =
      (p : ℕ) × (lookup selector entries ≡ some p) × (at p s ≡ some (made_for selector))

  allocate-Selects_new :
      (selector other : String) (entries : List (String × ℕ)) (s : List (Made C O H W I T))
      → selector ≡ other
      → Selects selector ((other, length s) ∷ entries) (s ++ made_for other ∷ [])
  unfolding lookup
  allocate-Selects_new selector other entries s same =
      subst (λ o. Selects selector ((o, length s) ∷ entries) (s ++ made_for o ∷ [])) same
        (length s, (rw (eq_refl selector) refl), at-length s (made_for selector))

  allocate-Selects :
      (selector other : String) (entries : List (String × ℕ)) (s : List (Made C O H W I T))
      → Selects selector entries s
      → Selects selector ((other, length s) ∷ entries) (s ++ made_for other ∷ [])
  unfolding lookup
  allocate-Selects selector other entries s (p, found, there) =
      elim (Bool-cases (selector == other)) [
        | inl same ↦ allocate-Selects_new selector other entries s ((eq_iff selector other).0 same)
        | inr differs ↦
            (p, (rw (differs) found), at-append p s (made_for other ∷ []) (made_for selector) there)
      ]

module _ {C O H W I T : Type 0} (c : Clients C O H W) where
  -- What the context and the store hold for a selector.
  abbrev pub Selected : String → Context C O H W → List (Made C O H W I T) → Type 0
  Selected selector ctx s =
      Selects c ctx.namespace_scope ctx.resync_period selector ctx.filtered_factories s

  pub with_each_factory-Selected :
      (selectors : List String) (ctx : Context C O H W) (s : List (Made C O H W I T))
      → (ctx' : Context C O H W) × (s' : List (Made C O H W I T)) × (with_each_factory c selectors
            ctx s
          ≡ (ok ctx', s'))
        × (ctx'.namespace_scope ≡ ctx.namespace_scope)
        × (ctx'.resync_period ≡ ctx.resync_period)
        × (ctx'.label_selectors ≡ ctx.label_selectors)
        × ((selector : String)
            → Selected selector ctx s ⊎ In selector selectors
            → Selected selector ctx' s')
  unfolding with_each_factory
  with_each_factory-Selected [] ctx s = (
    ctx,
    s,
    refl,
    refl,
    refl,
    refl,
    λ selector h. elim h [ inl kept ↦ kept | inr listed ↦ absurd listed ],
  )
  with_each_factory-Selected (x ∷ xs) ctx s =
      let (ctx', s', ran, same_scope, same_period, same_selectors, selected) =
        with_each_factory-Selected xs
          (record ctx { filtered_factories = (x, length s) ∷ ctx.filtered_factories })
          (s ++ made_for c ctx.namespace_scope ctx.resync_period x ∷ []) in
      (
        ctx',
        s',
        ran,
        same_scope,
        same_period,
        same_selectors,
        λ selector h. selected selector (elim h [
          | inl kept ↦ inl (
              allocate-Selects c ctx.namespace_scope ctx.resync_period selector x
                ctx.filtered_factories s kept)
          | inr (inl here) ↦ inl (
              allocate-Selects_new c ctx.namespace_scope ctx.resync_period selector x
                ctx.filtered_factories s here)
          | inr (inr there) ↦ inr there
        ]),
      )

  pub with_filtered_factories-loop :
      (selectors : List String) (ctx : Context C O H W) (s : List (Made C O H W I T))
      → ctx.client ≡ some c
      → ctx.label_selectors ≡ some selectors
      → with_filtered_factories ctx s ≡ with_each_factory c selectors ctx s
  unfolding with_filtered_factories client_in
  with_filtered_factories-loop selectors ctx s has set = rw (has, set) refl

  -- A factory for the client, of the namespace if there is one, and of the resync period, whose tweak
  -- sets the selector.
  pub record IsFor (ctx : Context C O H W) (selector : String) (made : Made C O H W I T)
      : Type 0 where
    pub for_client : made.client ≡ c
    pub in_namespace : made.factory.namespace ≡ in_scope ctx.namespace_scope
    pub by_period : made.factory.default_resync ≡ ctx.resync_period
    pub by_selector :
        made.factory.tweak_list_options
        ≡ some (λ options. record options { label_selector = selector })

  made_for-IsFor :
      (ctx : Context C O H W) (selector : String)
      → IsFor ctx selector (made_for c ctx.namespace_scope ctx.resync_period selector)
  made_for-IsFor ctx selector =
      let (scope, period, tweak) =
        filtered_factory-fields I T ctx.namespace_scope ctx.resync_period selector in
      record { for_client = refl; in_namespace = scope; by_period = period; by_selector = tweak }

  -- With a client in the context, `withInformerFactory` returns on any selectors that `WithSelectors`
  -- has set, and for each of them `Get` then gives a factory for that client, of the context's
  -- namespace and resync period, whose tweak sets just this selector.
  pub with_filtered_factories-IsFor :
      (selector : String) (selectors : List String) (ctx : Context C O H W)
      (s : List (Made C O H W I T))
      → ctx.client ≡ some c
      → In selector selectors
      → (ctx' : Context C O H W) × (s' : List (Made C O H W I T)) × (p : ℕ) × (made : Made C O H W I
          T)
        × (with_filtered_factories (with_selectors selectors ctx) s ≡ (ok ctx', s'))
        × (get_filtered_factory selector ctx' s' ≡ (ok p, s'))
        × (at p s' ≡ some made)
        × IsFor ctx selector made
  unfolding with_selectors get_filtered_factory
  with_filtered_factories-IsFor selector selectors ctx s has listed =
      let (ctx', s', ran, same_scope, same_period, same_selectors, selected) =
        with_each_factory-Selected selectors (with_selectors selectors ctx) s in
      let (p, found, there) = selected selector (inr listed) in
      (
        ctx',
        s',
        p,
        made_for c ctx.namespace_scope ctx.resync_period selector,
        (with_filtered_factories-loop selectors (with_selectors selectors ctx) s has refl ∙ ran),
        (rw (found) refl),
        (rw (same_scope, same_period) at there),
        made_for-IsFor ctx selector,
      )
