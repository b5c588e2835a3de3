-- ===== src/Injection/Selected.antt =====
-- From the selectors of a context to the informers of the sources: the factories and the informers that
-- the folders filtered put into it.
use eventing_gitlab.Base.{◌≡◌, refl, ap, ◌∙◌, inr, some, List, String, In}
use eventing_gitlab.Errors.{ok}
use eventing_gitlab.Informers.Groups.{Caching, Clients}
use eventing_gitlab.Injection.{Made, Access, Context}
use eventing_gitlab.Injection.Factories.{with_selectors, with_filtered_factories}
use eventing_gitlab.Injection.Selecting.{
  in_scope, filtered_factory-fields, made_for, with_each_factory-Selected,
  with_filtered_factories-loop,
}
use eventing_gitlab.Injection.Informers.{
  with_filtered_source_informers, get_filtered_source_informer,
}
use eventing_gitlab.Injection.Watching.{scope_for, with_filtered_source_informers-Has}

module _ {C O H W I T : Type 0} (lib : Caching C H W I T) (c : Clients C O H W) where
  -- With a client in the context, whatever selectors `WithSelectors` has set, the filtered
  -- `withInformerFactory` and the `withInformer` of the sources behind it return, and `Get` then gives
  -- for each of the selectors an informer of the sources of the context's namespace, whose tweak sets
  -- the label selector of list options to this selector and changes nothing else of them.
  pub with_selectors-watched :
      (target : String) (selectors : List String) (ctx : Context C O H W)
      (s : List (Made C O H W I T))
      → ctx.client ≡ some c
      → In target selectors
      → (ctx' ctx'' : Context C O H W) × (infs : List I) × (s' s'' : List (Made C O H W I T))
        × (a : Access) × (with_filtered_factories (with_selectors selectors ctx) s ≡ (ok ctx', s'))
        × (with_filtered_source_informers lib ctx' s' ≡ (ok (ctx'', infs), s''))
        × (get_filtered_source_informer target ctx'' s'' ≡ (ok a, s''))
        × (a.scope ≡ scope_for (in_scope ctx.namespace_scope) target)
  unfolding with_selectors
  with_selectors-watched target selectors ctx s has listed =
      let (ctx', s', ran, same_scope, same_period, same_selectors, selected) =
        with_each_factory-Selected c selectors (with_selectors selectors ctx) s in
      let (ctx'', infs, s'', a, ran', got, scoped) =
        with_filtered_source_informers-Has lib (in_scope ctx.namespace_scope) target selectors ctx'
          s' same_selectors
          (λ selector here.
            let (p, found, there) = selected selector (inr here) in
            let (scope, period, tweak) =
              filtered_factory-fields I T ctx'.namespace_scope ctx'.resync_period selector in
            (
              p,
              made_for c ctx'.namespace_scope ctx'.resync_period selector,
              found,
              there,
              (scope ∙ ap in_scope same_scope, tweak),
            ))
          listed in
      (
        ctx',
        ctx'',
        infs,
        s',
        s'',
        a,
        (with_filtered_factories-loop c selectors (with_selectors selectors ctx) s has refl ∙ ran),
        ran',
        got,
        scoped,
      )
