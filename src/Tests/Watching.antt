-- ===== src/Tests/Watching.antt =====
-- A factory of informers, the typed client, and the options of the reconciler.
use eventing_gitlab.Base.{ℕ, Option, none, List, String}
use eventing_gitlab.Informers.Factory.{
  SharedInformerFactory, new_filtered_shared_informer_factory, start, informer_for,
}
use eventing_gitlab.Informers.Factory.Steps.{requested, started, done, next, WellFormed}
use eventing_gitlab.Informers.Factory.Running.{new_factory-WellFormed}

-- Informers are numbers here, and nothing transforms them.
abbrev Factory : Type 0
Factory = SharedInformerFactory ℕ (Unit {0}) (Unit {0})

abbrev leave : Option (Unit {0}) → ℕ → ℕ
leave transform i = i

abbrev in_order : List (String × ℕ) → List (String × ℕ)
in_order xs = xs

abbrev fresh : Factory
fresh = new_filtered_shared_informer_factory 30 "default" none

abbrev asked : Factory
asked = (informer_for leave "GitLabSource" (λ resync. resync) fresh).1

new_factory-WellFormed_example : WellFormed (start in_order asked)
new_factory-WellFormed_example =
    new_factory-WellFormed leave 30 "default" none (start in_order asked) (
      next fresh asked (start in_order asked) (requested "GitLabSource" (λ resync. resync) fresh) (
        next asked (start in_order asked) (start in_order asked)
          (started in_order asked (λ e xs. ((λ h. h), λ h. h))) (done (start in_order asked))))
