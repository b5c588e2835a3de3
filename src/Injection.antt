-- ===== src/Injection.antt =====
-- The contexts that carry the clients, factories and informers of a program: pkg/client/injection, its
-- folders client and informers. A context has one key of each package, so that it is a record of
-- what may be stored; `ctx.Value` is a field and `context.WithValue` a new record.
pub mod Factories
pub mod Informers
pub mod Selecting
pub mod Watching
pub mod Selected
use eventing_gitlab.Base.{ℕ, zero, suc, Option, none, some, List, [], ◌∷◌, ◌++◌, length, String}
use eventing_gitlab.Errors.{Result, ok, Action, pure, crash, ◌>>=◌}
use eventing_gitlab.Informers.Groups.{Clients, Factory, Scope}

-- A factory with the client that it is made for.
pub record Made (C O H W I T : Type 0) : Type 0 where
  pub client : Clients C O H W
  pub factory : Factory I T

-- What `GitLabSources()` or `GitLabBindings()` of a factory gives: a pointer to the factory, and the
-- scope.
pub record Access : Type 0 where
  pub of_factory : ℕ
  pub scope : Scope

-- `namespace_scope` is what `injection.HasNamespaceScope` and `GetNamespaceScope` tell, and
-- `resync_period` what `controller.GetResyncPeriod` does. A factory is a pointer.
pub record Context (C O H W : Type 0) : Type 0 where
  pub client : Option (Clients C O H W)
  pub namespace_scope : Option String
  pub resync_period : ℕ
  pub label_selectors : Option (List String)
  pub factory : Option ℕ
  pub filtered_factories : List (String × ℕ)
  pub source_informer : Option Access
  pub binding_informer : Option Access
  pub filtered_source_informers : List (String × Access)
  pub filtered_binding_informers : List (String × Access)

-- What a pointer leads to.
pub at : {A : Type 0} → ℕ → List A → Option A
at p [] = none
at zero (x ∷ xs) = some x
at (suc p) (x ∷ xs) = at p xs

pub set_at : {A : Type 0} → ℕ → A → List A → List A
set_at p y [] = []
set_at zero y (x ∷ xs) = y ∷ xs
set_at (suc p) y (x ∷ xs) = x ∷ set_at p y xs

-- A value of a context, whose absence is a panic, as in each `Get`.
abbrev pub get_value : {S A : Type 0} → Option A → Action S A
get_value none = crash
get_value (some a) = pure a

module _ {C O H W I T : Type 0} where
  -- The pointer to a new factory.
  abbrev pub allocate : Made C O H W I T → Action (List (Made C O H W I T)) ℕ
  allocate made s = (ok (length s), s ++ made ∷ [])

  abbrev pub deref : ℕ → Action (List (Made C O H W I T)) (Made C O H W I T)
  deref p s = get_value (at p s) s

  abbrev pub assign : ℕ → Made C O H W I T → Action (List (Made C O H W I T)) (Unit {0})
  assign p made s = (ok tt, set_at p made s)
