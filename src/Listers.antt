-- ===== src/Listers.antt =====
-- The generated listers, which read the informers' caches: pkg/client/listers.
pub mod Sources
pub mod Bindings
use eventing_gitlab.Base.{Option, none, some, List, [], ◌∷◌, ◌++◌, String}
use eventing_gitlab.Errors.{Err, Result, ok, err, panic, Action}

-- `cache.Indexer`: the object under a key, and the objects that `cache.ListAll` and
-- `cache.ListAllByNamespace` visit for a selector. `new_not_found` is `errors.NewNotFound`, with the
-- resource and the name.
pub record Indexer (A L W : Type 0) : Type 0 where
  pub get_by_key : (key : String) → Action W (Option A)
  pub list_all : L → Action W (List A)
  pub list_all_by_namespace : (namespace : String) → L → Action W (List A)
  pub new_not_found : (resource name : String) → Err

-- The key of an object.
unfoldable pub key_of : (namespace name : String) → String
key_of namespace name = Prim.Native.String.◌++◌ (Prim.Native.String.◌++◌ namespace "/") name

-- `append` to the result, by the visits of the callback.
pub append_each : {A : Type 0} → (ret visited : List A) → List A
append_each ret [] = ret
append_each ret (m ∷ ms) = append_each (ret ++ m ∷ []) ms

-- The result of a list.
unfoldable pub collected : {A W : Type 0} → Action W (List A) → Action W (List A)
unfolding append_each
collected visits w =
    let (result, w') = visits w in
    (elim result [ ok visited ↦ ok (append_each [] visited) | err e ↦ err e | panic ↦ panic ], w')

-- The result of `GetByKey`: an object that is not there is not found.
unfoldable pub found :
    {A L W : Type 0} → Indexer A L W → (resource name : String) → Result (Option A) → Result A
found indexer resource name (err e) = err e
found indexer resource name panic = panic
found indexer resource name (ok none) = err (indexer.new_not_found resource name)
found indexer resource name (ok (some obj)) = ok obj
