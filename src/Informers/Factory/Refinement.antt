-- ===== src/Informers/Factory/Refinement.antt =====
-- The factory as its documentation tells of it: types are asked for, `Start` makes all of them run,
-- and nothing starts after `Shutdown`.
use eventing_gitlab.Base.{◌≡◌, ◌↔◌, ◌⊎◌, String, Bool, true, false, In}
use eventing_gitlab.Informers.Factory.{SharedInformerFactory}
use eventing_gitlab.Informers.Factory.Steps.{keys}

-- The abstract state: the types asked for, those that run, and whether the factory is closed.
pub record Watch : Type 1 where
  pub Asked : String → Type 0
  pub Runs : String → Type 0
  pub closed : Bool

-- What a call may do to it.
pub data Allows (v w : Watch) : Type 0 where
  asks :
      (t : String)
      → ((u : String) → w.Asked u ↔ (v.Asked u ⊎ (u ≡ t)))
      → ((u : String) → w.Runs u ↔ v.Runs u)
      → w.closed ≡ v.closed
      → Allows v w
  starts :
      v.closed ≡ false
      → ((u : String) → w.Asked u ↔ v.Asked u)
      → ((u : String) → w.Runs u ↔ v.Asked u)
      → w.closed ≡ false
      → Allows v w
  stays :
      v.closed ≡ true
      → ((u : String) → w.Asked u ↔ v.Asked u)
      → ((u : String) → w.Runs u ↔ v.Runs u)
      → w.closed ≡ true
      → Allows v w
  closes :
      ((u : String) → w.Asked u ↔ v.Asked u)
      → ((u : String) → w.Runs u ↔ v.Runs u)
      → w.closed ≡ true
      → Allows v w

-- A sequence of these.
pub data Follows : Watch → Watch → Type 1 where
  still : (v : Watch) → Follows v v
  then_allows : (u v w : Watch) → Allows u v → Follows v w → Follows u w

module _ {I T K : Type 0} where
  -- What the factory shows.
  abbrev pub shown : SharedInformerFactory I T K → Watch
  shown f = record {
    Asked = λ t. In t (keys f.informers);
    Runs = λ t. In t (keys f.running);
    closed = f.shutting_down;
  }
