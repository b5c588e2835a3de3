-- ===== src/Fakes/Reading.antt =====
-- How a request and an action of a client are read: as calls of its methods.
use Prim.Native.Nat.{◌*◌, ◌%◌, ◌^◌}
use eventing_gitlab.Base.{
  ◌≡◌, Option, none, some, List, [], ◌∷◌, String, ℕ, ◌==◌, if◌then◌else◌, true,
}
use eventing_gitlab.Clientset.{
  Verb, get, post, put, delete, patch, ListOptions, Params, list_options, other_options, Body,
  object, delete_options, patch_data, Request,
}
use eventing_gitlab.Fakes.{
  TestAction, new_get_action, new_list_action, new_watch_action, new_create_action,
  new_update_action, new_update_subresource_action, new_delete_action_with_options,
  new_delete_collection_action, new_patch_subresource_action,
}

-- A call of a method of a client.
pub data Call (A O : Type 0) : Type 0 where
  get_named : (name : String) → O → Call A O
  list : ListOptions → Call A O
  watch_all : ListOptions → Call A O
  create : A → O → Call A O
  update : A → O → Call A O
  update_status : A → O → Call A O
  delete_named : (name : String) → O → Call A O
  delete_collection : O → ListOptions → Call A O
  patch_named : (name patch_type bytes : String) → O → (sub_resources : List String) → Call A O

-- The method of the REST client that sends a request, by what it waits for.
pub data Awaited : Type 0 where
  an_object a_list no_object a_watch : Awaited

-- The seconds of the options in nanoseconds, as a 64-bit word.
abbrev pub nanoseconds : Option ℕ → ℕ
nanoseconds none = 0
nanoseconds (some seconds) = (seconds * 1000000000) % 2 ^ 64

module _ {A O : Type 0} where
  -- A request as a server reads it: the call with all of its arguments, and none where something is
  -- missing or not expected.
  abbrev pub read_parts :
      Verb
      → Option String
      → List String
      → Option (Params O)
      → Option (Body A O)
      → Awaited
      → Option (Call A O)
  read_parts get (some name) [] (some (other_options o)) none an_object = some (get_named name o)
  read_parts get none [] (some (list_options l)) none a_list = some (list l)
  read_parts get none [] (some (list_options l)) none a_watch = some (watch_all l)
  read_parts post none [] (some (other_options o)) (some (object a)) an_object = some (create a o)
  read_parts put (some name) [] (some (other_options o)) (some (object a)) an_object =
      some (update a o)
  read_parts put (some name) (sub ∷ []) (some (other_options o)) (some (object a)) an_object =
      if sub == "status" then some (update_status a o) else none
  read_parts delete (some name) [] none (some (delete_options o)) no_object =
      some (delete_named name o)
  read_parts delete none [] (some (list_options l)) (some (delete_options o)) no_object =
      some (delete_collection o l)
  read_parts (patch t) (some name) subs (some (other_options o)) (some (patch_data b)) an_object =
      some (patch_named name t b o subs)
  read_parts _ _ _ _ _ _ = none

  -- The call as it is sent: a watch sets `Watch`.
  abbrev pub as_sent : Call A O → Call A O
  as_sent (watch_all l) = watch_all (record l { watch = true })
  as_sent call = call

  abbrev pub awaited : Call A O → Awaited
  awaited (list l) = a_list
  awaited (watch_all l) = a_watch
  awaited (delete_named name o) = no_object
  awaited (delete_collection o l) = no_object
  awaited _ = an_object

  -- The name in the path of the request, for objects that have a name.
  abbrev pub addressed : (name_of : A → String) → Call A O → Option String
  addressed name_of (get_named name o) = some name
  addressed name_of (update a o) = some (name_of a)
  addressed name_of (update_status a o) = some (name_of a)
  addressed name_of (delete_named name o) = some name
  addressed name_of (patch_named name t b o subs) = some name
  addressed name_of _ = none

  abbrev pub timeout_for : Call A O → Option ℕ
  timeout_for (list l) = some (nanoseconds l.timeout_seconds)
  timeout_for (watch_all l) = some (nanoseconds l.timeout_seconds)
  timeout_for (delete_collection o l) = some (nanoseconds l.timeout_seconds)
  timeout_for _ = none

  -- One request is sent, to the resource and the namespace, and the call is read from it.
  abbrev pub Sends :
      (name_of : A → String)
      → (resource ns : String) → Call A O
      → List (Request A O × Awaited)
      → Type 0
  Sends name_of resource ns call sent =
      (q : Request A O) × (sent ≡ (q, awaited call) ∷ [])
      × (q.resource ≡ resource)
      × (q.namespace ≡ ns)
      × (q.name ≡ addressed name_of call)
      × (q.timeout ≡ timeout_for call)
      × (read_parts q.verb q.name q.sub_resources q.params q.body (awaited call)
          ≡ some (as_sent call))

  -- An action as it is read: the call, of whose options it may have none.
  abbrev pub read_action : TestAction A O → Option (Call A (Option O))
  read_action (new_get_action r ns name) = some (get_named name none)
  read_action (new_list_action r kind ns l) = some (list l)
  read_action (new_watch_action r ns l) = some (watch_all l)
  read_action (new_create_action r ns a) = some (create a none)
  read_action (new_update_action r ns a) = some (update a none)
  read_action (new_update_subresource_action r sub ns a) =
      if sub == "status" then some (update_status a none) else none
  read_action (new_delete_action_with_options r ns name o) = some (delete_named name (some o))
  read_action (new_delete_collection_action r ns l) = some (delete_collection none l)
  read_action (new_patch_subresource_action r ns name t b subs) =
      some (patch_named name t b none subs)

  -- The call without the options that the fake client drops.
  abbrev pub as_invoked : Call A O → Call A (Option O)
  as_invoked (get_named name o) = get_named name none
  as_invoked (list l) = list l
  as_invoked (watch_all l) = watch_all l
  as_invoked (create a o) = create a none
  as_invoked (update a o) = update a none
  as_invoked (update_status a o) = update_status a none
  as_invoked (delete_named name o) = delete_named name (some o)
  as_invoked (delete_collection o l) = delete_collection none l
  as_invoked (patch_named name t b o subs) = patch_named name t b none subs

  -- The resource and the namespace of an action, and the kind of a list.
  abbrev pub target : TestAction A O → String × String × Option String
  target (new_get_action r ns name) = (r, ns, none)
  target (new_list_action r kind ns l) = (r, ns, some kind)
  target (new_watch_action r ns l) = (r, ns, none)
  target (new_create_action r ns a) = (r, ns, none)
  target (new_update_action r ns a) = (r, ns, none)
  target (new_update_subresource_action r sub ns a) = (r, ns, none)
  target (new_delete_action_with_options r ns name o) = (r, ns, none)
  target (new_delete_collection_action r ns l) = (r, ns, none)
  target (new_patch_subresource_action r ns name t b subs) = (r, ns, none)

  abbrev pub kind_for : (kind : String) → Call A O → Option String
  kind_for kind (list l) = some kind
  kind_for kind _ = none

  -- One action is invoked on the resource and the namespace, and the call is read from it.
  abbrev pub Invokes : (resource kind ns : String) → Call A O → List (TestAction A O) → Type 0
  Invokes resource kind ns call invoked =
      (a : TestAction A O) × (invoked ≡ a ∷ [])
      × (target a ≡ (resource, ns, kind_for kind call))
      × (read_action a ≡ some (as_invoked call))
