-- ===== src/Fakes/Requests.antt =====
-- What the fake clients invoke, and what the real ones send, for the same call.
use eventing_gitlab.Base.{refl, none, List, [], ◌∷◌, ◌++◌, String, true}
use eventing_gitlab.Errors.{ok, panic}
use eventing_gitlab.Source.Types.{GitLabSource}
use eventing_gitlab.Binding.Types.{GitLabBinding}
use eventing_gitlab.Clientset.{Request, RestInterface, timeout_of}
use eventing_gitlab.Clientset.Sources.{git_lab_sources}
use eventing_gitlab.Clientset.Bindings.{git_lab_bindings}
use eventing_gitlab.Fakes.{TestAction, Fake}
use eventing_gitlab.Fakes.Sources
use eventing_gitlab.Fakes.Bindings
use eventing_gitlab.Fakes.Reading.{
  Call, get_named, list, watch_all, create, update, update_status, delete_named, delete_collection,
  patch_named, Awaited, an_object, a_list, no_object, a_watch, Sends, Invokes,
}

-- A REST client and a fake that write down what they are asked.
abbrev pub recorder : (A O : Type 0) → RestInterface A O (Unit {0}) (List (Request A O × Awaited))
recorder A O = record {
  do_into = λ q w. (panic, w ++ (q, an_object) ∷ []);
  do_into_list = λ q w. (panic, w ++ (q, a_list) ∷ []);
  do_error = λ q w. (ok tt, w ++ (q, no_object) ∷ []);
  do_watch = λ q w. (ok tt, w ++ (q, a_watch) ∷ []);
}

abbrev pub fake_recorder : (A O : Type 0) → Fake A O (Unit {0}) (Unit {0}) (List (TestAction A O))
fake_recorder A O = record {
  invokes = λ a default w. ((none, none), w ++ a ∷ []);
  invokes_watch = λ a w. (ok tt, w ++ a ∷ []);
  extract = λ opts. none;
  everything = tt;
  matches = λ label o. true;
}

-- The requests of a call of the real client, and the actions of the same call of the fake one.
module _ {C O : Type 0} (ns : String) where
  abbrev pub source_requests : Call (GitLabSource C) O → List (Request (GitLabSource C) O × Awaited)
  source_requests call =
      let c = git_lab_sources (recorder (GitLabSource C) O) ns in
      elim call [
        | get_named name opts ↦ (c.get_named name opts []).1
        | list opts ↦ (c.list opts []).1
        | watch_all opts ↦ (c.watch_all opts []).1
        | create o opts ↦ (c.create o opts []).1
        | update o opts ↦ (c.update o opts []).1
        | update_status o opts ↦ (c.update_status o opts []).1
        | delete_named name opts ↦ (c.delete_named name opts []).1
        | delete_collection opts list_opts ↦ (c.delete_collection opts list_opts []).1
        | patch_named name t bytes opts subs ↦ (c.patch_named name t bytes opts subs []).1
      ]

  abbrev pub source_actions : Call (GitLabSource C) O → List (TestAction (GitLabSource C) O)
  source_actions call =
      let c = fake_recorder (GitLabSource C) O in
      elim call [
        | get_named name opts ↦ (Sources.fake_get c ns name opts []).1
        | list opts ↦ (Sources.fake_list c ns opts []).1
        | watch_all opts ↦ (Sources.fake_watch c ns opts []).1
        | create o opts ↦ (Sources.fake_create c ns o opts []).1
        | update o opts ↦ (Sources.fake_update c ns o opts []).1
        | update_status o opts ↦ (Sources.fake_update_status c ns o opts []).1
        | delete_named name opts ↦ (Sources.fake_delete c ns name opts []).1
        | delete_collection opts list_opts ↦
            (Sources.fake_delete_collection c ns opts list_opts []).1
        | patch_named name t bytes opts subs ↦ (Sources.fake_patch c ns name t bytes opts subs []).1
      ]

  abbrev pub binding_requests :
      Call (GitLabBinding C) O → List (Request (GitLabBinding C) O × Awaited)
  binding_requests call =
      let c = git_lab_bindings (recorder (GitLabBinding C) O) ns in
      elim call [
        | get_named name opts ↦ (c.get_named name opts []).1
        | list opts ↦ (c.list opts []).1
        | watch_all opts ↦ (c.watch_all opts []).1
        | create o opts ↦ (c.create o opts []).1
        | update o opts ↦ (c.update o opts []).1
        | update_status o opts ↦ (c.update_status o opts []).1
        | delete_named name opts ↦ (c.delete_named name opts []).1
        | delete_collection opts list_opts ↦ (c.delete_collection opts list_opts []).1
        | patch_named name t bytes opts subs ↦ (c.patch_named name t bytes opts subs []).1
      ]

  abbrev pub binding_actions : Call (GitLabBinding C) O → List (TestAction (GitLabBinding C) O)
  binding_actions call =
      let c = fake_recorder (GitLabBinding C) O in
      elim call [
        | get_named name opts ↦ (Bindings.fake_get c ns name opts []).1
        | list opts ↦ (Bindings.fake_list c ns opts []).1
        | watch_all opts ↦ (Bindings.fake_watch c ns opts []).1
        | create o opts ↦ (Bindings.fake_create c ns o opts []).1
        | update o opts ↦ (Bindings.fake_update c ns o opts []).1
        | update_status o opts ↦ (Bindings.fake_update_status c ns o opts []).1
        | delete_named name opts ↦ (Bindings.fake_delete c ns name opts []).1
        | delete_collection opts list_opts ↦
            (Bindings.fake_delete_collection c ns opts list_opts []).1
        | patch_named name t bytes opts subs ↦
            (Bindings.fake_patch c ns name t bytes opts subs []).1
      ]

  -- Each call of the real client sends exactly one request: to the resource in the namespace of the
  -- client, with the timeout of its options, and such that the call can be read from it with all of
  -- its arguments, options and body. The same call of the fake client invokes exactly one action on
  -- that resource and namespace, from which the call can be read without the options that the fake
  -- drops: all but the options of lists and those of a single deletion.
  pub binding_actions-binding_requests :
      (call : Call (GitLabBinding C) O)
      → Sends (λ o. o.name) "gitlabbindings" ns call (binding_requests call)
        × Invokes "gitlabbindings" "GitLabBinding" ns call (binding_actions call)
  unfolding git_lab_bindings Bindings.fake_get Bindings.fake_list Bindings.fake_watch
      Bindings.fake_create Bindings.fake_update Bindings.fake_update_status Bindings.fake_delete
      Bindings.fake_delete_collection Bindings.fake_patch timeout_of
  binding_actions-binding_requests (get_named name opts) =
      ((_, refl, refl, refl, refl, refl, refl), (_, refl, refl, refl))
  binding_actions-binding_requests (list opts) =
      ((_, refl, refl, refl, refl, refl, refl), (_, refl, refl, refl))
  binding_actions-binding_requests (watch_all opts) =
      ((_, refl, refl, refl, refl, refl, refl), (_, refl, refl, refl))
  binding_actions-binding_requests (create o opts) =
      ((_, refl, refl, refl, refl, refl, refl), (_, refl, refl, refl))
  binding_actions-binding_requests (update o opts) =
      ((_, refl, refl, refl, refl, refl, refl), (_, refl, refl, refl))
  binding_actions-binding_requests (update_status o opts) =
      ((_, refl, refl, refl, refl, refl, refl), (_, refl, refl, refl))
  binding_actions-binding_requests (delete_named name opts) =
      ((_, refl, refl, refl, refl, refl, refl), (_, refl, refl, refl))
  binding_actions-binding_requests (delete_collection opts list_opts) =
      ((_, refl, refl, refl, refl, refl, refl), (_, refl, refl, refl))
  binding_actions-binding_requests (patch_named name t bytes opts subs) =
      ((_, refl, refl, refl, refl, refl, refl), (_, refl, refl, refl))
