-- ===== src/Controllers/Bindings.antt =====
-- pkg/reconciler/binding/controller.go. What the controller takes from its context is a record.
use eventing_gitlab.Base.{List, [], ◌∷◌, ◌++◌, String}
use eventing_gitlab.Errors.{Action, pure, modify, ◌>>=◌, ◌>>◌}
use eventing_gitlab.Binding.Types.{GitLabBinding}
use eventing_gitlab.Listers.Bindings.{GitLabBindingLister}

-- The informer of the bindings: its lister, `labels.Everything()`, and `AddEventHandler`, which
-- leaves the handler with the informer.
pub record BindingInformer (C L E W : Type 0) : Type 0 where
  pub lister : GitLabBindingLister C L W
  pub everything : L
  pub add_event_handler : E → W → W

-- The `psbinding.BaseReconciler` that the controller runs, as far as the program makes it: `B` is
-- the type of the buckets that a leader is promoted for, and `get` gives a binding as a `Bindable`.
pub record BaseReconciler (C B W : Type 0) : Type 0 where
  pub promote_func : B → (enq : B → String × String → Action W (Unit {0})) → Action W (Unit {0})
  pub gvr : String × String × String
  pub get : (namespace name : String) → Action W (GitLabBinding C)

-- The loop of `PromoteFunc`.
unfoldable pub enqueue_each :
    {C B W : Type 0}
    → B
    → (enq : B → String × String → Action W (Unit {0})) → List (GitLabBinding C)
    → Action W (Unit {0})
enqueue_each bkt enq [] = pure tt
enqueue_each bkt enq (elt ∷ all) = do enq bkt (elt.namespace, elt.name); enqueue_each bkt enq all

-- The loop of `ListAll`: a binding is its own `Bindable`.
unfoldable pub append_bindables :
    {C : Type 0} → (bl all : List (GitLabBinding C)) → List (GitLabBinding C)
append_bindables bl [] = bl
append_bindables bl (elt ∷ l) = append_bindables (bl ++ elt ∷ []) l

module _ {C L E W : Type 0} where
  -- `PromoteFunc`
  unfoldable pub promote_func :
      {B : Type 0}
      → BindingInformer C L E W
      → B
      → (enq : B → String × String → Action W (Unit {0})) → Action W (Unit {0})
  unfolding enqueue_each
  promote_func informer bkt enq = do
    all ← informer.lister.list informer.everything
    enqueue_each bkt enq all

  -- The reconciler of `NewController`.
  unfoldable pub base_reconciler : {B : Type 0} → BindingInformer C L E W → BaseReconciler C B W
  unfolding promote_func
  base_reconciler informer = record {
    promote_func = promote_func informer;
    gvr = ("bindings.knative.dev", "v1alpha1", "gitlabbindings");
    get = λ namespace name. (informer.lister.git_lab_bindings namespace).get name;
  }

  -- `NewController`: the reconciler, with the handlers that are added. `enqueue_all` is
  -- `controller.HandleAll(impl.Enqueue)` of the implementation that is made of the reconciler.
  unfoldable pub new_controller :
      {B : Type 0}
      → BindingInformer C L E W
      → (add_namespace_handler : E → W → W) → (enqueue_all : BaseReconciler C B W → E)
      → Action W (BaseReconciler C B W)
  unfolding base_reconciler
  new_controller informer add_namespace_handler enqueue_all = do
    let c = base_reconciler informer
    modify (informer.add_event_handler (enqueue_all c))
    modify (add_namespace_handler (enqueue_all c))
    pure c

  -- The function that `ListAll` returns.
  unfoldable pub list_bindables : BindingInformer C L E W → Action W (List (GitLabBinding C))
  unfolding append_bindables
  list_bindables informer = do
    l ← informer.lister.list informer.everything
    pure (append_bindables [] l)

  -- `ListAll`
  unfoldable pub list_all :
      BindingInformer C L E W → (handler : E) → Action W (Action W (List (GitLabBinding C)))
  unfolding list_bindables
  list_all informer handler = do
    modify (informer.add_event_handler handler)
    pure (list_bindables informer)
