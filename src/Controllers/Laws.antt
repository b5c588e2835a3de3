-- ===== src/Controllers/Laws.antt =====
-- The bindings that a new leader enqueues, and those that the webhook is configured for.
use mathlib.Core.Path.{fun_ext}
use mathlib.Core.List.{append_assoc, append-nil}
use eventing_gitlab.Base.{◌≡◌, refl, sym, ap, ◌∙◌, List, [], ◌∷◌, ◌++◌, map, String}
use eventing_gitlab.Errors.{Result, ok, err, panic, Action, pure, ◌>>=◌}
use eventing_gitlab.Errors.Continuing.{bind-agree}
use eventing_gitlab.Binding.Types.{GitLabBinding}
use eventing_gitlab.Controllers.Bindings.{
  BindingInformer, enqueue_each, append_bindables, promote_func, list_bindables,
}

append_bindables-append :
    {C : Type 0} (bl all : List (GitLabBinding C)) → append_bindables bl all ≡ bl ++ all
unfolding append_bindables
append_bindables-append bl [] = rw append-nil refl
append_bindables-append bl (elt ∷ l) =
    append_bindables-append (bl ++ elt ∷ []) l ∙ append_assoc bl (elt ∷ []) l

-- Names enqueued one after the other, by what enqueuing one makes of the state.
abbrev pub pushed :
    {B W : Type 0} → (push : B → String × String → W → W) → B → List (String × String) → W → W
pushed push bkt [] w = w
pushed push bkt (key ∷ keys) w = pushed push bkt keys (push bkt key w)

abbrev pub name_of : {C : Type 0} → GitLabBinding C → String × String
name_of elt = (elt.namespace, elt.name)

enqueue_each-pushed :
    {C B W : Type 0} (push : B → String × String → W → W) (bkt : B) (all : List (GitLabBinding C))
    (w : W)
    → enqueue_each bkt (λ b key s. (ok tt, push b key s)) all w
      ≡ (ok tt, pushed push bkt (map name_of all) w)
unfolding enqueue_each
enqueue_each-pushed push bkt [] w = refl
enqueue_each-pushed push bkt (elt ∷ all) w =
    enqueue_each-pushed push bkt all (push bkt (name_of elt) w)

module _ {C L E W : Type 0} (informer : BindingInformer C L E W) where
  -- The function that `ListAll` returns lists just what the lister does.
  list_bindables-lister :
      (w : W) → list_bindables informer w ≡ informer.lister.list informer.everything w
  unfolding list_bindables
  list_bindables-lister w = by_end (informer.lister.list informer.everything w)
    where
      by_end :
          (r : Result (List (GitLabBinding C)) × W)
          → ((λ _. r) >>= (λ (l : List (GitLabBinding C)). pure (append_bindables [] l))) w ≡ r
      by_end (ok l, w') = ap (λ t. (ok t, w')) (append_bindables-append [] l)
      by_end (err e, w') = refl
      by_end (panic, w') = refl

  -- Where the lister gives a list, `PromoteFunc` enqueues the namespace and the name of each binding
  -- in it, once and in order; an error or a panic of the lister enqueues nothing.
  promote_func-pushed :
      {B : Type 0} (push : B → String × String → W → W) (bkt : B) (w : W)
      → promote_func informer bkt (λ b key s. (ok tt, push b key s)) w
        ≡ (informer.lister.list informer.everything >>= λ all s.
              (ok tt, pushed push bkt (map name_of all) s))
            w
  unfolding promote_func
  promote_func-pushed push bkt w =
      bind-agree (informer.lister.list informer.everything)
        (enqueue_each bkt (λ b key s. (ok tt, push b key s)))
        (λ all s. (ok tt, pushed push bkt (map name_of all) s)) w
        λ all s h. enqueue_each-pushed push bkt all s

  -- A new leader enqueues the namespace and the name of just those bindings, once and in order, that
  -- the function returned by `ListAll` gives the webhook; where it fails, so does `PromoteFunc`, with
  -- nothing enqueued.
  pub promote_func-list_bindables :
      {B : Type 0} (push : B → String × String → W → W) (bkt : B) (w : W)
      → promote_func informer bkt (λ b key s. (ok tt, push b key s)) w
        ≡ (list_bindables informer >>= λ all s. (ok tt, pushed push bkt (map name_of all) s)) w
  promote_func-list_bindables push bkt w =
      promote_func-pushed push bkt w
      ∙ ap
          (λ (m : Action W (List (GitLabBinding C))).
            (m >>= λ all s. (ok tt, pushed push bkt (map name_of all) s)) w)
          (sym (fun_ext list_bindables-lister))
