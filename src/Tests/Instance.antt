-- ===== src/Tests/Instance.antt =====
-- A reconciler on the cluster: the API refuses an update as often as it has conflicts to come, and
-- stores the next.
use mathlib.Core.Path.{subst}
use eventing_gitlab.Base.{
  ℕ, zero, suc, ◌≡◌, refl, sym, ap, ◌∙◌, inl, inr, Option, none, some, List, [], ◌∷◌, String, Bool,
  true, false, nat_eq, arith, In, All,
}
use eventing_gitlab.Errors.{Err, errorf, wrap, event, response, foreign, Result, ok, err, Action}
use eventing_gitlab.Source.Types.{GitLabSource, GitLabSourceStatus}
use eventing_gitlab.Source.Status.{ready}
use eventing_gitlab.Reconciler.Cluster.{Services}
use eventing_gitlab.Runtime.Impl.{
  Patch, merge_patch, apply_patch, SourceClient, Interface, ReconcilerImpl, Library,
}
use eventing_gitlab.Runtime.StatusUpdate.Retrying.{attempts_from, Retries}
use eventing_gitlab.Runtime.StatusUpdate.Stored.{named, Store}
use eventing_gitlab.Runtime.Reconcile.Marking.{Applied, Patching}
use eventing_gitlab.Runtime.Reconcile.Source.{source_reconciler, Processing}
use eventing_gitlab.Tests.Board.{Board, board_manager}
use eventing_gitlab.Tests.Equality.{GitLabSourceStatus-discrete}
use eventing_gitlab.Tests.Cluster.{Cluster, services, source_with}

abbrev is_foreign : ℕ → Err → Bool
is_foreign code (foreign n) = nat_eq n code
is_foreign code (errorf f a) = false
is_foreign code (wrap f a e) = is_foreign code e
is_foreign code (event s r f e) = false
is_foreign code (response c) = false

abbrev pub finalizer : String
finalizer = "gitlabsources.sources.knative.dev"

-- The source in the lister, with the finalizer.
abbrev pub demo : GitLabSource Board
demo = record (source_with (some 3)) {
  metadata = record ((source_with (some 3)).metadata) { finalizers = finalizer ∷ [] };
}

abbrev with_status : (namespace name : String) → GitLabSourceStatus Board → GitLabSource Board
with_status namespace name s = record demo {
  metadata = record (demo.metadata) { namespace = namespace; name = name };
  status = s;
}

abbrev put_status : ℕ → GitLabSource Board → Action Cluster (GitLabSource Board)
put_status zero o c = (ok o, record c { stored = some o.status })
put_status (suc n) o c = (err (foreign 409), record c { conflicts = n })

abbrev get_status :
    (namespace name : String)
    → Option (GitLabSourceStatus Board)
    → Action Cluster (GitLabSource Board)
get_status namespace name none c = (err (foreign 404), c)
get_status namespace name (some s) c = (ok (with_status namespace name s), c)

abbrev finalizers_of : Patch → List String
finalizers_of (merge_patch finalizers version) = finalizers
finalizers_of (apply_patch api_version kind name uid namespace finalizers manager force) =
    finalizers

abbrev patched_by : Patch → GitLabSource Board
patched_by p = record demo { metadata = record (demo.metadata) { finalizers = finalizers_of p } }

abbrev pub client : SourceClient Board Cluster
client = record {
  patch = λ namespace name p c. (ok (patched_by p), c);
  get = λ namespace name c. get_status namespace name c.stored c;
  update_status = λ namespace o c. put_status c.conflicts o c;
  is_not_found = is_foreign 404;
  is_conflict = is_foreign 409;
}

-- A cluster that cannot resolve sinks.
abbrev pub broken : Services Board Cluster
broken = record services { resolve_uri = λ sink c. (err (foreign 500), c) }

abbrev equal_statuses : (s t : GitLabSourceStatus Board) → Bool
equal_statuses s t = elim (GitLabSourceStatus-discrete s t) [ yes e ↦ true | no e ↦ false ]

pub equal_statuses-refl : (s : GitLabSourceStatus Board) → equal_statuses s s ≡ true
equal_statuses-refl s = by_decision (GitLabSourceStatus-discrete s s)
  where
    by_decision : (d : Dec (s ≡ s)) → (elim d [ yes e ↦ true | no e ↦ false ]) ≡ true
    by_decision (yes e) = refl
    by_decision (no e) = absurd (e refl)

pub equal_statuses-eq : (s t : GitLabSourceStatus Board) → equal_statuses s t ≡ true → s ≡ t
equal_statuses-eq s t = by_decision (GitLabSourceStatus-discrete s t)
  where
    by_decision : (d : Dec (s ≡ t)) → (elim d [ yes e ↦ true | no e ↦ false ]) ≡ true → s ≡ t
    by_decision (yes e) h = e
    by_decision (no e) h = absurd (ground arith)

abbrev pub library : Library Board Cluster
library = record {
  split_meta_namespace_key = λ key. ok ("default", "demo");
  new_skip_key = λ key. foreign 1;
  is_skip_key = is_foreign 1;
  is_requeue_key = is_foreign 2;
  deep_equal = equal_statuses;
  pre_process_reconcile = λ o. o;
  post_process_reconcile = λ original o. o;
  object_kinds = λ o. ok (("sources.knative.dev/v1alpha1", "GitLabSource") ∷ []);
  retry_update_conflicts = λ f. attempts_from (is_foreign 409) f 0 4;
}

-- The reconciler of this implementation.
abbrev pub reconciler_of : Interface Board Cluster → ReconcilerImpl Board Cluster
reconciler_of implementation = record {
  is_leader_for = λ namespace name. true;
  client = client;
  lister = λ namespace name c. (ok demo, c);
  reconciler = implementation;
  finalizer_name = finalizer;
  use_server_side_apply_for_finalizers = false;
  finalizer_field_manager = "";
  force_apply_finalizers = false;
  skip_status_updates = false;
}

-- The leading reconciler around the source's, on the cluster that cannot resolve sinks.
abbrev pub implementation : Interface Board Cluster
implementation = source_reconciler board_manager broken

abbrev pub leader : ReconcilerImpl Board Cluster
leader = reconciler_of implementation

abbrev pub retries : (i : Interface Board Cluster) → Retries library (reconciler_of i)
retries i = record { retries = 4; retrying = λ f w. refl }

pub put_status-stored :
    (n : ℕ) (o : GitLabSource Board) (c : Cluster) {u : GitLabSource Board} {c' : Cluster}
    → put_status n o c ≡ (ok u, c')
    → c'.stored ≡ some o.status
put_status-stored zero o c h = sym (ap (λ t. t.1.stored) h)
put_status-stored (suc n) o c h = absurd (ground arith)

pub get_status-stored :
    (namespace name : String) (held : Option (GitLabSourceStatus Board)) (c : Cluster)
    {o : GitLabSource Board} {c' : Cluster}
    → c.stored ≡ held
    → get_status namespace name held c ≡ (ok o, c')
    → (named o ≡ (namespace, name)) × (c'.stored ≡ some o.status)
get_status-stored namespace name none c same h = absurd (ground arith)
get_status-stored namespace name (some s) c {o} {c'} same h =
    let got : with_status namespace name s ≡ o = ground arith in
    let stays : c ≡ c' = ap (λ t. t.1) h in
    (ap named (sym got), ap (λ x. x.stored) (sym stays) ∙ same ∙ ap (λ x. some x.status) got)

abbrev pub store : (i : Interface Board Cluster) → Store (reconciler_of i)
store i = record {
  stored = λ c name. c.stored;
  stored-update_status = λ o c h. put_status-stored c.conflicts o c h;
  stored-get = λ namespace name c h. get_status-stored namespace name c.stored c refl h;
}

abbrev pub processing : Processing board_manager broken library leader
processing = record {
  deep_equal-refl = equal_statuses-refl;
  deep_equal-ready =
      λ s t h. ap (λ x. board_manager.get x.conditions ready) (equal_statuses-eq s t h);
  pre_process-metadata = λ o. refl;
  post_process-metadata = λ original o. refl;
  post_process-ready = λ original o reason m h. h;
}

In-self : (xs : List String) → All (λ f. In f xs) xs
In-self xs = within xs xs (λ f h. h)
  where
    within : (ys zs : List String) → ((f : String) → In f ys → In f zs) → All (λ f. In f zs) ys
    within [] zs there = tt
    within (y ∷ ys) zs there = (there y (inl refl), within ys zs (λ f h. there f (inr h)))

patched_by-Applied : (p : Patch) → Applied p (patched_by p)
patched_by-Applied (merge_patch finalizers version) = refl
patched_by-Applied (apply_patch api_version kind name uid namespace finalizers manager force) =
    In-self finalizers

pub patched_applies :
    (p : Patch) (c : Cluster) {updated : GitLabSource Board} {c' : Cluster}
    → ◌≡◌ {A = Result (GitLabSource Board) × Cluster} (ok (patched_by p), c) (ok updated, c')
    → Applied p updated
patched_applies p c {updated} h =
    let got : patched_by p ≡ updated = ground arith in subst (Applied p) got (patched_by-Applied p)

abbrev pub patching : (i : Interface Board Cluster) → Patching (reconciler_of i)
patching i = record { applies = λ namespace name p c h. patched_applies p c h }
