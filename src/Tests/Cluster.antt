-- ===== src/Tests/Cluster.antt =====
-- A namespace with one Service and a GitLab project with one hook, as the reconciler sees them.
use eventing_gitlab.Base.{
  ℕ, refl, Option, none, some, List, [], ◌∷◌, Bool, true, false, nat_eq, if◌then◌else◌,
}
use eventing_gitlab.Errors.{Err, errorf, wrap, event, response, foreign, ok, err, Action}
use eventing_gitlab.Source.Types.{ObjectMeta, GitLabSource, GitLabSourceSpec, GitLabSourceStatus}
use eventing_gitlab.Source.Status.{is_unknown}
use eventing_gitlab.Client.Webhooks.{WebhookClient}
use eventing_gitlab.Reconciler.Cluster.{Service, World, Services}
use eventing_gitlab.Tests.Board.{Board}

-- The Services of the namespace, the ID of the project's hook, the status of the source that the API
-- holds, and the conflicts to come.
pub record Cluster : Type 0 where
  pub services : List Service
  pub hook : Option ℕ
  pub stored : Option (GitLabSourceStatus Board)
  pub conflicts : ℕ

abbrev not_found : Err → Bool
not_found (errorf f a) = false
not_found (wrap f a e) = not_found e
not_found (event s r f e) = false
not_found (response c) = false
not_found (foreign n) = nat_eq n 404

abbrev get_hook : ℕ → Option ℕ → Action Cluster ℕ
get_hook hook_id none c = (err (wrap "getting webhook" [] (response 404)), c)
get_hook hook_id (some n) c = if nat_eq n hook_id then (ok n, c) else (err (response 404), c)

abbrev pub project : WebhookClient Cluster
project = record {
  get = λ hook_id c. get_hook hook_id c.hook c;
  add = λ event_types url tls c. (ok 7, record c { hook = some 7 });
  edit = λ hook_id event_types url tls c. (ok tt, c);
  delete = λ hook_id c. (ok tt, record c { hook = none });
}

abbrev pub services : Services Board Cluster
services = record {
  get_client = λ src c. (ok project, c);
  resolve_uri = λ sink c. (ok (some "http://broker.default"), c);
  list_services = λ namespace c. (ok c.services, c);
  create_service = λ namespace ksvc c. (ok ksvc, record c { services = ksvc ∷ c.services });
  is_not_found = not_found;
  not_found = foreign 404;
  config_env_vars = [];
  receive_adapter_image = "gitlab-receive-adapter";
  iteration = λ keys. keys;
  is_not_found-not_found = refl;
  is_not_found-wrap = λ f a e. refl;
}

abbrev pub adapter_service : Service
adapter_service = record {
  generate_name = "demo-";
  namespace = "default";
  labels = [];
  controller = some (record { owner_kind = "GitLabSource"; owner_name = "demo"; owner_uid = "u1" });
  service_account_name = "";
  image = "gitlab-receive-adapter";
  env = [];
  ready = true;
  url = some "http://demo.default";
}

abbrev metadata : ObjectMeta
metadata = record {
  name = "demo";
  namespace = "default";
  uid = "u1";
  generation = 1;
  finalizers = [];
  resource_version = "5";
  deleting = false;
}

abbrev pub spec : GitLabSourceSpec
spec = record {
  sink = record { ref = none; uri = some "http://broker.default" };
  service_account_name = "";
  project_url = "https://gitlab.example.com/group/project";
  event_types = "push_events" ∷ "issues_events" ∷ "push_events" ∷ [];
  access_token = some (record { name = "gitlabsecret"; key = "accessToken" });
  secret_token = some (record { name = "gitlabsecret"; key = "secretToken" });
  ssl_verify = true;
}

-- A source with this hook in its status.
abbrev pub source_with : Option ℕ → GitLabSource Board
source_with hook = record {
  metadata = metadata;
  spec = spec;
  status = record {
    observed_generation = 1;
    conditions = record {
      sink = is_unknown;
      adapter = is_unknown;
      webhook = is_unknown;
      sum = is_unknown;
    };
    sink_uri = none;
    cloud_event_attributes = [];
    webhook_id = hook;
  };
}

-- The source's hook and the project's agree, and the adapter runs.
abbrev pub running : World Board Cluster
running = record {
  source = source_with (some 3);
  environment = record {
    services = adapter_service ∷ [];
    hook = some 3;
    stored = none;
    conflicts = 0;
  };
  recorded = [];
}
