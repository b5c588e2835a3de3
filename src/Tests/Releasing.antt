-- ===== src/Tests/Releasing.antt =====
-- A source with a hook that is being deleted, and the attempts to write a status.
use eventing_gitlab.Base.{◌≡◌, ◌⊎◌, refl, ap, ◌∙◌, none, some, String, true}
use eventing_gitlab.Errors.{foreign, Result, ok, err, panic}
use eventing_gitlab.Source.Types.{GitLabSource}
use eventing_gitlab.Client.Webhooks.{WebhookClient}
use eventing_gitlab.Runtime.Impl.{Patch, ReconcilerImpl}
use eventing_gitlab.Runtime.StatusUpdate.{update_status}
use eventing_gitlab.Runtime.StatusUpdate.Attempts.{Writes}
use eventing_gitlab.Runtime.StatusUpdate.Writing.{update_status-Writes}
use eventing_gitlab.Runtime.Reconcile.{reconcile}
use eventing_gitlab.Runtime.Reconcile.Releasing.{
  Deleting, patching_by, Plain, Released, reconcile_releases,
}
use eventing_gitlab.Tests.Board.{Board, board_manager}
use eventing_gitlab.Tests.Cluster.{Cluster, running, services, project}
use eventing_gitlab.Tests.Instance.{demo, library, leader, retries, implementation}

abbrev leaving : GitLabSource Board
leaving = record demo {
  metadata = record (demo.metadata) { deleting = true };
  status = record (demo.status) { webhook_id = some 3 };
}

abbrev finalizing : ReconcilerImpl Board Cluster
finalizing = record leader { lister = λ namespace name c. (ok leaving, c) }

abbrev deletion : Deleting library finalizing "default/demo" running
deletion = record {
  namespace = "default";
  name = "demo";
  original = leaving;
  environment = running.environment;
  split = refl;
  leads = refl;
  found = refl;
  gone = refl;
}

abbrev client_or : Result (WebhookClient Cluster) → WebhookClient Cluster
client_or (ok cli) = cli
client_or (err x) = project
client_or panic = project

-- Deletions by the client of the project succeed.
project-Plain : Plain board_manager services library finalizing "default/demo" running deletion 3
project-Plain cli e e' x got failed =
    let same : project ≡ cli = ap (λ t. client_or t.0) got in
    let never : ◌≡◌ {A = Result (Unit {0}) × Cluster} (ok tt, record e { hook = none })
        (err x, e') =
      ap (λ (c : WebhookClient Cluster). c.delete 3 e) same ∙ failed in
    cc

-- An API that patches nothing, and one that refuses patches.
abbrev unchanged :
    (namespace name : String) → Patch → Cluster → Result (GitLabSource Board) × Cluster
unchanged namespace name patch c = (ok leaving, c)

abbrev refused : (namespace name : String) → Patch → Cluster → Result (GitLabSource Board) × Cluster
refused namespace name patch c = (err (foreign 409), c)

reconcile_releases_example :
    (reconcile library
        (patching_by board_manager services library finalizing unchanged)
        "default/demo"
        running
      ≡ reconcile library
          (patching_by board_manager services library finalizing refused)
          "default/demo"
          running)
    ⊎ Released board_manager services library finalizing "default/demo" running deletion 3
reconcile_releases_example =
    reconcile_releases board_manager services library finalizing "default/demo" running deletion
      unchanged refused refl tt project-Plain

update_status-Writes_example :
    Writes library leader leaving 4 demo running (update_status library leader demo leaving running)
update_status-Writes_example =
    update_status-Writes library leader leaving (retries implementation) demo running
