-- ===== src/Tests/Serving.antt =====
-- The adapter's server from its start to its end.
use eventing_gitlab.Base.{◌≡◌, refl, ◌⊎◌, ◌≤◌, List, [], ◌∷◌, String, none, true, false, length}
use eventing_gitlab.Errors.{Err}
use eventing_gitlab.Adapter.Events.{CloudEvent}
use eventing_gitlab.Adapter.Server.{
  Event, stop, received, waited, listened, shut, server_closed, returned, finished, exited,
  shutdown_returned, listen_returned, Process, http_server, start, stops, receives, shuts, listens,
  waits, Run, here, later,
}
use eventing_gitlab.Adapter.Server.Log.{Logged}
use eventing_gitlab.Adapter.Server.Ending.{IsOver, CanStep, start-Logged, start-Ends}
use eventing_gitlab.Tests.Adapting.{sdk, lower, adapter}

abbrev print : Err → String
print e = "bind: address already in use"

abbrev closing : List Event
closing = waited ∷ shut none ∷ listened server_closed ∷ received ∷ stop ∷ []

-- The process behind a graceful shutdown.
abbrev closed : Process String (List CloudEvent)
closed = record (start sdk lower adapter) {
  stopped = true;
  keep_alives = false;
  starter = returned none;
  closer = finished;
}

graceful : Run print (start sdk lower adapter) closing closed
unfolding exited listen_returned shutdown_returned
graceful =
    later
      (later
        (later (later (later here (stops refl refl)) (receives refl refl))
          (listens server_closed refl refl))
        (shuts none refl))
      (waits refl refl)

start-Logged_example : (closed.server ≡ http_server sdk lower adapter) × Logged print closing closed
start-Logged_example = start-Logged sdk lower adapter print closing closed graceful

start-Ends_example : (length closing ≤ 5) × (IsOver print closed ⊎ CanStep print closed)
start-Ends_example = start-Ends sdk lower adapter print closing closed graceful
