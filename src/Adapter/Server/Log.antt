-- ===== src/Adapter/Server/Log.antt =====
-- What must have happened for the two goroutines of the server to be where they are.
use Prim.Native.Char.{Char}
use mathlib.Core.Path.{subst}
use eventing_gitlab.Base.{
  ◌≡◌, refl, ◌⊎◌, inl, inr, List, [], ◌∷◌, String, Option, none, some, Bool, true, false,
}
use eventing_gitlab.Errors.{Err}
use eventing_gitlab.Adapter.Events.{CloudEventsSdk, ReceiveAdapter}
use eventing_gitlab.Adapter.Server.{
  Event, stop, received, waited, listened, shut, Listened, quit, server_closed, refused, Starter,
  listening, waiting, returned, Closer, receiving, shutting_down, finished, fatal, Process,
  shutdown_returned, listen_returned, could_not_listen, start, Step, stops, receives, shuts,
  listens, waits,
}

-- The event is in the log, and the log before it is such.
pub Happened : Event → (List Event → Type 0) → List Event → Type 0
Happened e Before [] = ⊥
Happened e Before (x ∷ xs) = ((x ≡ e) × Before xs) ⊎ Happened e Before xs

pub Any : List Event → Type 0
Any es = Unit {0}

-- The context has ended and `gracefulShutdown` has called `Shutdown` behind it.
pub Begun : List Event → Type 0
Begun = Happened received (Happened stop Any)

-- `Shutdown` has returned behind that.
pub Shut : Option Err → List Event → Type 0
Shut e = Happened (shut e) Begun

pub ClosedBy : Closer → List Event → Type 0
ClosedBy receiving es = Unit {0}
ClosedBy shutting_down es = Begun es
ClosedBy finished es = Shut none es
ClosedBy (fatal e) es = Shut (some e) es

-- `ListenAndServe` has returned nil or `http.ErrServerClosed`.
pub Quit : List Event → Type 0
Quit es = Happened (listened quit) Any es ⊎ Happened (listened server_closed) Any es

-- `wg.Wait` has returned behind that and behind the shutdown.
pub Graceful : List Event → Type 0
Graceful = Happened waited (λ before. Quit before × Shut none before)

-- `ListenAndServe` has returned another error, which is reported.
pub Refused : (print : Err → String) → (addr : String) → Err → List Event → Type 0
Refused print addr e es =
    (cause : Err) × (e ≡ could_not_listen addr (print cause))
    × Happened (listened (refused cause)) Any es

pub StartedBy : (print : Err → String) → (addr : String) → Starter → List Event → Type 0
StartedBy print addr listening es = Unit {0}
StartedBy print addr waiting es = Quit es
StartedBy print addr (returned none) es = Graceful es
StartedBy print addr (returned (some e)) es = Refused print addr e es

pub StoppedBy : Bool → List Event → Type 0
StoppedBy false es = Unit {0}
StoppedBy true es = Happened stop Any es

ClosedBy-later : (c : Closer) (x : Event) (es : List Event) → ClosedBy c es → ClosedBy c (x ∷ es)
unfolding ClosedBy Shut Begun Happened
ClosedBy-later receiving x es h = tt
ClosedBy-later shutting_down x es h = inr h
ClosedBy-later finished x es h = inr h
ClosedBy-later (fatal e) x es h = inr h

Quit-later : (x : Event) (es : List Event) → Quit es → Quit (x ∷ es)
unfolding Quit Happened
Quit-later x es (inl h) = inl (inr h)
Quit-later x es (inr h) = inr (inr h)

StoppedBy-later : (b : Bool) (x : Event) (es : List Event) → StoppedBy b es → StoppedBy b (x ∷ es)
unfolding StoppedBy Happened
StoppedBy-later false x es h = tt
StoppedBy-later true x es h = inr h

shutdown_returned-ClosedBy :
    (e : Option Err) (es : List Event) → Begun es → ClosedBy (shutdown_returned e) (shut e ∷ es)
unfolding shutdown_returned ClosedBy Shut Happened
shutdown_returned-ClosedBy none es h = inl (refl, h)
shutdown_returned-ClosedBy (some e) es h = inl (refl, h)

module _ (print : Err → String) (addr : String) where
  StartedBy-later :
      (s : Starter) (x : Event) (es : List Event)
      → StartedBy print addr s es
      → StartedBy print addr s (x ∷ es)
  unfolding StartedBy Graceful Refused Happened
  StartedBy-later listening x es h = tt
  StartedBy-later waiting x es h = Quit-later x es h
  StartedBy-later (returned none) x es h = inr h
  StartedBy-later (returned (some e)) x es (cause, same, h) = (cause, same, inr h)

  listen_returned-StartedBy :
      (l : Listened) (es : List Event)
      → StartedBy print addr (listen_returned print addr l) (listened l ∷ es)
  unfolding listen_returned StartedBy Quit Refused Happened Any
  listen_returned-StartedBy quit es = inl (inl (refl, tt))
  listen_returned-StartedBy server_closed es = inr (inl (refl, tt))
  listen_returned-StartedBy (refused e) es = (e, refl, inl (refl, tt))

module _ {P S : Type 0} (print : Err → String) where
  -- The state of a process tells of its log.
  pub record Logged (es : List Event) (p : Process P S) : Type 0 where
    pub stopped_by : StoppedBy p.stopped es
    pub closed_by : ClosedBy p.closer es
    pub started_by : StartedBy print p.server.addr p.starter es

  pub Step-Logged :
      (p : Process P S) (e : Event) (q : Process P S) (es : List Event)
      → Logged es p
      → Step print p e q
      → Logged (e ∷ es) q
  unfolding StoppedBy ClosedBy Begun Happened StartedBy Graceful Any
  Step-Logged p e q es h (stops fresh alive) = record {
    stopped_by = inl (refl, tt);
    closed_by = ClosedBy-later p.closer stop es h.closed_by;
    started_by = StartedBy-later print p.server.addr p.starter stop es h.started_by;
  }
  Step-Logged p e q es h (receives at_stop now) = record {
    stopped_by = StoppedBy-later p.stopped received es h.stopped_by;
    closed_by = inl (refl, subst (λ b. StoppedBy b es) now h.stopped_by);
    started_by = StartedBy-later print p.server.addr p.starter received es h.started_by;
  }
  Step-Logged p e q es h (shuts r begun) = record {
    stopped_by = StoppedBy-later p.stopped (shut r) es h.stopped_by;
    closed_by = shutdown_returned-ClosedBy r es (subst (λ c. ClosedBy c es) begun h.closed_by);
    started_by = StartedBy-later print p.server.addr p.starter (shut r) es h.started_by;
  }
  Step-Logged p e q es h (listens l serving alive) = record {
    stopped_by = StoppedBy-later p.stopped (listened l) es h.stopped_by;
    closed_by = ClosedBy-later p.closer (listened l) es h.closed_by;
    started_by = listen_returned-StartedBy print p.server.addr l es;
  }
  Step-Logged p e q es h (waits quitted down) = record {
    stopped_by = StoppedBy-later p.stopped waited es h.stopped_by;
    closed_by = ClosedBy-later p.closer waited es h.closed_by;
    started_by = inl (
      refl,
      (
        subst (λ s. StartedBy print p.server.addr s es) quitted h.started_by,
        subst (λ c. ClosedBy c es) down h.closed_by,
      ),
    );
  }

-- Nothing has happened when both goroutines are under way.
pub start-Logged_nil :
    {P S : Type 0} (sdk : CloudEventsSdk P S) (unicode_lower : Char → Char) (ra : ReceiveAdapter)
    (print : Err → String)
    → Logged print [] (start sdk unicode_lower ra)
unfolding StoppedBy ClosedBy StartedBy
start-Logged_nil sdk unicode_lower ra print = record {
  stopped_by = tt;
  closed_by = tt;
  started_by = tt;
}
