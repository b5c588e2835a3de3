-- ===== src/Adapter/Server.antt =====
-- `Start`, `start` and `gracefulShutdown` of pkg/adapter/receive_adapter.go: the goroutine that
-- serves and the one that waits for the context to end, interleaved in any order. What
-- `ListenAndServe` and `Shutdown` of the HTTP server return, and when, is left open.
pub mod Log
pub mod Ending
use Prim.Native.Char.{Char}
use Prim.Native.String.{◌++◌}
use eventing_gitlab.Base.{ℕ, ◌≡◌, List, [], ◌∷◌, String, Option, none, some, Bool, true, false}
use eventing_gitlab.Errors.{Err, errorf}
use eventing_gitlab.Adapter.Events.{CloudEventsSdk, ReceiveAdapter}
use eventing_gitlab.Adapter.Webhook.{Webhook, adapter_webhook}

-- The fields of the `http.Server` that `start` sets, its timeouts in seconds.
pub record HttpServer (P S : Type 0) : Type 0 where
  pub read_timeout : ℕ
  pub read_header_timeout : ℕ
  pub addr : String
  pub handler : Webhook P S

-- What `ListenAndServe` returns: nil, `http.ErrServerClosed` or another error.
pub data Listened : Type 0 where
  quit server_closed : Listened
  refused : Err → Listened

-- Where `start` is: in `ListenAndServe`, in `wg.Wait`, or behind its return with this error.
pub data Starter : Type 0 where
  listening waiting : Starter
  returned : Option Err → Starter

-- Where the goroutine of `gracefulShutdown` is: at `<-stopCh`, in `Shutdown`, behind `wg.Done`, or
-- in `logger.Fatal`, which ends the program.
pub data Closer : Type 0 where
  receiving shutting_down finished : Closer
  fatal : Err → Closer

pub record Process (P S : Type 0) : Type 0 where
  pub server : HttpServer P S
  -- Whether the channel `stopCh` is closed.
  pub stopped : Bool
  pub keep_alives : Bool
  pub starter : Starter
  pub closer : Closer

unfoldable pub exited : Closer → Bool
exited (fatal e) = true
exited _ = false

-- What happens to the two goroutines. `stop` is the end of the context.
pub data Event : Type 0 where
  stop received waited : Event
  listened : Listened → Event
  shut : Option Err → Event

-- `gracefulShutdown` behind the return of `Shutdown`.
unfoldable pub shutdown_returned : Option Err → Closer
shutdown_returned none = finished
shutdown_returned (some e) = fatal e

abbrev pub could_not_listen : (addr cause : String) → Err
could_not_listen addr cause = errorf "could not listen on %s: %v" (addr ∷ cause ∷ [])

-- `start` behind the return of `ListenAndServe`, with the text that `%v` prints for an error.
unfoldable pub listen_returned : (print : Err → String) → (addr : String) → Listened → Starter
listen_returned print addr (refused e) = returned (some (could_not_listen addr (print e)))
listen_returned print addr _ = waiting

-- The server that `start` makes.
abbrev pub http_server :
    {P S : Type 0} → CloudEventsSdk P S → (Char → Char) → ReceiveAdapter → HttpServer P S
http_server sdk unicode_lower ra = record {
  read_timeout = 10;
  read_header_timeout = 2;
  addr = ":" ++ ra.port;
  handler = adapter_webhook sdk unicode_lower ra;
}

-- `start` when both goroutines are under way.
abbrev pub start :
    {P S : Type 0} → CloudEventsSdk P S → (Char → Char) → ReceiveAdapter → Process P S
start sdk unicode_lower ra = record {
  server = http_server sdk unicode_lower ra;
  stopped = false;
  keep_alives = true;
  starter = listening;
  closer = receiving;
}

module _ {P S : Type 0} (print : Err → String) where
  -- One step of one goroutine, or the end of the context.
  pub data Step (p : Process P S) : Event → Process P S → Type 0 where
    stops : p.stopped ≡ false → exited p.closer ≡ false → Step p stop (record p { stopped = true })
    receives :
        p.closer ≡ receiving
        → p.stopped ≡ true
        → Step p received (record p { keep_alives = false; closer = shutting_down })
    shuts :
        (e : Option Err)
        → p.closer ≡ shutting_down
        → Step p (shut e) (record p { closer = shutdown_returned e })
    listens :
        (l : Listened)
        → p.starter ≡ listening
        → exited p.closer ≡ false
        → Step p (listened l) (record p { starter = listen_returned print p.server.addr l })
    waits :
        p.starter ≡ waiting
        → p.closer ≡ finished
        → Step p waited (record p { starter = returned none })

  -- The steps from `p` on, the last one first.
  pub data Run (p : Process P S) : List Event → Process P S → Type 0 where
    here : Run p [] p
    later :
        {e : Event} {es : List Event} {q r : Process P S}
        → Run p es q
        → Step q e r
        → Run p (e ∷ es) r
