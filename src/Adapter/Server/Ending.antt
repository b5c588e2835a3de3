-- ===== src/Adapter/Server/Ending.antt =====
-- How the runs of the server from `start` on end.
use Prim.Native.Char.{Char}
use eventing_gitlab.Base.{
  ℕ, ◌≡◌, refl, ap, ◌⊎◌, inl, inr, suc, ◌+◌, ◌≤◌, List, [], ◌∷◌, String, Option, none, some, Bool,
  true, false, arith, length,
}
use eventing_gitlab.Errors.{Err}
use eventing_gitlab.Adapter.Events.{CloudEventsSdk, ReceiveAdapter}
use eventing_gitlab.Adapter.Server.{
  Event, stop, received, waited, listened, shut, Listened, quit, server_closed, refused, Starter,
  listening, waiting, returned, Closer, receiving, shutting_down, finished, fatal, Process, exited,
  shutdown_returned, listen_returned, http_server, start, Step, stops, receives, shuts, listens,
  waits, Run, here, later,
}
use eventing_gitlab.Adapter.Server.Log.{Logged, Step-Logged, start-Logged_nil}

-- How many steps the goroutines can still take, from where they are.
pub to_start : Starter → ℕ
to_start listening = 2
to_start waiting = 1
to_start (returned e) = 0

pub to_close : Closer → ℕ
to_close receiving = 2
to_close shutting_down = 1
to_close finished = 0
to_close (fatal e) = 0

pub to_stop : Bool → ℕ
to_stop false = 1
to_stop true = 0

listen_returned-to_start :
    (print : Err → String) (addr : String) (l : Listened)
    → to_start (listen_returned print addr l) ≤ 1
unfolding listen_returned to_start
listen_returned-to_start print addr quit = omega arith
listen_returned-to_start print addr server_closed = omega arith
listen_returned-to_start print addr (refused e) = omega arith

shutdown_returned-to_close : (e : Option Err) → to_close (shutdown_returned e) ≡ 0
unfolding shutdown_returned to_close
shutdown_returned-to_close none = refl
shutdown_returned-to_close (some e) = refl

module _ {P S : Type 0} where
  -- An upper bound of the steps that a process can take.
  pub to_go : Process P S → ℕ
  to_go p = to_stop p.stopped + to_close p.closer + to_start p.starter

  module _ (print : Err → String) where
    Step-to_go : (p q : Process P S) (e : Event) → Step print p e q → suc (to_go q) ≤ to_go p
    unfolding to_go to_stop to_close to_start
    Step-to_go p q e (stops fresh alive) = let before = ap to_stop fresh in omega arith
    Step-to_go p q e (receives at_stop now) = let before = ap to_close at_stop in omega arith
    Step-to_go p q e (shuts r begun) =
        let before = ap to_close begun in let after = shutdown_returned-to_close r in omega arith
    Step-to_go p q e (listens l serving alive) =
        let before = ap to_start serving in
        let after = listen_returned-to_start print p.server.addr l in omega arith
    Step-to_go p q e (waits quitted down) = let before = ap to_start quitted in omega arith

    Run-to_go :
        (p q : Process P S) (es : List Event) → Run print p es q → length es + to_go q ≤ to_go p
    Run-to_go p q es here = omega arith
    Run-to_go p q (e ∷ es) (later {q = m} run step) =
        let before = Run-to_go p m es run in let less = Step-to_go m q e step in omega arith

    -- The process is over: `start` has returned or the program has exited.
    pub data IsOver (p : Process P S) : Type 0 where
      start_returned : (e : Option Err) → p.starter ≡ returned e → IsOver p
      program_exited : exited p.closer ≡ true → IsOver p

    -- Some step can be taken.
    pub CanStep : Process P S → Type 0
    CanStep p = (e : Event) × (q : Process P S) × Step print p e q

    Run-Logged :
        (p q : Process P S) (es : List Event)
        → Run print p es q
        → Logged print [] p
        → Logged print es q
    Run-Logged p q es here h = h
    Run-Logged p q (e ∷ es) (later {q = m} run step) h =
        Step-Logged print m e q es (Run-Logged p m es run h) step

    Run-server : (p q : Process P S) (es : List Event) → Run print p es q → q.server ≡ p.server
    Run-server p q es here = refl
    Run-server p q (e ∷ es) (later run (stops _ _)) = Run-server p _ es run
    Run-server p q (e ∷ es) (later run (receives _ _)) = Run-server p _ es run
    Run-server p q (e ∷ es) (later run (shuts _ _)) = Run-server p _ es run
    Run-server p q (e ∷ es) (later run (listens _ _ _)) = Run-server p _ es run
    Run-server p q (e ∷ es) (later run (waits _ _)) = Run-server p _ es run

    -- The cases of where the two goroutines are.
    steps_from :
        (p : Process P S) (b : Bool) (s : Starter) (c : Closer)
        → p.stopped ≡ b
        → p.starter ≡ s
        → p.closer ≡ c
        → IsOver p ⊎ CanStep p
    unfolding CanStep exited
    steps_from p b s (fatal e) hb hs hc = inl (program_exited (rw (hc) refl))
    steps_from p b (returned e) c hb hs hc = inl (start_returned e hs)
    steps_from p b waiting finished hb hs hc = inr (waited, _, waits hs hc)
    steps_from p b s shutting_down hb hs hc = inr (shut none, _, shuts none hc)
    steps_from p true s receiving hb hs hc = inr (received, _, receives hc hb)
    steps_from p false s receiving hb hs hc = inr (stop, _, stops hb (rw (hc) refl))
    steps_from p b listening finished hb hs hc =
        inr (listened quit, _, listens quit hs (rw (hc) refl))

    pub steps : (p : Process P S) → IsOver p ⊎ CanStep p
    steps p = steps_from p p.stopped p.starter p.closer refl refl refl

module _ {P S : Type 0} (sdk : CloudEventsSdk P S) (unicode_lower : Char → Char)
    (ra : ReceiveAdapter) (print : Err → String) where
  -- From `start` on: when `start` has returned nil, the context had ended, `gracefulShutdown` had
  -- called `Shutdown` behind that, `Shutdown` had returned nil and `ListenAndServe` nil or
  -- `http.ErrServerClosed` before `wg.Wait` returned; when `start` has returned an error, it reports
  -- the address of the port and another error of `ListenAndServe`; when the program has exited,
  -- `Shutdown` had returned an error behind the end of the context.
  pub start-Logged :
      (es : List Event) (q : Process P S)
      → Run print (start sdk unicode_lower ra) es q
      → (q.server ≡ http_server sdk unicode_lower ra) × Logged print es q
  start-Logged es q run = (
    Run-server print (start sdk unicode_lower ra) q es run,
    Run-Logged print (start sdk unicode_lower ra) q es run
        (start-Logged_nil sdk unicode_lower ra print),
  )

  -- From `start` on there are at most five steps, and when no further step can be taken, `start`
  -- has returned or the program has exited.
  pub start-Ends :
      (es : List Event) (q : Process P S)
      → Run print (start sdk unicode_lower ra) es q
      → (length es ≤ 5) × (IsOver print q ⊎ CanStep print q)
  unfolding to_go to_stop to_close to_start
  start-Ends es q run =
      let bound = Run-to_go print (start sdk unicode_lower ra) q es run in
      (omega arith, steps print q)
