-- ===== src/Runtime/Reconcile/Finishing.antt =====
-- The end of a run: the status written back, and what the run returns.
use mathlib.Core.Path.{subst}
use eventing_gitlab.Base.{
  ◌≡◌, refl, sym, ◌⊎◌, inl, inr, Option, none, some, List, [], ◌∷◌, true, false, arith, Bool-cases,
  if◌then◌else◌,
}
use eventing_gitlab.Errors.{
  warning, Err, errorf, wrap, event, response, foreign, is_event, Result, ok, err, panic, fail,
  pure, ◌>>◌,
}
use eventing_gitlab.Errors.Ending.{Ending-bind, Ending-attempt}
use eventing_gitlab.Source.Types.{GitLabSource, GitLabSourceStatus}
use eventing_gitlab.Reconciler.Cluster.{World, Recorded, Doing, get_source, eventf}
use eventing_gitlab.Runtime.Impl.{ReconcilerImpl, Library}
use eventing_gitlab.Runtime.State.{State}
use eventing_gitlab.Runtime.StatusUpdate.{update_status}
use eventing_gitlab.Runtime.StatusUpdate.Retrying.{Retries}
use eventing_gitlab.Runtime.StatusUpdate.Stored.{
  named, Store, Holds, Written, update_status-Written,
}
use eventing_gitlab.Runtime.Reconcile.{
  event_as, finish, synchronize_status, synchronize_resource, status_written, report, report_error,
}

-- What a run returns for what the method has returned: a bare event is no error.
abbrev pub returned : Option Err → Result (Unit {0})
returned none = ok tt
returned (some e) = if is_event e then ok tt else err e

-- The event that a failed update of the status records.
abbrev pub update_failed : Err → Recorded
update_failed e = record {
  severity = warning;
  reason = "UpdateFailed";
  format = "Failed to update status for %q: %v";
  args = e ∷ [];
}

module _ {C W : Type 0} (lib : Library C W) (r : ReconcilerImpl C W) where
  -- The method's outcome is returned, with nothing changed but the recorded events.
  abbrev Reports : Option Err → World C W → Result (Unit {0}) × World C W → Type 0
  Reports e w x = (events : List Recorded) × (x ≡ (returned e, record w { recorded = events }))

  report_error-Reports :
      (e : Err) (w : World C W) → is_event e ≡ false → Reports (some e) w (report_error lib r e w)
  unfolding report_error
  report_error-Reports e w bare = elim (Bool-cases (lib.is_skip_key e)) [
    | inl skip ↦ (w.recorded, ground arith)
    | inr other ↦ elim (Bool-cases (lib.is_requeue_key e)) [
      | inl requeue ↦ (w.recorded, ground arith)
      | inr other' ↦ elim (Bool-cases (r.client.is_conflict e)) [
        | inl conflict ↦ (w.recorded, ground arith)
        | inr failure ↦ (
          record { severity = warning; reason = "InternalError"; format = "%s"; args = e ∷ [] }
              ∷ w.recorded,
          ground arith,
        )
      ]
    ]
  ]

  by_event :
      (e : Err) (o : Option Recorded) (w : World C W)
      → is_event e ≡ false
      → Reports (some e) w (
          (elim o as (λ x. Doing C W (Unit {0})) [
            | none ↦ report_error lib r e
            | some found ↦
                eventf found.severity found.reason found.format found.args
                >> (if is_event e then pure tt else fail e)
          ])
            w)
  by_event e none w bare = report_error-Reports e w bare
  by_event e (some found) w bare = (found ∷ w.recorded, ground arith)

  report-Reports : (e : Option Err) (w : World C W) → Reports e w (report lib r e w)
  unfolding report event_as is_event
  report-Reports none w = (w.recorded, refl)
  report-Reports (some (errorf f a)) w = report_error-Reports (errorf f a) w refl
  report-Reports (some (wrap f a e)) w = by_event (wrap f a e) (event_as e) w refl
  report-Reports (some (event s reason f e)) w = (_, refl)
  report-Reports (some (response c)) w = report_error-Reports (response c) w refl
  report-Reports (some (foreign n)) w = report_error-Reports (foreign n) w refl

  module _ (store : Store r)
      (deep_equal-refl : (s : GitLabSourceStatus C) → lib.deep_equal s s ≡ true)
      (again : Retries lib r) where
    -- The status in hand needs no update, or the API holds one that equals it.
    abbrev pub Synced : (original resource : GitLabSource C) → World C W → Type 0
    Synced original resource w =
        (lib.deep_equal original.status resource.status ≡ true)
        ⊎ Holds lib r store (named resource) resource.status w.environment

    abbrev Synchronized :
        (original resource : GitLabSource C) → Result (Unit {0}) × World C W → Type 0
    Synchronized original resource (ok u, w) = Synced original resource w
    Synchronized original resource (err e, w) =
        (earlier : List Recorded) × (w.recorded ≡ update_failed e ∷ earlier)
    Synchronized original resource (panic, w) = Unit

    synchronize_status-Synchronized :
        (s : State) (original : GitLabSource C) (w : World C W)
        → r.skip_status_updates ≡ false
        → s.is_leader ≡ true
        → named original ≡ named w.source
        → Synchronized original w.source (synchronize_status lib r s original w)
    unfolding synchronize_status synchronize_resource get_source status_written
    synchronize_status-Synchronized s original w all leads same =
        elim (Bool-cases (lib.deep_equal original.status w.source.status)) [
          | inl equal ↦ rw (all, equal) (inl equal)
          | inr differs ↦
              rw (all, differs, leads)
                (Ending-attempt (Synchronized original w.source)
                  (update_status lib r original w.source) (status_written lib r) w
                  (λ u w' h. inr (
                    subst (Written lib r store (named w.source) w.source) h (
                      update_status-Written lib r store deep_equal-refl w.source again original w
                        same differs)))
                  (λ e w' h. (w'.recorded, refl)) (λ w'. tt))
        ]

    -- How a run ends whose method has returned `e` and left `resource`: without a failure of the
    -- update, the status is synchronized and what the method returned is returned; a failure is
    -- returned with its event as the last one recorded.
    abbrev pub Finished :
        (original resource : GitLabSource C) → Option Err → Result (Unit {0}) × World C W → Type 0
    Finished original resource e (ok u, w) = (returned e ≡ ok tt) × Synced original resource w
    Finished original resource e (err x, w) =
        ((returned e ≡ err x) × Synced original resource w)
        ⊎ ((earlier : List Recorded) × (w.recorded ≡ update_failed x ∷ earlier))
    Finished original resource e (panic, w) = Unit

    Reports-Finished :
        (original resource : GitLabSource C) (e : Option Err) (w : World C W)
        (res : Result (Unit {0})) (events : List Recorded)
        → returned e ≡ res
        → Synced original resource w
        → Finished original resource e (res, record w { recorded = events })
    Reports-Finished original resource e w (ok u) events h synced = (h, synced)
    Reports-Finished original resource e w (err x) events h synced = inl (h, synced)
    Reports-Finished original resource e w panic events h synced = tt

    pub finish-Finished :
        (s : State) (original : GitLabSource C) (e : Option Err) (w : World C W)
        → r.skip_status_updates ≡ false
        → s.is_leader ≡ true
        → named original ≡ named w.source
        → Finished original w.source e (finish lib r s original e w)
    unfolding finish
    finish-Finished s original e w all leads same =
        let synchronized = synchronize_status-Synchronized s original w all leads same in
        Ending-bind (Finished original w.source e) (synchronize_status lib r s original)
          (λ u. report lib r e) w
          (λ u w' h.
            let (events, reported) = report-Reports e w' in
            subst (Finished original w.source e) (sym reported) (
              Reports-Finished original w.source e w' (returned e) events refl
                (subst (Synchronized original w.source) h synchronized)))
          (λ x w' h. inr (subst (Synchronized original w.source) h synchronized)) (λ w'. tt)
