-- ===== src/Runtime/StatusUpdate/Writing.antt =====
-- The attempts of `updateStatus` are those of the relation of Attempts.
use mathlib.Core.Path.{subst}
use eventing_gitlab.Base.{
  ℕ, zero, suc, ◌≡◌, refl, sym, ap, ◌∙◌, ◌⊎◌, inl, inr, Bool, true, false, Bool-cases,
  if◌then◌else◌, arith,
}
use eventing_gitlab.Errors.{Err, Result, ok, err, panic, pure, ◌>>=◌}
use eventing_gitlab.Source.Types.{GitLabSource}
use eventing_gitlab.Reconciler.Cluster.{World, calling, Doing}
use eventing_gitlab.Runtime.Impl.{ReconcilerImpl, Library}
use eventing_gitlab.Runtime.StatusUpdate.{write_status, attempt_update, update_status}
use eventing_gitlab.Runtime.StatusUpdate.Retrying.{
  attempts_from, attempts_from-ok, attempts_from-failed, attempts_from-panic,
  attempts_from-conflict, Retries,
}
use eventing_gitlab.Runtime.StatusUpdate.Attempts.{
  with_status, IsLast, Writes, unchanged, accepted, refused, crashed, conflicted, Asks, found,
  not_found, asking_crashed, asked_again,
}

module _ {C W : Type 0} (lib : Library C W) (r : ReconcilerImpl C W)
    (desired : GitLabSource C) where
  open r use {client}

  module _ (first : GitLabSource C) where
    -- The attempts of `updateStatus`.
    abbrev tries : ℕ → Doing C W (Unit {0})
    tries = attempt_update lib r first desired

    abbrev from : (made more : ℕ) → Doing C W (Unit {0})
    from made more = attempts_from client.is_conflict tries made more

    -- The end behind an error of an attempt: it is the last one, or the others follow.
    from-err :
        (made more : ℕ) (w w' : World C W) (x : Err)
        → tries made w ≡ (err x, w')
        → (IsLast lib r desired more x × (from made more w ≡ (err x, w')))
          ⊎ ((less : ℕ) × (more ≡ suc less)
              × (client.is_conflict x ≡ true)
              × (from made more w ≡ from (suc made) less w'))
    from-err made zero w w' x h = inl (inr refl, h)
    from-err made (suc more) w w' x h = elim (Bool-cases (client.is_conflict x)) [
      | inl conflict ↦ inr (
        more,
        refl,
        conflict,
        attempts_from-conflict client.is_conflict tries made more h conflict,
      )
      | inr other ↦
          inl (inl other, attempts_from-failed client.is_conflict tries made (suc more) h other)
    ]

    -- What `write_status` comes to, by its test and by the answer of the API.
    answered : Result (GitLabSource C) × W → World C W → Result (Unit {0}) × World C W
    answered t w = (calling (λ _. t) >>= λ updated. pure tt) w

    by_equality : GitLabSource C → World C W → Bool → Result (Unit {0}) × World C W
    unfolding answered
    by_equality existing w same =
        if same
        then (ok tt, w)
        else answered
            (client.update_status existing.metadata.namespace (with_status lib r desired existing)
              w.environment)
            w

    write_status-by_equality :
        (existing : GitLabSource C) (w : World C W)
        → write_status lib r desired existing w
          ≡ by_equality existing w (lib.deep_equal existing.status desired.status)
    unfolding write_status by_equality answered
    write_status-by_equality existing w = by_test (lib.deep_equal existing.status desired.status)
      where
        by_test :
            (b : Bool)
            → (if b
                  then pure tt
                  else (calling (
                        client.update_status existing.metadata.namespace
                          (with_status lib r desired existing))
                      >>= λ updated. pure tt))
                w
              ≡ by_equality existing w b
        by_test true = refl
        by_test false = refl

    -- What the attempts with `more` others left come to.
    WritesAll : ℕ → Type 0
    WritesAll more =
        (made : ℕ) (existing : GitLabSource C) (v w : World C W)
        → tries made v ≡ write_status lib r desired existing w
        → Writes lib r desired more existing w (from made more v)

    AsksAll : ℕ → Type 0
    AsksAll more = (made : ℕ) (v : World C W) → Asks lib r desired more v (from (suc made) more v)

    Later : ℕ → Type 0
    unfolding AsksAll
    Later more = (less : ℕ) → more ≡ suc less → AsksAll less

    writes : (more : ℕ) → Later more → WritesAll more
    unfolding WritesAll AsksAll Later by_equality answered
    writes more later made existing v w same =
        by_test (lib.deep_equal existing.status desired.status) refl
      where
        Goal : Type 0
        Goal = Writes lib r desired more existing w (from made more v)

        by_answer :
            (t : Result (GitLabSource C) × W)
            → lib.deep_equal existing.status desired.status ≡ false
            → client.update_status existing.metadata.namespace
                (with_status lib r desired existing)
                w.environment
              ≡ t
            → tries made v ≡ answered t w
            → Goal
        by_answer (ok updated, e) differs h eq =
            subst (Writes lib r desired more existing w)
              (sym (attempts_from-ok client.is_conflict tries made more eq))
              (accepted updated e differs h)
        by_answer (panic, e) differs h eq =
            subst (Writes lib r desired more existing w)
              (sym (attempts_from-panic client.is_conflict tries made more eq))
              (crashed e differs h)
        by_answer (err x, e) differs h eq =
            let w' : World C W = record w { environment = e } in
            elim (from-err made more v w' x eq) [
              | inl (last, ended) ↦
                  subst (Writes lib r desired more existing w) (sym ended)
                    (refused x e differs h last)
              | inr (less, one_more, conflict, goes_on) ↦
                  subst (λ k. Writes lib r desired k existing w (from made more v)) (sym one_more)
                    (subst (Writes lib r desired (suc less) existing w) (sym goes_on)
                      (conflicted x e differs h conflict (later less one_more made w')))
            ]

        by_test : (b : Bool) → lib.deep_equal existing.status desired.status ≡ b → Goal
        by_test true h =
            subst (Writes lib r desired more existing w)
              (sym (
                attempts_from-ok client.is_conflict tries made more
                  (same ∙ write_status-by_equality existing w ∙ ap (by_equality existing w) h)))
              (unchanged h)
        by_test false h =
            by_answer
              (client.update_status existing.metadata.namespace (with_status lib r desired existing)
                w.environment)
              h refl (same ∙ write_status-by_equality existing w ∙ ap (by_equality existing w) h)

    asks : (more : ℕ) → Later more → WritesAll more → AsksAll more
    unfolding WritesAll AsksAll Later attempt_update
    asks more later written made v =
        by_answer (client.get desired.metadata.namespace desired.metadata.name v.environment) refl
          refl
      where
        by_answer :
            (t : Result (GitLabSource C) × W)
            → client.get desired.metadata.namespace desired.metadata.name v.environment ≡ t
            → tries (suc made) v ≡ (calling (λ _. t) >>= write_status lib r desired) v
            → Asks lib r desired more v (from (suc made) more v)
        by_answer (ok latest, e) h eq =
            found latest e h (written (suc made) latest v (record v { environment = e }) eq)
        by_answer (panic, e) h eq =
            subst (Asks lib r desired more v)
              (sym (attempts_from-panic client.is_conflict tries (suc made) more eq))
              (asking_crashed e h)
        by_answer (err x, e) h eq =
            let v' : World C W = record v { environment = e } in
            elim (from-err (suc made) more v v' x eq) [
              | inl (last, ended) ↦
                  subst (Asks lib r desired more v) (sym ended) (not_found x e h last)
              | inr (less, one_more, conflict, goes_on) ↦
                  subst (λ k. Asks lib r desired k v (from (suc made) more v)) (sym one_more)
                    (subst (Asks lib r desired (suc less) v) (sym goes_on)
                      (asked_again x e h conflict (later less one_more (suc made) v')))
            ]

    first_of : Later zero
    unfolding Later
    first_of less h = absurd (omega arith)

    next_of : (n : ℕ) → AsksAll n → Later (suc n)
    unfolding Later
    next_of n asked less h = subst AsksAll (omega arith) asked

    asks_all : (more : ℕ) → AsksAll more
    asks_all zero = asks zero first_of (writes zero first_of)
    asks_all (suc n) =
        let later = next_of n (asks_all n) in asks (suc n) later (writes (suc n) later)

    writes_all : (more : ℕ) → WritesAll more
    writes_all zero = writes zero first_of
    writes_all (suc n) = writes (suc n) (next_of n (asks_all n))

  -- `updateStatus` writes the desired status onto the version in hand, unless that has it already. After
  -- a conflict it asks the API for the version that it holds and writes the status onto that one, and so
  -- on, no more often than `RetryUpdateConflicts` retries; it asks again after a conflict of the query
  -- itself. It returns no error where a write is accepted or not needed, and otherwise the first error
  -- that is no conflict or that no retry is left for.
  pub update_status-Writes :
      (again : Retries lib r) (existing : GitLabSource C) (w : World C W)
      → Writes lib r desired again.retries existing w (update_status lib r existing desired w)
  unfolding update_status attempt_update WritesAll
  update_status-Writes again existing w =
      subst (Writes lib r desired again.retries existing w)
        (sym (again.retrying (attempt_update lib r existing desired) w))
        (writes_all existing again.retries 0 existing w w refl)
