-- ===== src/Dispatch/Runs.antt =====
-- Sequences of calls on a generator dispatch ledger (skivolve/runner.py), whose appends may fail, and
-- the reopening of the journal.
use mathlib.Core.Path.{subst}
use skivolve.Base.{
  suc, ◌++◌, String, true, false, some, List, [], ◌∷◌, ◌≡◌, ◌⊎◌, refl, sym, ◌∙◌, inl, inr,
  string_eq, Result, Result-cases, ok, err, Bool-cases, if◌then◌else◌,
}
use skivolve.Base.Text.{is_hex}
use skivolve.Json.{Fields}
use skivolve.Dispatch.Types.{Codec, Accounts, planned, dispatched, completed, failed}
use skivolve.Dispatch.Replay.{digest_field}
use skivolve.Dispatch.Ledger.{
  State, Write, prefix_modified, drifted, attest, read, sync, plan_record, plan_checked,
  plan_attempt, transition, failure_known, mark_dispatched, mark_completed, mark_failed, audit,
  open_ledger, close,
}
use skivolve.Dispatch.Writes.{CodecLaws, Synced}
use skivolve.Dispatch.Sound.{Moved, Op, plan, dispatch, complete, fail, look, run_op, done}
use skivolve.Dispatch.Stopped.{Stopped, Settles, Recovers, RaisedWriting-weaken, sync-Stopped}
use skivolve.Dispatch.Phases.{IsLater, replay-grown}
use skivolve.Dispatch.Opening.{open_ledger-replayed, open_ledger-refused}
use skivolve.Dispatch.Methods.{
  PlanTaken, plan_attempt-Settles, mark_dispatched-Settles, mark_completed-Settles,
  mark_failed-Settles, audit_lem,
}

-- The id of a plan is the hexadecimal form of a UUID.
abbrev pub IsFormed : Op → Type 0
IsFormed (plan p) = is_hex 32 p.attempt_id ≡ true
IsFormed _ = Unit

-- Calls, each with the way the disk ends its append.
abbrev pub AllFormed : List (Op × Write) → Type 0
AllFormed [] = Unit
AllFormed ((op, _) ∷ calls) = IsFormed op × AllFormed calls

module _ (codec : Codec) (header : Fields) where
  -- The state after the calls, each of which may raise.
  unfoldable pub run : List (Op × Write) → State → State
  run [] s = s
  run ((op, write) ∷ calls) s =
      run calls (run_op codec header op (record s { next_write = write })).1

  sync_closed :
      (s : State)
      → s.lock_held ≡ false
      → sync codec header s ≡ (err "generator dispatch lifetime lock is closed", s)
  unfolding sync read attest
  sync_closed s closed = rw closed refl

  -- Where the synchronisation raises, every call raises and changes nothing.
  run_op_refuses :
      (op : Op) (s : State) (m : String)
      → sync codec header s ≡ (err m, s)
      → (e : String) × (run_op codec header op s ≡ (err e, s))
  unfolding run_op plan_attempt plan_checked mark_dispatched mark_completed mark_failed transition
      audit
  run_op_refuses (plan p) s m refuses = elim (Result-cases (plan_record codec header p)) [
    | inr (e, refused) ↦ (e, rw refused refl)
    | inl (arm, formed) ↦ (m, rw (formed, refuses) refl)
  ]
  run_op_refuses (dispatch i) s m refuses = (m, rw refuses refl)
  run_op_refuses (complete i result) s m refuses =
      elim (Result-cases (digest_field result "generator provider result digest is invalid")) [
        | inr (e, refused) ↦ (e, rw refused refl)
        | inl (d, formed) ↦ (m, rw (formed, refuses) refl)
      ]
  run_op_refuses (fail i observed category) s m refuses =
      elim (Result-cases (failure_known category)) [
        | inr (e, refused) ↦ (e, rw refused refl)
        | inl (u, known) ↦ (m, rw (known, refuses) refl)
      ]
  run_op_refuses look s m refuses = (m, rw refuses refl)

  -- A ledger whose lock has been released raises on every call and changes nothing.
  pub run_op_closed :
      (op : Op) (s : State)
      → s.lock_held ≡ false
      → (e : String) × (run_op codec header op s ≡ (err e, s))
  run_op_closed op s closed = run_op_refuses op s _ (sync_closed s closed)

  pub run_op_stopped :
      {Q : Accounts → Type 0} (op : Op) (s : State)
      → Stopped codec header Q s
      → (e : String) × (run_op codec header op s ≡ (err e, s))
  run_op_stopped op s h = elim (Bool-cases s.lock_held) [
    | inl held ↦
        let (m, refuses) = sync-Stopped codec header s h held in run_op_refuses op s m refuses
    | inr closed ↦ run_op_closed op s closed
  ]

  -- The memory agrees with the file, or the ledger has stopped.
  abbrev pub IsSound : State → Type 0
  IsSound s = Synced codec header s ⊎ Stopped codec header (λ _. Unit {0}) s

  -- What a call leaves behind.
  abbrev Kept : State → Result (Unit {0}) × State → Type 0
  Kept s r =
      IsSound r.1
      × (r.1.lock_held ≡ s.lock_held)
      × ((e : String) → r.0 ≡ err e → r.1.accounts ≡ s.accounts)

  Kept-of_settled :
      {A : Type 0} (Q : Accounts → Type 0) (s : State) (r : Result A × State)
      → Synced codec header s
      → Settles codec header s Q r
      → Kept s (done r)
  Kept-of_settled Q s (q, t) h (inl (e, raised)) = rw raised (inl h, refl, λ m same. refl)
  Kept-of_settled Q s (err m, t) h (inr (inl w)) = (
    inr (RaisedWriting-weaken codec header s _ w (λ _ _. tt)).stopped,
    w.lock_kept,
    λ e same. w.accounts_kept,
  )
  Kept-of_settled Q s (ok b, t) h (inr (inl w)) = absurd (cc w.raised)
  Kept-of_settled Q s (ok b, t) h (inr (inr (a, returned, synced, q, lock))) =
      (inl synced, lock, λ m same. cc)
  Kept-of_settled Q s (err m, t) h (inr (inr (a, returned, synced, q, lock))) = cc

  module _ (laws : CodecLaws codec) where
    open_call :
        (op : Op) (s : State)
        → IsFormed op
        → Synced codec header s
        → s.lock_held ≡ true
        → Kept s (run_op codec header op s)
    unfolding run_op
    open_call (plan p) s formed h held =
        Kept-of_settled (PlanTaken codec header laws s h held p) s _ h
          (plan_attempt-Settles codec header laws s h held p formed)
    open_call (dispatch i) s formed h held =
        Kept-of_settled (Moved codec header s i planned dispatched) s _ h
          (mark_dispatched-Settles codec header laws s h held i)
    open_call (complete i result) s formed h held =
        Kept-of_settled (Moved codec header s i dispatched completed) s _ h
          (mark_completed-Settles codec header laws s h held i result)
    open_call (fail i observed category) s formed h held =
        Kept-of_settled (Moved codec header s i (if observed then dispatched else planned) failed) s
          _ h (mark_failed-Settles codec header laws s h held i observed category)
    open_call look s formed h held =
        rw (audit_lem codec header laws s h held) (inl h, refl, λ m same. refl)

    -- One call, on a ledger that is open, closed or stopped.
    run_op-Kept :
        (op : Op) (s : State) → IsFormed op → IsSound s → Kept s (run_op codec header op s)
    run_op-Kept op s formed (inl h) = elim (Bool-cases s.lock_held) [
      | inl held ↦ open_call op s formed h held
      | inr closed ↦
          let (e, raised) = run_op_closed op s closed in
          subst (Kept s) (sym raised) (inl h, refl, λ m same. refl)
    ]
    run_op-Kept op s formed (inr h) =
        let (e, raised) = run_op_stopped op s h in
        subst (Kept s) (sym raised) (inr h, refl, λ m same. refl)

    with_write : (s : State) (write : Write) → IsSound s → IsSound (record s { next_write = write })
    unfolding prefix_modified drifted
    with_write s write (inl h) = inl (record {
      raw = h.raw;
      on_disk = h.on_disk;
      bounded = h.bounded;
      size = h.size;
      digest = h.digest;
      is_bound = h.is_bound;
      replayed = h.replayed;
    })
    with_write s write (inr h) = inr (record {
      before = h.before;
      left = h.left;
      count = h.count;
      on_disk = h.on_disk;
      bounded = h.bounded;
      is_bound = h.is_bound;
      replayed = h.replayed;
      disagrees = h.disagrees;
      recovers = h.recovers;
    })

    -- With a codec that keeps its laws, from a ledger whose memory agrees with its file or that has
    -- stopped, any calls whose plans have ids of 32 hexadecimal digits, each of which may raise, and
    -- whose appends may each end in any way (complete, refused, raised after any number of bytes, or
    -- raised after the last write), leave a ledger whose memory agrees with its file or that has
    -- stopped: the accounts in memory are then those of the file without the bytes of one append, and
    -- a replay of the whole file refuses it as torn or returns accounts with one record more.
    pub run-IsSound :
        (calls : List (Op × Write)) (s : State)
        → AllFormed calls
        → IsSound s
        → IsSound (run calls s)
    unfolding run
    run-IsSound [] s formed h = h
    run-IsSound ((op, write) ∷ calls) s formed h =
        let t = record s { next_write = write } in
        run-IsSound calls (run_op codec header op t).1 formed.1
          (run_op-Kept op t formed.0 (with_write s write h)).0

    run-lock_held :
        (calls : List (Op × Write)) (s : State)
        → AllFormed calls
        → IsSound s
        → (run calls s).lock_held ≡ s.lock_held
    unfolding run
    run-lock_held [] s formed h = refl
    run-lock_held ((op, write) ∷ calls) s formed h =
        let t = record s { next_write = write } in
        let kept = run_op-Kept op t formed.0 (with_write s write h) in
        run-lock_held calls (run_op codec header op t).1 formed.1 kept.0 ∙ kept.1

  -- What opening the file of a ledger, that another one may still hold, comes to.
  abbrev pub Reopens : State → Result (Unit {0}) × State → Type 0
  Reopens t (r, u) =
      (Synced codec header t
        × (r ≡ ok tt)
        × (u.accounts ≡ t.accounts)
        × (u.record_count ≡ t.record_count))
      ⊎ (Stopped codec header (λ _. Unit {0}) t
          × ((r ≡ err "generator dispatch journal has a torn record")
              ⊎ ((r ≡ ok tt) × IsLater t.accounts u.accounts)))

  reopen :
      (t : State) (write : Write)
      → IsSound t
      → Reopens t (open_ledger codec header false write t.journal)
  reopen t write (inl h) =
      subst (λ j. Reopens t (open_ledger codec header false write j)) (sym h.on_disk)
        (subst (Reopens t)
          (sym (
            open_ledger-replayed codec header write h.raw (t.accounts, t.record_count) h.bounded
              h.replayed))
          (inl (h, refl, refl, refl)))
  reopen t write (inr h) =
      subst (λ j. Reopens t (open_ledger codec header false write j)) (sym h.on_disk)
        (inr (h, recovered h.recovers))
    where
      recovered :
          Recovers codec header (λ _. Unit {0}) (h.before ++ h.left) h.count
          → let (r, u) = open_ledger codec header false write (some (h.before ++ h.left)) in
            (r ≡ err "generator dispatch journal has a torn record")
            ⊎ ((r ≡ ok tt) × IsLater t.accounts u.accounts)
      recovered (inl torn) =
          inl (open_ledger-refused codec header write (h.before ++ h.left) _ h.bounded torn)
      recovered (inr (next, q, replayed)) =
          rw
            (open_ledger-replayed codec header write (h.before ++ h.left) (next, suc h.count)
              h.bounded replayed)
            (inr (
              refl,
              replay-grown codec header h.before h.left t.accounts next h.count (suc h.count)
                  h.replayed replayed,
            ))

  -- With a codec that keeps its laws, after any calls on a ledger that holds its lock and whose memory
  -- agrees with its file or that has stopped, whose plans have ids of 32 hexadecimal digits, and whose
  -- appends may each end in any way: opening the file again raises while the ledger holds its lock.
  -- Once the ledger has been closed it holds its lock no more, and opening the file again either
  -- succeeds and restores the accounts and the record count that the ledger held, when its memory
  -- agreed with the file, or, when an append had raised after it put bytes into the file, raises
  -- because the last record is torn, or succeeds and returns every attempt that the ledger held, in
  -- its phase or one that follows.
  pub reopen-run :
      CodecLaws codec
      → (calls : List (Op × Write)) (s : State) (write : Write) → AllFormed calls
      → IsSound s
      → s.lock_held ≡ true
      → let t = run calls s in
        let u = (close codec header t).1 in
        ((open_ledger codec header t.lock_held write t.journal).0
          ≡ err "generator dispatch ledger is already active")
        × (u.lock_held ≡ false)
        × Reopens t (open_ledger codec header u.lock_held write u.journal)
  unfolding close open_ledger
  reopen-run laws calls s write formed h held = (
    rw (run-lock_held laws calls s formed h, held) refl,
    refl,
    reopen (run calls s) write (run-IsSound laws calls s formed h),
  )
