-- ===== src/Dispatch/Witnesses.antt =====
-- The theorems on the generator dispatch ledger (skivolve/runner.py) at concrete journals and calls.
use skivolve.Base.{
  ℕ, ◌+◌, nat_eq, string_eq, String, Bool, true, false, Option, none, some, List, [], ◌∷◌, ◌++◌,
  ◌≡◌, refl, ◌⊎◌, inl, length, Result, ok, err, ltb, contains, if◌then◌else◌, Ensures, traverse,
  subset,
}
use skivolve.Base.Dict.{lookup, member, insert}
use skivolve.Base.Text.{is_hex, codes, is_digit, is_hex_digit}
use skivolve.Json.{str, same, get, get_or_null, has_exactly, names, to_units}
use skivolve.Dispatch.Types.{planned, dispatched, completed, failed, Attempt, Accounts}
use skivolve.Dispatch.Replay.{
  max_bytes, newline, no_accounts, replay, add_attempt, store_phase, after_header, replay_record,
  replay_records, replay_planned, planned_arm, event_phases, move, ends_with_newline, split_lines,
  drop_last, read_line, attempt_id_of, is_text, repetition_of, add_byte, digest_field, record_bytes,
}
use skivolve.Dispatch.Journal.{IsKeyed}
use skivolve.Dispatch.Ledger.{
  Write, close, Audit, interrupted, State, PlanRequest, plan_attempt, mark_dispatched,
  mark_completed, mark_failed, audit, open_ledger,
}
use skivolve.Dispatch.Writes.{Synced}
use skivolve.Dispatch.Sound.{Op, plan, dispatch, look, run_op, Moved}
use skivolve.Dispatch.Stopped.{Settles, Stopped}
use skivolve.Dispatch.Report.{IsReport, audit-IsReport}
use skivolve.Dispatch.Methods.{
  PlanTaken, plan_attempt-Settles, mark_dispatched-Settles, mark_completed-Settles,
  mark_failed-Settles,
}
use skivolve.Dispatch.Opening.{open_ledger-Synced, open_ledger-replayed}
use skivolve.Dispatch.Runs.{run, run_op_closed, IsSound, run-IsSound, Reopens, reopen-run}
use skivolve.Dispatch.Arms.{logical_arm_once, IsLinked, IsNamed, replay-IsMatched}
use skivolve.Dispatch.Phases.{IsLater, replay-grown}
use skivolve.Dispatch.Faults.{replay_torn}
use skivolve.Dispatch.Tests.{id0, digest0, arm0, header0, codec0, laws0, id0-IsHex}

abbrev opened : State
opened = record {
  accounts = no_accounts;
  record_count = 1;
  journal_size = 2;
  journal_sha256 = digest0;
  bound = true;
  lock_held = true;
  journal = some (1 ∷ 10 ∷ []);
  next_write = Write.complete;
}

abbrev closed : State
closed = record opened { lock_held = false }

abbrev one_planned : Accounts
one_planned = add_attempt id0 arm0 digest0 no_accounts

abbrev attempt0 : Attempt
attempt0 = record { key = arm0; request = digest0; phase = planned }

abbrev one_dispatched : Accounts
one_dispatched = store_phase id0 attempt0 dispatched one_planned

abbrev request0 : PlanRequest
request0 = record {
  attempt_id = id0;
  comparison_id = "skill-vs-none";
  case_id = "case-1";
  repetition = skivolve.Json.int (skivolve.Base.Int.pos 1);
  role = "control";
  variant_id = "without";
  request_sha256 = str digest0;
}

-- The second append raises when all of its line is in the file.
abbrev calls : List (Op × Write)
calls =
    (plan request0, Write.complete) ∷ (dispatch id0, interrupted 9) ∷ (look, Write.complete) ∷ []

header_replays : replay codec0 header0 (1 ∷ 10 ∷ []) ≡ ok (no_accounts, 1)
unfolding replay ends_with_newline traverse split_lines drop_last read_line same replay_records
header_replays = refl

plan_replays : replay codec0 header0 (1 ∷ 10 ∷ 2 ∷ 10 ∷ []) ≡ ok (one_planned, 2)
unfolding replay ends_with_newline traverse split_lines drop_last read_line same replay_records
    replay_record attempt_id_of get_or_null is_hex is_text replay_planned has_exactly member
    planned_arm repetition_of insert lookup contains subset codes is_digit is_hex_digit add_byte
    after_header digest_field record_bytes get names to_units
plan_replays = refl

dispatch_replays : replay codec0 header0 (1 ∷ 10 ∷ 2 ∷ 10 ∷ 3 ∷ 10 ∷ []) ≡ ok (one_dispatched, 3)
unfolding replay ends_with_newline traverse split_lines drop_last read_line same replay_records
    replay_record attempt_id_of get_or_null is_hex is_text replay_planned has_exactly member
    planned_arm repetition_of insert lookup contains subset codes is_digit is_hex_digit add_byte
    after_header digest_field record_bytes get names to_units event_phases move
dispatch_replays = refl

opened-Synced : Synced codec0 header0 opened
unfolding length
opened-Synced = record {
  raw = 1 ∷ 10 ∷ [];
  on_disk = refl;
  bounded = refl;
  size = refl;
  digest = refl;
  is_bound = refl;
  replayed = header_replays;
}

plan_attempt_example :
    Settles codec0 header0 opened
      (PlanTaken codec0 header0 laws0 opened opened-Synced refl request0)
      (plan_attempt codec0 header0 request0 opened)
plan_attempt_example =
    plan_attempt-Settles codec0 header0 laws0 opened opened-Synced refl request0 id0-IsHex

abbrev after_plan : State
after_plan = record opened {
  accounts = one_planned;
  record_count = 2;
  journal_size = 4;
  journal = some (1 ∷ 10 ∷ 2 ∷ 10 ∷ []);
}

after_plan-Synced : Synced codec0 header0 after_plan
unfolding length
after_plan-Synced = record {
  raw = 1 ∷ 10 ∷ 2 ∷ 10 ∷ [];
  on_disk = refl;
  bounded = refl;
  size = refl;
  digest = refl;
  is_bound = refl;
  replayed = plan_replays;
}

abbrev after_dispatch : State
after_dispatch = record opened {
  accounts = one_dispatched;
  record_count = 3;
  journal_size = 6;
  journal = some (1 ∷ 10 ∷ 2 ∷ 10 ∷ 3 ∷ 10 ∷ []);
}

after_dispatch-Synced : Synced codec0 header0 after_dispatch
unfolding length
after_dispatch-Synced = record {
  raw = 1 ∷ 10 ∷ 2 ∷ 10 ∷ 3 ∷ 10 ∷ [];
  on_disk = refl;
  bounded = refl;
  size = refl;
  digest = refl;
  is_bound = refl;
  replayed = dispatch_replays;
}

mark_dispatched_example :
    Settles codec0 header0 after_plan
      (Moved codec0 header0 after_plan id0 planned dispatched)
      (mark_dispatched codec0 header0 id0 after_plan)
mark_dispatched_example =
    mark_dispatched-Settles codec0 header0 laws0 after_plan after_plan-Synced refl id0

mark_completed_example :
    Settles codec0 header0 after_dispatch
      (Moved codec0 header0 after_dispatch id0 dispatched completed)
      (mark_completed codec0 header0 id0 (str digest0) after_dispatch)
mark_completed_example =
    mark_completed-Settles codec0 header0 laws0 after_dispatch after_dispatch-Synced refl id0
      (str digest0)

mark_failed_example :
    Settles codec0 header0 after_plan
      (Moved codec0 header0 after_plan id0 planned failed)
      (mark_failed codec0 header0 id0 false "provider" after_plan)
mark_failed_example =
    mark_failed-Settles codec0 header0 laws0 after_plan after_plan-Synced refl id0 false "provider"

audit_example :
    (a : Audit) × (audit codec0 header0 after_plan ≡ (ok a, after_plan))
    × IsReport codec0 header0 after_plan after_plan-Synced a
audit_example = audit-IsReport codec0 header0 laws0 after_plan after_plan-Synced refl

run_op_closed_example :
    (e : String) × (run_op codec0 header0 (dispatch id0) closed ≡ (err e, closed))
run_op_closed_example = run_op_closed codec0 header0 (dispatch id0) closed refl

run_example : IsSound codec0 header0 (run codec0 header0 calls opened)
run_example =
    run-IsSound codec0 header0 laws0 calls opened (id0-IsHex, (tt, (tt, tt))) (inl opened-Synced)

reopen_example :
    let t = run codec0 header0 calls opened in
    let u = (close codec0 header0 t).1 in
    ((open_ledger codec0 header0 t.lock_held Write.complete t.journal).0
      ≡ err "generator dispatch ledger is already active")
    × (u.lock_held ≡ false)
    × Reopens codec0 header0 t (open_ledger codec0 header0 u.lock_held Write.complete u.journal)
reopen_example =
    reopen-run codec0 header0 laws0 calls opened Write.complete (id0-IsHex, (tt, (tt, tt)))
      (inl opened-Synced) refl

-- The dispatched record is in the file, and the ledger has not moved the attempt.
abbrev stopped : State
stopped = record after_plan { journal = some (1 ∷ 10 ∷ 2 ∷ 10 ∷ 3 ∷ 10 ∷ []) }

replay-IsMatched_example : IsKeyed one_planned × IsLinked one_planned × IsNamed one_planned
replay-IsMatched_example =
    replay-IsMatched codec0 header0 (1 ∷ 10 ∷ 2 ∷ 10 ∷ []) one_planned 2 plan_replays

one_attempt : lookup id0 one_planned.attempts ≡ some attempt0
unfolding lookup insert
one_attempt = refl

logical_arm_once_example : id0 ≡ id0
logical_arm_once_example =
    logical_arm_once codec0 header0 (1 ∷ 10 ∷ 2 ∷ 10 ∷ []) one_planned 2 id0 id0 attempt0 attempt0
      plan_replays one_attempt one_attempt refl

replay-grown_example : IsLater one_planned one_dispatched
replay-grown_example =
    replay-grown codec0 header0 (1 ∷ 10 ∷ 2 ∷ 10 ∷ []) (3 ∷ 10 ∷ []) one_planned one_dispatched 2 3
      plan_replays dispatch_replays

no_newline : contains newline (2 ∷ []) ≡ false
unfolding contains
no_newline = refl

replay_torn_example :
    replay codec0 header0 (1 ∷ 10 ∷ 2 ∷ []) ≡ err "generator dispatch journal has a torn record"
replay_torn_example = replay_torn codec0 header0 (1 ∷ 10 ∷ []) 2 [] no_newline

opened-is_small : ltb max_bytes (length {A = ℕ} (1 ∷ 10 ∷ [])) ≡ false
unfolding length
opened-is_small = refl

opened_again :
    open_ledger codec0 header0 false Write.complete (some (1 ∷ 10 ∷ [])) ≡ (ok tt, opened)
opened_again =
    open_ledger-replayed codec0 header0 Write.complete (1 ∷ 10 ∷ []) (no_accounts, 1)
      opened-is_small header_replays

open_ledger-Synced_example : Synced codec0 header0 opened × (opened.lock_held ≡ true)
open_ledger-Synced_example =
    open_ledger-Synced codec0 header0 false Write.complete (1 ∷ 10 ∷ []) opened opened_again
