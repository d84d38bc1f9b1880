-- ===== src/Dispatch/Steps.antt =====
-- What a replay does with each record that `_GeneratorDispatchLedger` of skivolve/runner.py writes.
use skivolve.Base.{
  String, Bool, true, false, some, ◌≡◌, refl, string_eq, arith, ok, contains, if◌then◌else◌,
}
use skivolve.Base.Dict.{lookup, member}
use skivolve.Base.Text.{is_hex}
use skivolve.Json.{get_or_null, has_exactly}
use skivolve.Dispatch.Types.{
  planned, dispatched, completed, failed, phase_eq, LogicalKey, key_eq, Attempt, Accounts,
}
use skivolve.Dispatch.Records.{planned_record, dispatched_record, completed_record, failed_record}
use skivolve.Dispatch.Replay.{
  failure_categories, digest_field, attempt_id_of, repetition_of, is_text, is_one_of, planned_arm,
  add_attempt, replay_planned, event_phases, move, replay_record, store_phase,
}

-- The texts of a logical arm are digests.
pub record KeyIsHex (key : LogicalKey) : Type 0 where
  pub comparison : is_hex 64 key.comparison ≡ true
  pub case : is_hex 64 key.case ≡ true
  pub role : is_hex 64 key.role ≡ true

pub replay_record-planned :
    (i : String) (key : LogicalKey) (q v : String) (a : Accounts)
    → is_hex 32 i ≡ true
    → KeyIsHex key
    → is_hex 64 q ≡ true
    → is_hex 64 v ≡ true
    → member i a.attempts ≡ false
    → member key a.logical ≡ false
    → replay_record (planned_record i key q v) a ≡ ok (add_attempt i key q a)
unfolding replay_record attempt_id_of get_or_null is_text replay_planned planned_arm repetition_of
    digest_field has_exactly
replay_record-planned i key q v a hi hk hq hv new free =
    rw (hi, new, hk.comparison, hk.case, hk.role, hq, hv, free) refl

module _ (i : String) (t : Attempt) (a : Accounts) (hi : is_hex 32 i ≡ true)
    (known : lookup i a.attempts ≡ some t) where
  pub replay_record-dispatched :
      t.phase ≡ planned → replay_record (dispatched_record i) a ≡ ok (store_phase i t dispatched a)
  unfolding replay_record attempt_id_of get_or_null is_text event_phases has_exactly move
  replay_record-dispatched p = ground (arith, hi, known, p)

  pub replay_record-completed :
      (d : String)
      → is_hex 64 d ≡ true
      → t.phase ≡ dispatched
      → replay_record (completed_record i d) a ≡ ok (store_phase i t completed a)
  unfolding replay_record attempt_id_of get_or_null is_text event_phases has_exactly digest_field
      move
  replay_record-completed d hd p = ground (arith, hi, known, hd, p)

  pub replay_record-failed :
      (observed : Bool) (category : String)
      → contains category failure_categories ≡ true
      → t.phase ≡ (if observed then dispatched else planned)
      → replay_record (failed_record i observed category) a ≡ ok (store_phase i t failed a)
  unfolding replay_record attempt_id_of get_or_null is_text event_phases has_exactly is_one_of move
  replay_record-failed true category hc p = ground (arith, hi, known, hc, p)
  replay_record-failed false category hc p = ground (arith, hi, known, hc, p)
