-- ===== src/Dispatch/Sound.antt =====
-- The steps that the methods of `_GeneratorDispatchLedger` of skivolve/runner.py share: the check of
-- the file, the append of one record and the write to memory, on every way the append can end.
use skivolve.Base.{
  String, Bool, true, false, ◌||◌, ◌&&◌, Option, some, ◌≡◌, refl, sym, inl, inr, ◌==◌, string_eq,
  arith, Result, ok, err, Bool-cases, Option-cases, beq_sound, beq_refl, &&-split,
}
use mathlib.Core.Path.{subst}
use skivolve.Base.Dict.{Dict, lookup, member, insert, lookup-insert}
use skivolve.Base.Exec.{Exec, pure, continue, ◌>>◌}
use skivolve.Base.Text.{is_hex}
use skivolve.Json.{Value, Fields}
use skivolve.Dispatch.Types.{Codec, Phase, planned, phase_eq, LogicalKey, key_eq, Attempt, Accounts}
use skivolve.Dispatch.Records.{Entry, planning, entry_record, planned_record}
use skivolve.Dispatch.Replay.{add_attempt, store_phase, replay_record}
use skivolve.Dispatch.Ledger.{
  State, PlanRequest, update_accounts, append, plan_checked, plan_attempt, transition,
  mark_dispatched, mark_completed, mark_failed, audit,
}
use skivolve.Dispatch.Writes.{CodecLaws, Synced, sync_lem, append_cases}
use skivolve.Dispatch.Stopped.{Settles, RaisedWriting, write_line-Settles}
use skivolve.Dispatch.Steps.{KeyIsHex, replay_record-planned}

-- One call of a method of an open ledger, with the arguments that the runner passes.
pub data Op : Type 0 where
  plan : PlanRequest → Op
  dispatch : String → Op
  complete : String → Value → Op
  fail : String → Bool → String → Op
  look : Op

-- A method that returns nothing or a value of no matter here.
abbrev pub done : {A : Type 0} → Result A × State → Result (Unit {0}) × State
done (ok a, s) = (ok tt, s)
done (err e, s) = (err e, s)

neither : (a b : Bool) → (a || b) ≡ false → (a ≡ false) × (b ≡ false)
neither a b h = ground arith

stored : (i : String) (t : Attempt) (d : Dict String Attempt) → lookup i (insert i t d) ≡ some t
stored i t d = rw (lookup-insert i i t d, beq_refl i) refl

not_there :
    (i : String) (t : Attempt) (d : Dict String Attempt)
    → member i d ≡ false
    → ¬ (lookup i d ≡ some t)
unfolding member
not_there i t d new found = ground (arith, new, found)

unmoved :
    (o : Option Attempt) (t : Attempt) (expected updated : Phase)
    → o ≡ some t
    → t.phase ≡ expected
    → o ≡ some (record t { phase = updated })
    → expected ≡ updated
unmoved o t expected updated known phase same = cc (known, phase, same)

module _ (codec : Codec) (header : Fields) where
  -- The accounts after a plan that went through: the arm and the id were free, and are taken.
  abbrev pub Planned : State → String → LogicalKey → String → Accounts → Type 0
  Planned s i key q next =
      (member key s.logical ≡ false)
      × (member i s.attempts ≡ false)
      × (next ≡ add_attempt i key q s.accounts)

  -- The accounts after a transition that went through: one attempt was in the expected phase, and
  -- is in the updated one.
  abbrev pub Moved : State → String → Phase → Phase → Accounts → Type 0
  Moved s i expected updated next =
      (t : Attempt) × (lookup i s.attempts ≡ some t)
      × (t.phase ≡ expected)
      × (next ≡ store_phase i t updated s.accounts)

  return-raised :
      {A : Type 0} (a : A) (s : State) (Q : Accounts → Type 0) (p : Result (Unit {0}) × State)
      → RaisedWriting codec header s Q p
      → RaisedWriting codec header s Q (continue p.0 (λ _. pure a) p.1)
  return-raised a s Q (ok u, t) w = absurd (cc w.raised)
  return-raised a s Q (err e, t) w = record {
    message = w.message;
    raised = cc w.raised;
    accounts_kept = w.accounts_kept;
    lock_kept = w.lock_kept;
    stopped = w.stopped;
    file_kept = w.file_kept;
  }

  module _ (laws : CodecLaws codec) (s : State) (h : Synced codec header s)
      (held : s.lock_held ≡ true) where
    -- `_append` of an entry's record, and then the write to memory that it stands for.
    commit :
        (e : Entry) (f : Accounts → Accounts) (Q : Accounts → Type 0) (i : String) (t : Attempt)
        → replay_record (entry_record e) s.accounts ≡ ok (f s.accounts)
        → Q (f s.accounts)
        → lookup i (f s.accounts).attempts ≡ some t
        → ¬ (lookup i s.attempts ≡ some t)
        → Settles codec header s Q
            ((append codec header (entry_record e) false >> update_accounts f) s)
    commit e f Q i t step q found differs =
        elim (append_cases codec header s h (entry_record e) held) [
          | inl (m, refused) ↦ inl (m, rw refused refl)
          | inr (line, encoded, fits, done) ↦ rw done (
              write_line-Settles codec header laws s h e line (f s.accounts) Q encoded fits step q f
                i t refl found differs held s.next_write refl)
        ]

    -- The same, where the method then returns a value.
    commit-return :
        {A : Type 0} (a : A) (m : Exec State (Unit {0})) (Q : Accounts → Type 0)
        → Settles codec header s Q (m s)
        → Settles codec header s Q ((m >> pure a) s)
    commit-return a m Q (inl (e, refused)) = inl (e, rw refused refl)
    commit-return a m Q (inr (inl w)) = inr (inl (return-raised a s Q (m s) w))
    commit-return a m Q (inr (inr (u, done, synced, holds, lock))) =
        inr (inr (a, rw done refl, rw done synced, rw done holds, rw done lock))

    pub plan_checked-Settles :
        (i : String) (key : LogicalKey) (q v : String)
        → is_hex 32 i ≡ true
        → KeyIsHex key
        → is_hex 64 q ≡ true
        → is_hex 64 v ≡ true
        → Settles codec header s (Planned s i key q) (plan_checked codec header i (key, q, v) s)
    unfolding plan_checked
    plan_checked-Settles i key q v hi hk hq hv =
        elim (Bool-cases (member key s.logical || member i s.attempts)) [
          | inl taken ↦ inl (
            "generator dispatch logical arm already has an accounted attempt",
            rw (sync_lem codec header s h held, taken) refl,
          )
          | inr free ↦
              let (free_key, new) = neither (member key s.logical) (member i s.attempts) free in
              rw (sync_lem codec header s h held, free)
                (commit-return i
                  (append codec header (planned_record i key q v) false
                    >> update_accounts (add_attempt i key q))
                  (Planned s i key q)
                  (commit (planning i key q v) (add_attempt i key q) (Planned s i key q) i
                    (record { key = key; request = q; phase = planned })
                    (replay_record-planned i key q v s.accounts hi hk hq hv new free_key)
                    (free_key, new, refl) (stored i _ s.attempts) (not_there i _ s.attempts new)))
        ]

    -- A transition whose guard passes goes on to the write.
    transition_runs :
        (i : String) (r : Fields) (expected updated : Phase) (t : Attempt)
        → lookup i s.attempts ≡ some t
        → (is_hex 32 i && t.phase == expected) ≡ true
        → transition codec header i expected updated r s
          ≡ (append codec header r false >> update_accounts (store_phase i t updated)) s
    unfolding transition
    transition_runs i r expected updated t known right =
        rw (sync_lem codec header s h held, known, right) refl

    pub transition-Settles :
        (i : String) (e : Entry) (expected updated : Phase)
        → ¬ (expected ≡ updated)
        → ((t : Attempt)
            → is_hex 32 i ≡ true
            → lookup i s.attempts ≡ some t
            → t.phase ≡ expected
            → replay_record (entry_record e) s.accounts ≡ ok (store_phase i t updated s.accounts))
        → Settles codec header s
            (Moved s i expected updated)
            (transition codec header i expected updated (entry_record e) s)
    unfolding transition
    transition-Settles i e expected updated moves step = elim (Option-cases (lookup i s.attempts)) [
      | inl unknown ↦ inl (
        "generator dispatch transition is out of order",
        rw (sync_lem codec header s h held, unknown) refl,
      )
      | inr (t, known) ↦ elim (Bool-cases (is_hex 32 i && t.phase == expected)) [
        | inr wrong ↦ inl (
          "generator dispatch transition is out of order",
          rw (sync_lem codec header s h held, known, wrong) refl,
        )
        | inl right ↦
            let (hex, same) = &&-split (is_hex 32 i) (t.phase == expected) right in
            let phase = beq_sound t.phase expected same in
            subst (Settles codec header s (Moved s i expected updated))
              (sym (transition_runs i (entry_record e) expected updated t known right))
              (commit e (store_phase i t updated) (Moved s i expected updated) i
                (record t { phase = updated }) (step t hex known phase) (t, known, phase, refl)
                (stored i _ s.attempts)
                (λ same. moves (unmoved _ t expected updated known phase same)))
      ]
    ]

  unfoldable pub run_op : Op → State → Result (Unit {0}) × State
  run_op (plan p) s = done (plan_attempt codec header p s)
  run_op (dispatch i) s = done (mark_dispatched codec header i s)
  run_op (complete i result) s = done (mark_completed codec header i result s)
  run_op (fail i observed category) s = done (mark_failed codec header i observed category s)
  run_op look s = done (audit codec header s)
