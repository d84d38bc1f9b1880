-- ===== src/Dispatch/Methods.antt =====
-- The public methods of `_GeneratorDispatchLedger` of skivolve/runner.py, each on every outcome.
use skivolve.Base.{
  String, Bool, true, false, ◌≡◌, refl, inl, inr, string_eq, contains, Result-cases, ok, err,
  Bool-cases, if◌then◌else◌, Ensures, Ensures-err, Ensures-pure, Ensures-if, Ensures-bind,
}
use skivolve.Base.Text.{is_hex, is_empty_text}
use skivolve.Json.{Value, null, bool, int, float, str, arr, obj, Fields}
use skivolve.Dispatch.Types.{Codec, planned, dispatched, completed, failed, LogicalKey, Accounts}
use skivolve.Dispatch.Records.{dispatching, completing, failing}
use skivolve.Dispatch.Replay.{failure_categories, digest_field, repetition_of}
use skivolve.Dispatch.Ledger.{
  State, PlanRequest, identifier_digest, plan_record, plan_checked, plan_attempt, mark_dispatched,
  mark_completed, mark_failed, audit, report,
}
use skivolve.Dispatch.Writes.{CodecLaws, Synced, sync_lem}
use skivolve.Dispatch.Steps.{
  KeyIsHex, replay_record-dispatched, replay_record-completed, replay_record-failed,
}
use skivolve.Dispatch.Stopped.{Settles, RaisedWriting-weaken}
use skivolve.Dispatch.Sound.{Planned, Moved, plan_checked-Settles, transition-Settles, done}

digest_field-hex :
    (v : Value) (label : String) → Ensures (λ d. is_hex 64 d ≡ true) (digest_field v label)
unfolding digest_field
digest_field-hex (str s) label =
    Ensures-if (is_hex 64 s) (ok s) (err label) (λ hex. Ensures-pure s hex) (λ _. Ensures-err label)
digest_field-hex null label = Ensures-err label
digest_field-hex (bool b) label = Ensures-err label
digest_field-hex (int n) label = Ensures-err label
digest_field-hex (float x) label = Ensures-err label
digest_field-hex (arr vs) label = Ensures-err label
digest_field-hex (obj fs) label = Ensures-err label

not_failed : (observed : Bool) → ¬ ((if observed then dispatched else planned) ≡ failed)
not_failed true e = cc e
not_failed false e = cc e

module _ (codec : Codec) (header : Fields) (laws : CodecLaws codec) where
  identifier_digest-hex :
      (t label : String)
      → Ensures (λ d. is_hex 64 d ≡ true) (identifier_digest codec header t label)
  unfolding identifier_digest
  identifier_digest-hex t label =
      Ensures-if (is_empty_text t) (err label) (ok (codec.sha256 (codec.utf8 t)))
        (λ _. Ensures-err label)
        (λ _. Ensures-pure (codec.sha256 (codec.utf8 t)) (laws.digest_hex (codec.utf8 t)))

  -- The digests that a plan is recorded with.
  abbrev pub IsDigested : LogicalKey × String × String → Type 0
  IsDigested (key, q, v) = KeyIsHex key × (is_hex 64 q ≡ true) × (is_hex 64 v ≡ true)

  plan_record-IsDigested : (p : PlanRequest) → Ensures IsDigested (plan_record codec header p)
  unfolding plan_record
  plan_record-IsDigested p =
      Ensures-bind (repetition_of p.repetition "generator dispatch repetition is invalid") _ λ n _.
        Ensures-bind
          (identifier_digest codec header p.comparison_id
            "generator dispatch comparison id must be non-empty")
          _
          λ c hc.
            Ensures-bind
              (identifier_digest codec header p.case_id
                "generator dispatch case id must be non-empty")
              _
              λ d hd.
                Ensures-bind
                  (identifier_digest codec header p.role
                    "generator dispatch role must be non-empty")
                  _
                  λ r hr.
                    Ensures-bind
                      (digest_field p.request_sha256 "generator dispatch request digest is invalid")
                      _
                      λ q hq.
                        Ensures-bind
                          (identifier_digest codec header p.variant_id
                            "generator dispatch variant id must be non-empty")
                          _
                          λ v hv. Ensures-pure _ (
                            record {
                              comparison = (identifier_digest-hex p.comparison_id _).at c hc;
                              case = (identifier_digest-hex p.case_id _).at d hd;
                              role = (identifier_digest-hex p.role _).at r hr;
                            },
                            (digest_field-hex p.request_sha256 _).at q hq,
                            (identifier_digest-hex p.variant_id _).at v hv,
                          )

  module _ (s : State) (h : Synced codec header s) (held : s.lock_held ≡ true) where
    -- The accounts after `plan_attempt` has returned.
    abbrev pub PlanTaken : PlanRequest → Accounts → Type 0
    PlanTaken p next =
        (arm : LogicalKey × String × String) × (plan_record codec header p ≡ ok arm)
        × Planned codec header s p.attempt_id arm.0 arm.1 next

    Planned-Settles :
        (p : PlanRequest) (arm : LogicalKey × String × String)
        → plan_record codec header p ≡ ok arm
        → Settles codec header s
            (Planned codec header s p.attempt_id arm.0 arm.1)
            (plan_checked codec header p.attempt_id arm s)
        → Settles codec header s (PlanTaken p) (plan_attempt codec header p s)
    unfolding plan_attempt
    Planned-Settles p arm formed (inl (e, refused)) = inl (e, rw formed refused)
    Planned-Settles p arm formed (inr (inl w)) =
        inr (inl (rw formed (RaisedWriting-weaken codec header s _ w λ next q. (arm, formed, q))))
    Planned-Settles p arm formed (inr (inr (a, done, synced, taken, lock))) =
        inr (
          inr (a, rw formed done, rw formed synced, (arm, formed, rw formed taken), rw formed lock))

    -- With a codec that keeps its laws, on a ledger that holds its lock and agrees with its file, and
    -- however the disk ends the append, `plan_attempt` with a fresh id of 32 hexadecimal digits raises
    -- and changes nothing, or raises while
    -- writing, which leaves its accounts as they were and bytes of its record behind the old file (the
    -- ledger has stopped: what it holds in memory disagrees with the file, and a replay of the file
    -- either refuses it as torn or returns the accounts that this call would have left), or returns in agreement with the file: the arm and
    -- the id were free, and one planned attempt has been added.
    pub plan_attempt-Settles :
        (p : PlanRequest)
        → is_hex 32 p.attempt_id ≡ true
        → Settles codec header s (PlanTaken p) (plan_attempt codec header p s)
    unfolding plan_attempt
    plan_attempt-Settles p hex = elim (Result-cases (plan_record codec header p)) [
      | inr (e, refused) ↦ inl (e, rw refused refl)
      | inl (arm, formed) ↦
          let digested = (plan_record-IsDigested p).at arm formed in
          Planned-Settles p arm formed (
            plan_checked-Settles codec header laws s h held p.attempt_id arm.0 arm.1 arm.2 hex
              digested.0 digested.1 digested.2)
    ]

    -- With a codec that keeps its laws, on a ledger that holds its lock and agrees with its file, and
    -- however the disk ends the append, `mark_dispatched` raises and changes nothing, or raises while
    -- writing, which leaves its accounts as they were and bytes of its record behind the old file (the
    -- ledger has stopped: what it holds in memory disagrees with the file, and a replay of the file
    -- either refuses it as torn or returns the accounts that this call would have left), or returns in agreement with the file: the attempt was
    -- planned and is dispatched, and nothing else has changed.
    pub mark_dispatched-Settles :
        (i : String)
        → Settles codec header s
            (Moved codec header s i planned dispatched)
            (mark_dispatched codec header i s)
    unfolding mark_dispatched
    mark_dispatched-Settles i =
        transition-Settles codec header laws s h held i (dispatching i) planned dispatched
          (λ e. cc e) λ t hex known phase. replay_record-dispatched i t s.accounts hex known phase

    -- With a codec that keeps its laws, on a ledger that holds its lock and agrees with its file, and
    -- however the disk ends the append, `mark_completed` raises and changes nothing, or raises while
    -- writing, which leaves its accounts as they were and bytes of its record behind the old file (the
    -- ledger has stopped: what it holds in memory disagrees with the file, and a replay of the file
    -- either refuses it as torn or returns the accounts that this call would have left), or returns in agreement with the file: the attempt was
    -- dispatched and is completed, and nothing else has changed.
    pub mark_completed-Settles :
        (i : String) (result : Value)
        → Settles codec header s
            (Moved codec header s i dispatched completed)
            (mark_completed codec header i result s)
    unfolding mark_completed
    mark_completed-Settles i result =
        elim (Result-cases (digest_field result "generator provider result digest is invalid")) [
          | inr (e, refused) ↦ inl (e, rw refused refl)
          | inl (d, formed) ↦ rw formed (
              transition-Settles codec header laws s h held i (completing i d) dispatched completed
                (λ e. cc e)
                λ t hex known phase.
                  replay_record-completed i t s.accounts hex known d
                    ((digest_field-hex result _).at d formed) phase)
        ]

    -- With a codec that keeps its laws, on a ledger that holds its lock and agrees with its file, and
    -- however the disk ends the append, `mark_failed` raises and changes nothing, or raises while
    -- writing, which leaves its accounts as they were and bytes of its record behind the old file (the
    -- ledger has stopped: what it holds in memory disagrees with the file, and a replay of the file
    -- either refuses it as torn or returns the accounts that this call would have left), or returns in agreement with the file: the attempt was
    -- dispatched, or planned if no dispatch was observed, and is failed, and nothing else has changed.
    pub mark_failed-Settles :
        (i : String) (observed : Bool) (category : String)
        → Settles codec header s
            (Moved codec header s i (if observed then dispatched else planned) failed)
            (mark_failed codec header i observed category s)
    unfolding mark_failed
    mark_failed-Settles i observed category =
        elim (Bool-cases (contains category failure_categories)) [
          | inr unknown ↦ inl ("generator failure category is invalid", rw unknown refl)
          | inl known_category ↦ rw known_category (
              transition-Settles codec header laws s h held i (failing i observed category)
                (if observed then dispatched else planned) failed (not_failed observed)
                λ t hex known phase.
                  replay_record-failed i t s.accounts hex known observed category known_category
                    phase)
        ]

    -- `audit` on a ledger that agrees with its file.
    pub audit_lem : audit codec header s ≡ (ok (report codec header s), s)
    unfolding audit
    audit_lem = rw (sync_lem codec header s h held) refl
