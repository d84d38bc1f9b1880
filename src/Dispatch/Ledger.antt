-- ===== src/Dispatch/Ledger.antt =====
-- The methods of `_GeneratorDispatchLedger` of skivolve/runner.py. The journal's file is part of the
-- state; its metadata, the lock file and the directory are not.
use skivolve.Base.{
  ℕ, suc, ◌+◌, String, Bool, true, false, ◌&&◌, ◌||◌, not, Option, none, some, List, [], ◌∷◌, ◌++◌,
  ◌==◌, nat_eq, string_eq, if◌then◌else◌, ltb, length, select, count_if, contains, Result, ok, err,
  map, take,
}
use skivolve.Base
use skivolve.Base.Dict.{lookup, member, dict_same}
use skivolve.Base.Text.{is_hex, is_empty_text}
use skivolve.Base.Sort.{sort, text_lt}
use skivolve.Base.Exec.{Exec, pure, lift, gets, modify, fail_if, ◌>>=◌, ◌>>◌}
use skivolve.Json.{Value, obj, Fields}
use skivolve.Dispatch.Types.{
  Bytes, Codec, Phase, planned, dispatched, completed, failed, phase_eq, LogicalKey, key_eq,
  Attempt, attempt_eq, Accounts,
}
use skivolve.Dispatch.Records.{planned_record, dispatched_record, completed_record, failed_record}
use skivolve.Dispatch.Replay.{
  max_bytes, max_record_bytes, newline, failure_categories, digest_field, repetition_of,
  no_accounts, record_bytes, replay, add_attempt, store_phase,
}

-- How the disk ends an append: the line is in the file and remembered; opening or checking the file
-- raises before the write; the write, `os.fsync` or a check after it raises when the first bytes of
-- the line are in the file; or the line is there and remembered, and the last attestation raises.
pub data Write : Type 0 where
  complete : Write
  refused : Write
  interrupted : ℕ → Write
  unattested : Write

pub record State : Type 0 where
  pub accounts : Accounts
  pub open accounts use {attempts, logical}
  pub record_count : ℕ
  pub journal_size : ℕ
  pub journal_sha256 : String
  -- `_journal_identity is not None`
  pub bound : Bool
  -- `_lock_descriptor >= 0`
  pub lock_held : Bool
  -- the content of the journal's file; `none` if there is no file
  pub journal : Option Bytes
  -- how the disk will end the next append; no code of the ledger sets or sees it
  pub next_write : Write

-- The arguments of `plan_attempt`, with the fresh id that `uuid.uuid4().hex` returns.
pub record PlanRequest : Type 0 where
  pub attempt_id : String
  pub comparison_id : String
  pub case_id : String
  pub repetition : Value
  pub role : String
  pub variant_id : String
  pub request_sha256 : Value

-- A dict of the list `unresolved_attempts`.
pub record Unresolved : Type 0 where
  pub attempt_id : String
  pub phase : Phase
  pub request_sha256 : String

pub record Audit : Type 0 where
  pub attempts : ℕ
  pub journal_sha256 : String
  pub records : ℕ
  pub planned_count : ℕ
  pub dispatched_count : ℕ
  pub completed_count : ℕ
  pub failed_count : ℕ
  pub unresolved : List Unresolved

unfoldable pub is_unresolved : String × Attempt → Bool
is_unresolved entry = entry.1.phase == planned || entry.1.phase == dispatched

abbrev pub unresolved_of : String × Attempt → Unresolved
unresolved_of (attempt_id, state) = record {
  attempt_id = attempt_id;
  phase = state.phase;
  request_sha256 = state.request;
}

unfoldable pub in_phase : Phase → String × Attempt → Bool
in_phase phase entry = entry.1.phase == phase

-- The writes to memory that follow the journal's.
abbrev pub update_accounts : (Accounts → Accounts) → Exec State (Unit {0})
update_accounts f s = (ok tt, record s { accounts = f s.accounts })

-- `_attest_lifetime_lock`
unfoldable pub attest : Exec State (Unit {0})
attest s = fail_if (not s.lock_held) "generator dispatch lifetime lock is closed" s

-- The file's content, within the byte limit.
unfoldable pub read_file : Option Bytes → Result Bytes
read_file none = err "cannot read generator dispatch journal"
read_file (some raw) =
    if ltb max_bytes (length raw)
    then err "generator dispatch journal exceeds byte limit"
    else ok raw

unfoldable pub failure_known : String → Result (Unit {0})
failure_known category =
    if contains category failure_categories
    then ok tt
    else err "generator failure category is invalid"

module _ (codec : Codec) (header : Fields) where
  open codec use {sha256, utf8}

  unfoldable pub prefix_modified : Bytes → State → Bool
  prefix_modified raw s = not (length raw == s.journal_size && sha256 raw == s.journal_sha256)

  -- `_read`
  unfoldable pub read : Exec State Bytes
  unfolding attest prefix_modified read_file
  read = attest >> (λ s. lift (read_file s.journal) s) >>= λ raw.
      (λ s.
        fail_if (s.bound && prefix_modified raw s) "generator dispatch journal prefix was modified"
          s)
      >> modify
          (λ s. record s { journal_size = length raw; journal_sha256 = sha256 raw; bound = true })
      >> attest
      >> pure raw

  -- The bytes that are in the file when `_append` opens it: a new file must not be there yet.
  unfoldable pub prior_bytes : Bool → State → Result Bytes
  unfolding prefix_modified read_file
  prior_bytes true s = elim s.journal [
    | none ↦ ok []
    | some raw ↦ err "cannot persist generator dispatch journal"
  ]
  prior_bytes false s = Base.◌>>=◌ (read_file s.journal) λ raw.
      if prefix_modified raw s then err "generator dispatch journal prefix was modified" else ok raw

  unfoldable pub encode_line : Fields → Result Bytes
  unfolding record_bytes
  encode_line record' = Base.◌>>=◌ (record_bytes codec (obj record')) λ encoded.
      let line = encoded ++ newline ∷ [] in
      if ltb max_record_bytes (length line)
      then err "generator dispatch record exceeds byte limit"
      else ok line

  -- The fields that `_append` sets at its end.
  abbrev pub remembered : Bytes → State → State
  remembered content s = record s {
    journal = some content;
    journal_size = length content;
    journal_sha256 = sha256 content;
    bound = true;
    record_count = s.record_count + 1;
  }

  -- The part of `_append` from the write on, on a file that holds `prior`.
  unfoldable pub write_line : Bytes → Bytes → Exec State (Unit {0})
  unfolding attest
  write_line prior line s = elim s.next_write [
    | complete ↦ attest (remembered (prior ++ line) s)
    | refused ↦ (err "cannot persist generator dispatch journal", s)
    | interrupted n ↦ (
      err "cannot persist generator dispatch journal",
      record s { journal = some (prior ++ take n line) },
    )
    | unattested ↦
        (err "generator dispatch lifetime lock lost integrity", remembered (prior ++ line) s)
  ]

  -- `_append`
  unfoldable pub append : Fields → Bool → Exec State (Unit {0})
  unfolding attest encode_line prior_bytes write_line
  append record' create = do
    attest >> lift (encode_line record') >>= λ line. do
      prior ← λ s. lift (prior_bytes create s) s
      fail_if (ltb max_bytes (length prior + length line))
            "generator dispatch journal exceeds byte limit"
          >> write_line prior line

  unfoldable pub drifted : Accounts × ℕ → State → Bool
  drifted (accounts, count) s = not (
      dict_same accounts.attempts s.attempts
      && (dict_same accounts.logical s.logical && count == s.record_count))

  -- `_sync`
  unfoldable pub sync : Exec State (Unit {0})
  unfolding drifted
  sync = do
    raw ← read
    replayed ← lift (replay codec header raw)
    λ s. fail_if (drifted replayed s) "generator dispatch journal state drifted in memory" s

  -- `_generator_identifier_digest`
  unfoldable pub identifier_digest : String → String → Result String
  identifier_digest value label =
      if is_empty_text value then err label else ok (sha256 (utf8 value))

  -- The part of `plan_attempt` before it takes the lock: its checks and digests.
  unfoldable pub plan_record : PlanRequest → Result (LogicalKey × String × String)
  unfolding identifier_digest
  plan_record p =
      Base.◌>>=◌ (repetition_of p.repetition "generator dispatch repetition is invalid")
        λ repetition.
          Base.◌>>=◌
            (identifier_digest p.comparison_id "generator dispatch comparison id must be non-empty")
            λ comparison.
              Base.◌>>=◌
                (identifier_digest p.case_id "generator dispatch case id must be non-empty")
                λ case.
                  Base.◌>>=◌ (identifier_digest p.role "generator dispatch role must be non-empty")
                    λ role.
                      Base.◌>>=◌
                        (digest_field p.request_sha256
                          "generator dispatch request digest is invalid")
                        λ request.
                          Base.◌>>=◌
                            (identifier_digest p.variant_id
                              "generator dispatch variant id must be non-empty")
                            λ variant. ok (
                              record {
                                comparison = comparison;
                                case = case;
                                repetition = repetition;
                                role = role;
                              },
                              request,
                              variant,
                            )

  -- The part of `plan_attempt` under the lock.
  unfoldable pub plan_checked : String → LogicalKey × String × String → Exec State String
  plan_checked attempt_id (key, request, variant) =
      sync
      >> ((λ s.
            fail_if (member key s.logical || member attempt_id s.attempts)
              "generator dispatch logical arm already has an accounted attempt" s)
          >> ((append (planned_record attempt_id key request variant) false
                >> update_accounts (add_attempt attempt_id key request))
              >> pure attempt_id))

  unfoldable pub plan_attempt : PlanRequest → Exec State String
  plan_attempt p = lift (plan_record p) >>= plan_checked p.attempt_id

  unfoldable pub move_to : String → Phase → Option Attempt → Fields → Phase → Exec State (Unit {0})
  move_to attempt_id expected none record' updated =
      lift (err "generator dispatch transition is out of order")
  move_to attempt_id expected (some state) record' updated =
      fail_if (not (is_hex 32 attempt_id && state.phase == expected))
        "generator dispatch transition is out of order"
      >> (append record' false >> update_accounts (store_phase attempt_id state updated))

  -- `_transition`
  unfoldable pub transition : String → Phase → Phase → Fields → Exec State (Unit {0})
  unfolding move_to
  transition attempt_id expected updated record' =
      sync >> λ s. move_to attempt_id expected (lookup attempt_id s.attempts) record' updated s

  unfoldable pub mark_dispatched : String → Exec State (Unit {0})
  unfolding transition
  mark_dispatched attempt_id =
      transition attempt_id planned dispatched (dispatched_record attempt_id)

  unfoldable pub mark_completed : String → Value → Exec State (Unit {0})
  unfolding transition
  mark_completed attempt_id result =
      lift (digest_field result "generator provider result digest is invalid") >>= λ digest.
      transition attempt_id dispatched completed (completed_record attempt_id digest)

  unfoldable pub mark_failed : String → Bool → String → Exec State (Unit {0})
  unfolding transition failure_known
  mark_failed attempt_id observed category =
      lift (failure_known category)
      >> transition attempt_id (if observed then dispatched else planned) failed
          (failed_record attempt_id observed category)

  unfoldable pub report : State → Audit
  unfolding is_unresolved in_phase
  report s = record {
    attempts = length s.attempts;
    journal_sha256 = s.journal_sha256;
    records = s.record_count;
    planned_count = count_if (in_phase planned) s.attempts;
    dispatched_count = count_if (in_phase dispatched) s.attempts;
    completed_count = count_if (in_phase completed) s.attempts;
    failed_count = count_if (in_phase failed) s.attempts;
    unresolved =
        map unresolved_of (select is_unresolved (sort (λ a b. text_lt a.0 b.0) s.attempts));
  }

  unfoldable pub audit : Exec State Audit
  unfolding report
  audit = sync >> gets report

  unfoldable pub close : Exec State (Unit {0})
  close = modify (λ s. record s { lock_held = false })

  -- The fields before `__init__` reads or writes the journal.
  abbrev fresh : Bool → Write → Option Bytes → State
  fresh lock_held write journal = record {
    accounts = no_accounts;
    record_count = 0;
    journal_size = 0;
    journal_sha256 = sha256 [];
    bound = false;
    lock_held = lock_held;
    journal = journal;
    next_write = write;
  }

  unfoldable pub restore : Exec State (Unit {0})
  restore = do
    raw ← read
    replayed ← lift (replay codec header raw)
    modify (λ s. record s { accounts = replayed.0; record_count = replayed.1 })

  -- `_release_lifetime_lock` where `__init__` raises
  abbrev release_on_raise : Result (Unit {0}) × State → Result (Unit {0}) × State
  release_on_raise (ok u, s) = (ok u, s)
  release_on_raise (err e, s) = (err e, record s { lock_held = false })

  unfoldable pub create_or_restore : Option Bytes → Exec State (Unit {0})
  unfolding restore
  create_or_restore none = append header true
  create_or_restore (some raw) = restore

  -- `__init__`, where `locked` says that another ledger holds the lock file
  unfoldable pub open_ledger : Bool → Write → Option Bytes → Result (Unit {0}) × State
  unfolding create_or_restore
  open_ledger true write journal =
      (err "generator dispatch ledger is already active", fresh false write journal)
  open_ledger false write journal =
      release_on_raise (create_or_restore journal (fresh true write journal))
