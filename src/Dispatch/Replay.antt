-- ===== src/Dispatch/Replay.antt =====
-- `_GeneratorDispatchLedger._replay` of skivolve/runner.py: the journal's bytes back to accounts.
use skivolve.Base.{
  ℕ, suc, ◌*◌, String, Bool, false, ◌&&◌, ◌||◌, not, Option, none, some, List, [], ◌∷◌, ◌==◌,
  nat_eq, string_eq, list_eq, if◌then◌else◌, ltb, length, is_empty, contains, Result, ok, err,
  ◌>>=◌, ◌>>◌, raise_if, or_raise, traverse,
}
use skivolve.Base.Int.{pos}
use skivolve.Base.Dict.{lookup, member, insert}
use skivolve.Base.Text.{is_hex}
use skivolve.Json.{Value, int, str, arr, obj, Fields, get_or_null, has_exactly, same}
use skivolve.Dispatch.Types.{
  Bytes, Codec, Phase, planned, dispatched, completed, failed, phase_eq, LogicalKey, key_eq,
  Attempt, Accounts,
}

-- `_GENERATOR_DISPATCH_MAX_BYTES` and `_GENERATOR_DISPATCH_MAX_RECORD_BYTES`
abbrev pub max_bytes : ℕ
max_bytes = 32 * 1024 * 1024

abbrev pub max_record_bytes : ℕ
max_record_bytes = 1024 * 1024

abbrev pub newline : ℕ
newline = 10

-- `_GENERATOR_FAILURE_CATEGORIES`
abbrev pub failure_categories : List String
failure_categories =
    "local_io" ∷ "provider" ∷ "request_validation" ∷ "result_validation" ∷ "unexpected" ∷ []

abbrev pub planned_keys : List String
planned_keys =
    "attempt_id" ∷ "case_id_sha256" ∷ "comparison_id_sha256" ∷ "event" ∷ "repetition"
    ∷ "request_sha256" ∷ "role_sha256" ∷ "variant_id_sha256" ∷ []

abbrev pub completed_keys : List String
completed_keys = "attempt_id" ∷ "event" ∷ "provider_result_sha256" ∷ []

abbrev pub failed_keys : List String
failed_keys = "attempt_id" ∷ "dispatch_state" ∷ "event" ∷ "failure_category" ∷ []

-- `_generator_digest_field`
unfoldable pub digest_field : Value → String → Result String
digest_field (str s) label = if is_hex 64 s then ok s else err label
digest_field _ label = err label

-- The attempt id of a record, if it is 32 hexadecimal digits.
unfoldable pub attempt_id_of : Value → Result String
attempt_id_of (str s) =
    if is_hex 32 s then ok s else err "generator dispatch journal attempt id is invalid"
attempt_id_of _ = err "generator dispatch journal attempt id is invalid"

unfoldable pub repetition_of : Value → String → Result ℕ
repetition_of (int (pos n)) label = ok n
repetition_of _ label = err label

-- `value == text`
unfoldable pub is_text : String → Value → Bool
is_text t (str s) = s == t
is_text t _ = false

-- `value in {...}` for a set of texts: a list or a dict cannot be hashed.
unfoldable pub is_one_of : List String → Value → Result Bool
is_one_of ts (str s) = ok (contains s ts)
is_one_of ts (arr vs) = err "unhashable type"
is_one_of ts (obj fs) = err "unhashable type"
is_one_of ts _ = ok false

-- The logical arm and the request digest that a planned record names.
unfoldable pub planned_arm : Fields → Result (LogicalKey × String)
planned_arm record' = do
  repetition ←
      repetition_of (get_or_null "repetition" record')
        "generator dispatch planned record is invalid"
  comparison ←
      digest_field (get_or_null "comparison_id_sha256" record')
        "generator comparison digest is invalid"
  case ← digest_field (get_or_null "case_id_sha256" record') "generator case digest is invalid"
  role ← digest_field (get_or_null "role_sha256" record') "generator role digest is invalid"
  request ←
      digest_field (get_or_null "request_sha256" record') "generator request digest is invalid"
  digest_field (get_or_null "variant_id_sha256" record') "generator variant digest is invalid"
      >>= λ _. ok (
        record { comparison = comparison; case = case; repetition = repetition; role = role },
        request,
      )

abbrev pub add_attempt : String → LogicalKey → String → Accounts → Accounts
add_attempt attempt_id key request accounts = record {
  attempts =
      insert attempt_id (record { key = key; request = request; phase = planned })
        accounts.attempts;
  logical = insert key attempt_id accounts.logical;
}

-- A record with the event "planned".
unfoldable pub replay_planned : String → Fields → Accounts → Result Accounts
replay_planned attempt_id record' accounts = do
  raise_if (not (has_exactly planned_keys record') || member attempt_id accounts.attempts)
      "generator dispatch planned record is invalid"
  arm ← planned_arm record'
  raise_if (member arm.0 accounts.logical) "generator logical arm was planned more than once"
  ok (add_attempt attempt_id arm.0 arm.1 accounts)

-- The phases before and after a record with the event "failed".
unfoldable pub failed_phases : Fields → Result (Phase × Phase)
failed_phases record' = do
  known_state ← is_one_of ("observed" ∷ "not_observed" ∷ []) (get_or_null "dispatch_state" record')
  raise_if (not known_state) "generator dispatch failed record is invalid"
  known_category ← is_one_of failure_categories (get_or_null "failure_category" record')
  raise_if (not known_category) "generator dispatch failed record is invalid"
  ok (
    if is_text "observed" (get_or_null "dispatch_state" record') then dispatched else planned,
    failed,
  )

-- The phases before and after a record with another event than "planned".
unfoldable pub event_phases : Fields → Result (Phase × Phase)
unfolding failed_phases
event_phases record' =
    let event = get_or_null "event" record' in
    if is_text "dispatched" event && has_exactly ("attempt_id" ∷ "event" ∷ []) record'
    then ok (planned, dispatched)
    else if is_text "completed" event && has_exactly completed_keys record'
    then (do
      digest_field (get_or_null "provider_result_sha256" record')
            "generator provider result digest is invalid"
          >>= λ _. ok (dispatched, completed))
    else if is_text "failed" event && has_exactly failed_keys record'
    then failed_phases record'
    else err "generator dispatch journal event is invalid"

abbrev pub store_phase : String → Attempt → Phase → Accounts → Accounts
store_phase attempt_id state phase accounts = record accounts {
  attempts = insert attempt_id (record state { phase = phase }) accounts.attempts;
}

-- The transition that moves one attempt from the expected phase to the updated one.
unfoldable pub move : String → Option Attempt → Phase × Phase → Accounts → Result Accounts
move attempt_id none phases accounts = err "generator dispatch journal transition is out of order"
move attempt_id (some state) (expected, updated) accounts =
    if state.phase == expected
    then ok (store_phase attempt_id state updated accounts)
    else err "generator dispatch journal transition is out of order"

-- One turn of the loop over the records.
unfoldable pub replay_record : Fields → Accounts → Result Accounts
replay_record record' accounts = do
  attempt_id ← attempt_id_of (get_or_null "attempt_id" record')
  if is_text "planned" (get_or_null "event" record')
      then replay_planned attempt_id record' accounts
      else do
        phases ← event_phases record'
        move attempt_id (lookup attempt_id accounts.attempts) phases accounts

unfoldable pub replay_records : List Fields → Accounts → Result Accounts
replay_records [] accounts = ok accounts
replay_records (record' ∷ rest) accounts = do
  next ← replay_record record' accounts
  replay_records rest next

abbrev pub no_accounts : Accounts
no_accounts = record { attempts = []; logical = [] }

-- `raw.endswith(b"\n")`
unfoldable pub ends_with_newline : Bytes → Bool
ends_with_newline [] = false
ends_with_newline (b ∷ []) = b == newline
ends_with_newline (b ∷ c ∷ bs) = ends_with_newline (c ∷ bs)

-- `raw[:-1]`
unfoldable pub drop_last : Bytes → Bytes
drop_last [] = []
drop_last (b ∷ []) = []
drop_last (b ∷ c ∷ bs) = b ∷ drop_last (c ∷ bs)

unfoldable pub add_byte : ℕ → List Bytes → List Bytes
add_byte b [] = (b ∷ []) ∷ []
add_byte b (line ∷ lines) = (b ∷ line) ∷ lines

-- `raw.split(b"\n")`
unfoldable pub split_lines : Bytes → List Bytes
unfolding add_byte
split_lines [] = [] ∷ []
split_lines (b ∷ bs) =
    let rest = split_lines bs in if b == newline then [] ∷ rest else add_byte b rest

module _ (codec : Codec) where
  open codec use {canonical, loads}

  -- `_generator_record_bytes`
  unfoldable pub record_bytes : Value → Result Bytes
  record_bytes value = or_raise (canonical value) "generator dispatch value is not canonical JSON"

  canonical_object : Value → Bytes → Result Fields
  canonical_object (obj fs) line = do
    encoded ← record_bytes (obj fs)
    raise_if (not (encoded == line)) "generator dispatch journal is not canonical JSONL"
    ok fs
  canonical_object _ line = err "generator dispatch journal is not canonical JSONL"

  -- One turn of the loop over the lines.
  unfoldable pub read_line : Bytes → Result Fields
  unfolding canonical_object record_bytes
  read_line line = do
    raise_if (is_empty line || ltb max_record_bytes (length line))
        "generator dispatch journal record has invalid size"
    value ← or_raise (loads line) "generator dispatch journal record is invalid"
    canonical_object value line

  -- What follows the header: `none` is a journal with no record.
  unfoldable pub after_header : Fields → List Fields → Result (Accounts × ℕ)
  after_header header [] = err "generator dispatch journal header binding is invalid"
  after_header header (first ∷ rest) = do
    raise_if (not (same (obj first) (obj header)))
        "generator dispatch journal header binding is invalid"
    accounts ← replay_records rest no_accounts
    ok (accounts, suc (length rest))

  unfoldable pub replay : Fields → Bytes → Result (Accounts × ℕ)
  unfolding after_header
  replay header raw = do
    raise_if (is_empty raw || not (ends_with_newline raw))
        "generator dispatch journal has a torn record"
    records ← traverse read_line (split_lines (drop_last raw))
    after_header header records
