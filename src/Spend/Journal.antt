-- ===== src/Spend/Journal.antt =====
-- `_restore_journal` and the constructor of `SpendLedger` in skivolve/comparator_runtime.py.
use skivolve.Base.{
  ◌*◌, String, Bool, true, false, ◌&&◌, ◌||◌, not, Option, none, some, List, [], ◌∷◌, ◌++◌, map,
  ◌==◌, nat_eq, string_eq, list_eq, if◌then◌else◌, ltb, length, contains, is_empty, is_none, Result,
  ok, err, ◌>>=◌, ◌>>◌, raise_if, or_raise,
}
use skivolve.Base.Text.{is_hex}
use skivolve.Base.Dict.{Dict, lookup, insert, values}
use skivolve.Json.{Value, str, arr, obj, Float, Fields, get_or_null, has_exactly, same_float}
use skivolve.Artifacts.Text.{Bytes}
use skivolve.Spend.Money.{Arithmetic, less, not_positive, is_finite, zero_usd, finite_nonnegative}
use skivolve.Spend.Ledger.{Codec, SpendLedger, validate_spend_binding}

-- `bytes.splitlines()`: a line ends at LF, CR or CR LF, and nothing follows the last line end.
unfoldable pub lines_from : Bool → Bytes → Bytes → List Bytes
lines_from after_cr line [] = if is_empty line then [] else line ∷ []
lines_from after_cr line (b ∷ bs) = elim (b == 10) [
  | true ↦ elim after_cr [ true ↦ lines_from false [] bs | false ↦ line ∷ lines_from false [] bs ]
  | false ↦ elim (b == 13) [
    | true ↦ line ∷ lines_from true [] bs
    | false ↦ lines_from false (line ++ b ∷ []) bs
  ]
]

abbrev pub splitlines : Bytes → List Bytes
splitlines raw = lines_from false [] raw

-- An entry of `attempts`.
pub record Attempt : Type 0 where
  pub reserved : Float
  pub charged : Option Float
  pub request : String
  pub invocation : String

-- The local variables of `_restore_journal`.
pub record Replay : Type 0 where
  pub attempts : Dict String Attempt
  pub seen : List String
  pub historical : Float

-- `event == "..."` where the event may be any JSON value
abbrev pub is_event : String → Value → Bool
is_event name (str s) = s == name
is_event name _ = false

-- A list or a dict cannot be looked up in a set.
abbrev is_unhashable : Value → Bool
is_unhashable (arr _) = true
is_unhashable (obj _) = true
is_unhashable _ = false

-- `_SPEND_ATTEMPT_RE.fullmatch(attempt_id)`
unfoldable pub attempt_text : Value → Result String
unfolding is_hex
attempt_text (str id) =
    raise_if (not (is_hex 32 id)) "comparator spend journal attempt id is invalid" >> ok id
attempt_text _ = err "comparator spend journal attempt id is invalid"

abbrev pub reserve_keys : List String
reserve_keys = "event" ∷ "attempt_id" ∷ "invocation_id" ∷ "request_sha256" ∷ "reserved_usd" ∷ []

abbrev pub charge_keys : List String
charge_keys = "event" ∷ "attempt_id" ∷ "charged_usd" ∷ "invocation_id" ∷ "request_sha256" ∷ []

-- The reservation that a line closes.
unfoldable pub unclosed : Option Attempt → Result Attempt
unclosed none = err "comparator spend close journal is invalid"
unclosed (some a) =
    raise_if (not (is_none a.charged)) "comparator spend close journal is invalid" >> ok a

-- Before the first line.
abbrev pub nothing_replayed : Replay
nothing_replayed = record { attempts = []; seen = []; historical = zero_usd }

-- `reserved if charged is None else charged`
abbrev pub owed : Attempt → Float
owed a = elim a.charged [ none ↦ a.reserved | some charged ↦ charged ]

module _ (m : Arithmetic) where
  -- The branch of a reservation.
  unfoldable pub replay_reserve : Fields → String → String → String → Replay → Result Replay
  unfolding finite_nonnegative not_positive contains get_or_null insert
  replay_reserve fields id request invocation r =
      finite_nonnegative m (get_or_null "reserved_usd" fields) >>= λ value.
      raise_if (not_positive value || contains id r.seen)
        "comparator spend reservation journal is invalid"
      >> ok (record r {
        seen = id ∷ r.seen;
        attempts =
            insert id
              (record {
                reserved = value;
                charged = none;
                request = request;
                invocation = invocation;
              })
              r.attempts;
      })

  -- The branch of a reconciliation or a forfeit.
  unfoldable pub replay_close : Bool → Fields → String → String → String → Replay → Result Replay
  unfolding finite_nonnegative less lookup unclosed same_float get_or_null insert
  replay_close is_forfeit fields id request invocation r =
      finite_nonnegative m (get_or_null "charged_usd" fields) >>= λ charged.
      unclosed (lookup id r.attempts) >>= λ a.
      raise_if
        (not (request == a.request)
          || not (invocation == a.invocation)
          || less a.reserved charged
          || is_forfeit && not (same_float charged a.reserved))
        "comparator spend reconciliation is invalid"
      >> ok (record r { attempts = insert id (record a { charged = some charged }) r.attempts })

  -- The branch of a historical charge.
  unfoldable pub replay_historical : Fields → String → Replay → Result Replay
  unfolding finite_nonnegative contains get_or_null
  replay_historical fields id r =
      raise_if (contains id r.seen) "historical comparator attempt is duplicated"
      >> (finite_nonnegative m (get_or_null "charged_usd" fields) >>= λ charged.
          ok (record r { seen = id ∷ r.seen; historical = m.plus r.historical charged }))

  -- The branches on the event and the keys of a line.
  unfoldable pub replay_event : Fields → String → String → String → Replay → Result Replay
  unfolding replay_reserve replay_close replay_historical has_exactly get_or_null
  replay_event fields id request invocation r =
      let event = get_or_null "event" fields in
      if is_event "reserve" event && has_exactly reserve_keys fields
      then replay_reserve fields id request invocation r
      else if is_unhashable event
      then err "unhashable type"
      else if (is_event "reconcile" event || is_event "forfeit" event)
          && has_exactly charge_keys fields
      then replay_close (is_event "forfeit" event) fields id request invocation r
      else if is_event "historical" event && has_exactly charge_keys fields
      then replay_historical fields id r
      else err "comparator spend journal event is invalid"

  -- A dict whose canonical bytes are the line it was read from.
  unfoldable pub canonical_fields : Codec → Bytes → Value → Result Fields
  canonical_fields codec line (obj fields) =
      raise_if (not (codec.dumps (obj fields) == line))
        "comparator spend journal is not canonical JSONL"
      >> ok fields
  canonical_fields codec line _ = err "comparator spend journal is not canonical JSONL"

  -- What a replay restores of the ledger.
  abbrev pub restored_usd : Replay → Float
  restored_usd r = m.plus r.historical (m.total (map owed (values r.attempts)))

  module _ (codec : Codec) where
    -- The body of the loop over the lines.
    unfoldable pub replay_line : Bytes → Replay → Result Replay
    unfolding canonical_fields attempt_text validate_spend_binding replay_event get_or_null
    replay_line line r =
        or_raise (codec.loads line) "comparator spend journal line is invalid" >>= λ value.
        canonical_fields codec line value >>= λ fields.
        attempt_text (get_or_null "attempt_id" fields) >>= λ id.
        validate_spend_binding (get_or_null "request_sha256" fields)
          (get_or_null "invocation_id" fields)
        >>= λ (request, invocation). replay_event fields id request invocation r

    unfoldable pub replay_lines : List Bytes → Replay → Result Replay
    unfolding replay_line
    replay_lines [] r = ok r
    replay_lines (line ∷ lines) r = replay_line line r >>= λ t. replay_lines lines t

    -- `_restore_journal`
    unfoldable pub restore_journal : SpendLedger → Result SpendLedger
    unfolding replay_lines
    restore_journal s = elim s.journal [
      | none ↦ ok s
      | some raw ↦
          raise_if (ltb (32 * 1024 * 1024) (length raw))
            "comparator spend journal exceeds byte limit"
          >> (replay_lines (splitlines raw) nothing_replayed >>= λ r.
              raise_if (less s.maximum_usd (restored_usd r))
                "restored comparator spend exceeds the run limit"
              >> ok (record s {
                spent_usd = restored_usd r;
                journal_records = length (splitlines raw);
              }))
    ]

    -- `SpendLedger(maximum_usd, journal_path)`, where the path holds the given file.
    unfoldable pub open_ledger : Float → Bool → Option Bytes → Result SpendLedger
    unfolding restore_journal is_finite not_positive
    open_ledger maximum_usd has_journal_path disk =
        raise_if (not (is_finite maximum_usd) || not_positive maximum_usd)
          "comparator run spend limit must be positive"
        >> (let empty : SpendLedger = record {
          maximum_usd = maximum_usd;
          spent_usd = zero_usd;
          reserved_usd = zero_usd;
          has_journal_path = has_journal_path;
          journal = disk;
          journal_records = 0;
        } in
            if has_journal_path then restore_journal empty else ok empty)
