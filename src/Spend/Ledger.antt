-- ===== src/Spend/Ledger.antt =====
-- `SpendLedger` of skivolve/comparator_runtime.py: its state, its journal's records and the calls that
-- charge it.
use skivolve.Base.{
  ℕ, zero, suc, String, Bool, ◌||◌, not, Option, none, some, [], ◌∷◌, ◌++◌, if◌then◌else◌, Result,
  ok, err, ◌>>◌, raise_if,
}
use skivolve.Base.Text.{is_hex}
use skivolve.Json.{Value, float, str, obj, Float, Fields, end, field}
use skivolve.Artifacts.Text.{Bytes}

-- Python's JSON writer, with sorted keys and ASCII only, and its reader, `none` where it raises.
pub record Codec : Type 0 where
  pub dumps : Value → Bytes
  pub loads : Bytes → Option Value

-- How the append of a line ends: all of it is on the disk, a check of the file or its opening raises,
-- or the write itself raises and leaves the first bytes there.
pub data Write : Type 0 where
  complete : Write
  refused : String → Write
  torn : ℕ → String → Write

-- The fields of a ledger. `journal` is the file under `journal_path`, absent at first.
pub record SpendLedger : Type 0 where
  pub maximum_usd : Float
  pub spent_usd : Float
  pub reserved_usd : Float
  pub has_journal_path : Bool
  pub journal : Option Bytes
  pub journal_records : ℕ

-- A line of the journal.
pub data Event : Type 0 where
  reserve_event : String → Float → String → String → Event
  reconcile_event : String → Float → String → String → Event
  forfeit_event : String → Float → String → String → Event
  historical_event : String → Float → String → String → Event

abbrev reserved_record : String → Float → String → String → Fields
reserved_record attempt amount request invocation = field "event" (str "reserve") (
    field "attempt_id" (str attempt) (
      field "invocation_id" (str invocation)
        (field "request_sha256" (str request) (field "reserved_usd" (float amount) end))))

abbrev charged_record : String → String → Float → String → String → Fields
charged_record event attempt amount request invocation = field "event" (str event) (
    field "attempt_id" (str attempt) (
      field "charged_usd" (float amount)
        (field "invocation_id" (str invocation) (field "request_sha256" (str request) end))))

-- The dict literals that the calls journal.
unfoldable pub event_record : Event → Fields
event_record (reserve_event attempt amount request invocation) =
    reserved_record attempt amount request invocation
event_record (reconcile_event attempt amount request invocation) =
    charged_record "reconcile" attempt amount request invocation
event_record (forfeit_event attempt amount request invocation) =
    charged_record "forfeit" attempt amount request invocation
event_record (historical_event attempt amount request invocation) =
    charged_record "historical" attempt amount request invocation

-- `_validate_spend_binding`
unfoldable pub validate_spend_binding : Value → Value → Result (String × String)
unfolding is_hex
validate_spend_binding (str request) (str invocation) =
    raise_if (not (is_hex 64 request) || not (is_hex 64 invocation))
      "comparator spend request binding is invalid"
    >> ok (request, invocation)
validate_spend_binding _ _ = err "comparator spend request binding is invalid"

abbrev pub first_bytes : ℕ → Bytes → Bytes
first_bytes n [] = []
first_bytes zero (b ∷ bs) = []
first_bytes (suc n) (b ∷ bs) = b ∷ first_bytes n bs

abbrev pub existing : Option Bytes → Bytes
existing none = []
existing (some bs) = bs

-- The line of an event, its line end included.
abbrev pub line_of : Codec → Event → Bytes
line_of codec e = codec.dumps (obj (event_record e)) ++ 10 ∷ []

-- `_append_journal`
unfoldable pub append_journal :
    Codec → Write → Event → SpendLedger → SpendLedger × Result (Unit {0})
unfolding event_record
append_journal codec write e s =
    let line = line_of codec e in
    if s.has_journal_path
    then (elim write [
      | complete ↦ (
        record s {
          journal = some (existing s.journal ++ line);
          journal_records = suc s.journal_records;
        },
        ok tt,
      )
      | refused message ↦ (s, err message)
      | torn n message ↦
          (record s { journal = some (existing s.journal ++ first_bytes n line) }, err message)
    ])
    else (s, ok tt)
