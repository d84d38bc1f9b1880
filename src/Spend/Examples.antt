-- ===== src/Spend/Examples.antt =====
-- A concrete ledger for skivolve/comparator_runtime.py: amounts in whole units, and two lines of the
-- journal.
use skivolve.Base.{
  ℕ, ◌+◌, ◌-◌, String, true, false, not, none, some, List, [], ◌∷◌, map, ◌≡◌, refl, ap, arith, ◌==◌,
  nat_eq, string_eq, list_eq, if◌then◌else◌, ltb, contains, ok, err,
}
use skivolve.Base.Int.{pos}
use skivolve.Base.Text.{is_hex, is_hex_digit, is_digit, codes}
use skivolve.Json.{obj, str, float, Float, finite, not_a_number}
use skivolve.Spend.Money.{
  Arithmetic, ExactBelow, sum, less, is_finite, not_positive, zero_usd, finite_nonnegative,
}
use skivolve.Spend.Ledger.{
  Codec, complete, torn, SpendLedger, Event, reserve_event, reconcile_event, event_record,
  validate_spend_binding, append_journal,
}
use skivolve.Spend.Calls.{
  after_checks, after_append, SpendReservation, reserve, finish, restore_reconciled,
  restored_attempt,
}
use skivolve.Spend.Turns.{Comes, begun, turn, takes, restores, reserve_fails}
use skivolve.Spend.Reservation.{close}
use skivolve.Spend.Lines.{Reloads}
use skivolve.Spend.Run.{Run, reserves, Reaches, start, step}

abbrev pub add_units : Float → Float → Float
add_units (finite (pos a)) (finite (pos b)) = finite (pos (a + b))
add_units _ _ = not_a_number

abbrev pub take_units : Float → Float → Float
take_units (finite (pos a)) (finite (pos b)) = finite (pos (a - b))
take_units _ _ = not_a_number

abbrev pub add_all : List Float → Float
add_all [] = zero_usd
add_all (x ∷ xs) = add_units x (add_all xs)

abbrev pub whole : Arithmetic
whole = record {
  plus = add_units;
  minus = take_units;
  total = add_all;
  of_int = λ n. some (finite n);
}

abbrev pub unit_usd : ℕ → Float
unit_usd n = finite (pos n)

pub add_all-sum : (ns : List ℕ) → add_all (map unit_usd ns) ≡ unit_usd (sum ns)
add_all-sum [] = refl
add_all-sum (n ∷ ns) = ap (λ x. add_units (unit_usd n) x) (add_all-sum ns)

pub unit_finite : (n : ℕ) → is_finite (unit_usd n) ≡ true
unfolding is_finite
unit_finite n = refl

pub unit_positive : (n : ℕ) → not_positive (unit_usd n) ≡ not (ltb 0 n)
unfolding not_positive
unit_positive n = refl

pub unit_less : (j k : ℕ) → less (unit_usd j) (unit_usd k) ≡ ltb j k
unfolding less
unit_less j k = refl

abbrev pub whole_units : ExactBelow whole 1000
whole_units = record {
  usd = unit_usd;
  usd_zero = refl;
  usd_finite = unit_finite;
  usd_positive = unit_positive;
  usd_less = unit_less;
  plus_exact = λ j k room. refl;
  minus_exact = λ j k below room. refl;
  total_exact = λ ns room. add_all-sum ns;
}

abbrev pub id_text : String
id_text = "0123456789abcdef0123456789abcdef"

abbrev pub digest : String
digest = "0123456789abcdef0123456789abcdef0123456789abcdef0123456789abcdef"

abbrev pub reserve_line : Event
reserve_line = reserve_event id_text (unit_usd 3) digest digest

-- A writer and a reader of that one line.
abbrev pub one_line : Codec
one_line = record {
  dumps = λ v. 1 ∷ [];
  loads = λ raw. if raw == 1 ∷ [] then some (obj (event_record reserve_line)) else none;
}

pub reserve_line-Reloads : Reloads one_line reserve_line
unfolding contains event_record
reserve_line-Reloads = record {
  no_lf = refl;
  no_cr = refl;
  fields = event_record reserve_line;
  loaded = refl;
  canonical = refl;
  reads = λ key. refl;
  same_keys = λ ks. refl;
}

abbrev pub reservation : SpendReservation
reservation = record {
  attempt_id = id_text;
  maximum_usd = unit_usd 3;
  request_sha256 = digest;
  invocation_id = digest;
  finished = false;
}

-- A ledger of ten units with a journal, before and after a reservation of three.
abbrev pub fresh_ledger : SpendLedger
fresh_ledger = record {
  maximum_usd = unit_usd 10;
  spent_usd = unit_usd 0;
  reserved_usd = unit_usd 0;
  has_journal_path = true;
  journal = none;
  journal_records = 0;
}

abbrev pub reserved_ledger : SpendLedger
reserved_ledger = record fresh_ledger {
  reserved_usd = unit_usd 3;
  journal = some (1 ∷ 10 ∷ []);
  journal_records = 1;
}

abbrev pub closed_ledger : SpendLedger
closed_ledger = record fresh_ledger {
  spent_usd = unit_usd 2;
  journal = some (1 ∷ 10 ∷ 1 ∷ 10 ∷ []);
  journal_records = 2;
}

pub hex_id : is_hex 32 id_text ≡ true
unfolding is_hex codes is_hex_digit is_digit
hex_id = refl

pub hex_digest : is_hex 64 digest ≡ true
unfolding is_hex codes is_hex_digit is_digit
hex_digest = refl

pub reserved :
    reserve whole one_line complete id_text (unit_usd 3) digest digest fresh_ledger
    ≡ (reserved_ledger, ok reservation)
unfolding reserve after_checks after_append validate_spend_binding is_hex codes is_hex_digit
    is_digit is_finite not_positive less append_journal
reserved = refl

pub closed :
    close whole one_line complete (some (unit_usd 2)) reservation reserved_ledger
    ≡ ((record reservation { finished = true }, closed_ledger), ok tt)
unfolding close finish after_checks after_append validate_spend_binding is_hex codes is_hex_digit
    is_digit less append_journal
closed = refl

-- The run after the reservation.
abbrev pub reserved_run : Run
reserved_run = record {
  ledger = reserved_ledger;
  outstanding = (3, reservation) ∷ [];
  log = reserve_line ∷ [];
}

pub reserved_reached : Reaches whole_units one_line 5 10 reserved_run
unfolding contains
reserved_reached = step start (
    reserves 3 id_text digest digest (omega arith) (omega arith) hex_id refl
      (hex_digest, hex_digest) reserved)

-- A second reservation raises when one byte of its line is on the disk, and then a reservation of five
-- that an earlier run has reconciled at four is restored.
abbrev pub torn_ledger : SpendLedger
torn_ledger = record reserved_ledger { journal = some (1 ∷ 10 ∷ 1 ∷ []) }

abbrev pub restored_ledger : SpendLedger
restored_ledger = record reserved_ledger {
  spent_usd = unit_usd 4;
  journal = some (1 ∷ 10 ∷ 1 ∷ 1 ∷ 10 ∷ 1 ∷ 10 ∷ []);
  journal_records = 3;
}

pub torn_reserve :
    reserve whole one_line
      (torn 1 "no space left on device")
      id_text
      (unit_usd 4)
      digest
      digest
      reserved_ledger
    ≡ (torn_ledger, err "no space left on device")
unfolding reserve after_checks after_append validate_spend_binding is_hex codes is_hex_digit
    is_digit is_finite not_positive less append_journal
torn_reserve = refl

pub restored :
    restore_reconciled whole one_line complete complete
      (str id_text)
      (float (unit_usd 5))
      (float (unit_usd 4))
      digest
      digest
      torn_ledger
    ≡ (restored_ledger, ok (unit_usd 4))
unfolding restore_reconciled after_checks after_append validate_spend_binding is_hex codes
    is_hex_digit is_digit is_finite not_positive less append_journal finite_nonnegative
    restored_attempt
restored = refl

abbrev pub restored_run : Run
restored_run = record {
  ledger = restored_ledger;
  outstanding = (3, reservation) ∷ [];
  log =
      reserve_line
      ∷ reserve_event id_text (unit_usd 5) digest digest
      ∷ reconcile_event id_text (unit_usd 4) digest digest
      ∷ [];
}

pub restored-Comes : Comes whole_units one_line 5 10 restored_run
unfolding contains
restored-Comes =
    turn
      (turn
        (turn begun (
          takes (
            reserves 3 id_text digest digest (omega arith) (omega arith) hex_id refl
              (hex_digest, hex_digest) reserved)))
        (reserve_fails (torn 1 "no space left on device") id_text digest digest (unit_usd 4)
          torn_reserve))
      (restores 4 complete complete id_text digest digest (unit_usd 5) (omega arith) restored)
