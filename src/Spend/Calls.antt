-- ===== src/Spend/Calls.antt =====
-- The calls of `SpendLedger` in skivolve/comparator_runtime.py that journal and charge an amount.
use skivolve.Base.{
  String, Bool, false, ◌||◌, not, Option, none, some, Result, ok, err, ◌>>=◌, ◌>>◌, raise_if,
}
use skivolve.Base.Text.{is_hex}
use skivolve.Json.{Value, str, Float}
use skivolve.Spend.Money.{Arithmetic, less, not_positive, is_finite, zero_usd, finite_nonnegative}
use skivolve.Spend.Ledger.{
  Codec, Write, SpendLedger, Event, reserve_event, reconcile_event, forfeit_event, historical_event,
  validate_spend_binding, append_journal,
}

-- The rest of a call, once its checks have not raised.
unfoldable pub after_checks :
    {A B : Type 0} → SpendLedger → Result A → (A → SpendLedger × Result B) → SpendLedger × Result B
after_checks s (err e) next = (s, err e)
after_checks s (ok a) next = next a

-- The rest of a call, once its record is journalled.
unfoldable pub after_append :
    {A B : Type 0}
    → SpendLedger × Result A
    → (SpendLedger → SpendLedger × Result B)
    → SpendLedger × Result B
after_append (s, err e) next = (s, err e)
after_append (s, ok a) next = next s

-- The fields of a `SpendReservation`.
pub record SpendReservation : Type 0 where
  pub attempt_id : String
  pub maximum_usd : Float
  pub request_sha256 : String
  pub invocation_id : String
  pub finished : Bool

-- `actual is None` and the amount that is charged
abbrev pub charged_amount : Float → Option Float → Float
charged_amount reserved none = reserved
charged_amount reserved (some actual) = actual

abbrev pub close_event : String → Option Float → Float → String → String → Event
close_event attempt none charged request invocation =
    forfeit_event attempt charged request invocation
close_event attempt (some _) charged request invocation =
    reconcile_event attempt charged request invocation

-- The check of the attempt's id in `restore_reconciled`.
unfoldable pub restored_attempt : Value → Result String
restored_attempt (str id) =
    raise_if (not (is_hex 32 id)) "historical comparator reservation is invalid" >> ok id
restored_attempt _ = err "historical comparator reservation is invalid"

module _ (m : Arithmetic) (codec : Codec) where
  -- `reserve`; `fresh` is what `uuid.uuid4().hex` returns
  unfoldable pub reserve :
      Write → String → Float → String → String → SpendLedger → SpendLedger × Result SpendReservation
  unfolding validate_spend_binding is_finite not_positive less append_journal
  reserve write fresh maximum_call_usd request invocation s =
      after_checks s
        (validate_spend_binding (str request) (str invocation) >>= λ binding.
          raise_if (not (is_finite maximum_call_usd) || not_positive maximum_call_usd)
            "comparator reservation must be positive"
          >> (raise_if
              (less s.maximum_usd (m.plus (m.plus s.spent_usd s.reserved_usd) maximum_call_usd))
              "comparator run lacks budget for another full invocation"))
        λ _.
          after_append
            (append_journal codec write (reserve_event fresh maximum_call_usd request invocation) s)
            λ t. (
              record t { reserved_usd = m.plus t.reserved_usd maximum_call_usd },
              ok (record {
                attempt_id = fresh;
                maximum_usd = maximum_call_usd;
                request_sha256 = request;
                invocation_id = invocation;
                finished = false;
              }),
            )

  -- `charge_historical`
  unfoldable pub charge_historical :
      Write → String → Float → String → String → SpendLedger → SpendLedger × Result Float
  unfolding validate_spend_binding is_finite less append_journal
  charge_historical write fresh cost_usd request invocation s =
      let updated = m.plus s.spent_usd cost_usd in
      after_checks s
        (validate_spend_binding (str request) (str invocation) >>= λ binding.
          raise_if (not (is_finite cost_usd) || less cost_usd zero_usd)
            "historical comparator cost is invalid"
          >> (raise_if (less s.maximum_usd (m.plus updated s.reserved_usd))
              "historical comparator spend exceeds the run limit"))
        λ _.
          after_append
            (append_journal codec write (historical_event fresh cost_usd request invocation) s)
            λ t. (record t { spent_usd = updated }, ok updated)

  -- `restore_reconciled`, with how each of its two appends ends
  unfoldable pub restore_reconciled :
      Write
      → Write
      → Value
      → Value
      → Value
      → String
      → String
      → SpendLedger
      → SpendLedger × Result Float
  unfolding validate_spend_binding finite_nonnegative restored_attempt not_positive less
      append_journal
  restore_reconciled first second attempt reserved_usd cost_usd request invocation s =
      after_checks s
        (validate_spend_binding (str request) (str invocation) >>= λ binding.
          finite_nonnegative m cost_usd >>= λ cost.
          finite_nonnegative m reserved_usd >>= λ reserved. restored_attempt attempt >>= λ id.
          raise_if (not_positive reserved || less reserved cost)
            "historical comparator reservation is invalid"
          >> (raise_if (less s.maximum_usd (m.plus (m.plus s.spent_usd cost) s.reserved_usd))
                "historical comparator spend exceeds the run limit"
              >> ok (id, reserved, cost)))
        λ (id, reserved, cost).
          after_append (append_journal codec first (reserve_event id reserved request invocation) s)
            λ t.
              after_append
                (append_journal codec second (reconcile_event id cost request invocation) t)
                λ u.
                  let updated = m.plus s.spent_usd cost in
                  (record u { spent_usd = updated }, ok updated)

  -- `_finish`
  unfoldable pub finish :
      Write
      → String
      → Float
      → Option Float
      → String
      → String
      → SpendLedger
      → SpendLedger × Result (Unit {0})
  unfolding validate_spend_binding less append_journal
  finish write attempt reserved actual request invocation s =
      let charged = charged_amount reserved actual in
      after_checks s
        (validate_spend_binding (str request) (str invocation) >>= λ binding.
          raise_if (not (is_hex 32 attempt)) "comparator spend attempt identity is invalid"
          >> (raise_if (less charged zero_usd || less reserved charged)
              "comparator reservation reconciliation is invalid"))
        λ _.
          after_append
            (append_journal codec write (close_event attempt actual charged request invocation) s)
            λ t. (
              record t {
                reserved_usd = m.minus t.reserved_usd reserved;
                spent_usd = m.plus t.spent_usd charged;
              },
              ok tt,
            )
