-- ===== src/Spend/Transport.antt =====
-- How `run_transport` of skivolve/comparator_runtime.py spends: it reserves before the provider is
-- called, reconciles at the cost that the response reports, and forfeits whatever else happens.
use skivolve.Base.{String, Result, ok, err, ◌>>=◌, ◌>>◌, raise_if}
use skivolve.Json.{Float}
use skivolve.Spend.Money.{Arithmetic, less}
use skivolve.Spend.Ledger.{Codec, Write, SpendLedger}
use skivolve.Spend.Calls.{SpendReservation, reserve}
use skivolve.Spend.Reservation.{reconcile, forfeit}

-- The exception that leaves the `finally` clause: the one that entered it, unless `forfeit` raises.
abbrev pub raised_after :
    String → (SpendReservation × SpendLedger) × Result (Unit {0}) → SpendLedger × Result Float
raised_after e ((r, s), ok _) = (s, err e)
raised_after e ((r, s), err f) = (s, err f)

-- The cost, unless it exceeds the limit of a call.
unfoldable pub within_limit : Float → Result Float → Result Float
unfolding less
within_limit per_call response = response >>= λ cost.
    raise_if (less per_call cost) "comparator call exceeded the release-pinned per-call spend limit"
    >> ok cost

module _ (m : Arithmetic) (codec : Codec) (reconcile_write forfeit_write : Write) where
  -- After `reconcile`: the cost, or the `finally` clause.
  abbrev pub after_reconcile :
      Float → (SpendReservation × SpendLedger) × Result (Unit {0}) → SpendLedger × Result Float
  after_reconcile cost ((r, s), ok _) = (s, ok cost)
  after_reconcile cost ((r, s), err e) = raised_after e (forfeit m codec forfeit_write r s)

  -- The end of the `try` statement: `reconcile`, or the `finally` clause.
  abbrev pub after_response :
      SpendReservation → SpendLedger → Result Float → SpendLedger × Result Float
  after_response r s (err e) = raised_after e (forfeit m codec forfeit_write r s)
  after_response r s (ok cost) = after_reconcile cost (reconcile m codec reconcile_write cost r s)

  -- The `try` statement. `response` is the cost that the provider's response reports, or the
  -- exception of its execution, decoding or validation.
  unfoldable pub settle_response :
      Float → Result Float → SpendReservation → SpendLedger → SpendLedger × Result Float
  settle_response per_call response r s = after_response r s (within_limit per_call response)

  -- After `reserve`: the `try` statement, unless it raised.
  abbrev pub after_reserve :
      Float → Result Float → SpendLedger × Result SpendReservation → SpendLedger × Result Float
  after_reserve per_call response (s, err e) = (s, err e)
  after_reserve per_call response (s, ok r) = settle_response per_call response r s

  -- The reservation and the `try` statement.
  unfoldable pub transport_spend :
      Write
      → String
      → Float
      → String
      → String
      → Result Float
      → SpendLedger
      → SpendLedger × Result Float
  transport_spend reserve_write fresh per_call request invocation response s =
      after_reserve per_call response
        (reserve m codec reserve_write fresh per_call request invocation s)
