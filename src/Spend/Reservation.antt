-- ===== src/Spend/Reservation.antt =====
-- `SpendReservation` of skivolve/comparator_runtime.py: a reservation closes once.
use skivolve.Base.{true, Option, none, some, if◌then◌else◌, Result, ok, err}
use skivolve.Json.{Float}
use skivolve.Spend.Money.{Arithmetic}
use skivolve.Spend.Ledger.{Codec, Write, SpendLedger}
use skivolve.Spend.Calls.{SpendReservation, finish}

-- `self._finished = True`, unless the ledger raised.
abbrev pub mark_finished :
    SpendReservation
    → SpendLedger × Result (Unit {0})
    → (SpendReservation × SpendLedger) × Result (Unit {0})
mark_finished r (s, err e) = ((r, s), err e)
mark_finished r (s, ok _) = ((record r { finished = true }, s), ok tt)

module _ (m : Arithmetic) (codec : Codec) where
  -- The call of `_finish` that both methods make.
  unfoldable pub close :
      Write
      → Option Float
      → SpendReservation
      → SpendLedger
      → (SpendReservation × SpendLedger) × Result (Unit {0})
  unfolding finish
  close write actual r s =
      mark_finished r
        (finish m codec write r.attempt_id r.maximum_usd actual r.request_sha256 r.invocation_id s)

  -- `reconcile`
  unfoldable pub reconcile :
      Write
      → Float
      → SpendReservation
      → SpendLedger
      → (SpendReservation × SpendLedger) × Result (Unit {0})
  unfolding close
  reconcile write actual r s =
      if r.finished
      then ((r, s), err "comparator spend reservation is already closed")
      else close write (some actual) r s

  -- `forfeit`
  unfoldable pub forfeit :
      Write → SpendReservation → SpendLedger → (SpendReservation × SpendLedger) × Result (Unit {0})
  unfolding close
  forfeit write r s = if r.finished then ((r, s), ok tt) else close write none r s
