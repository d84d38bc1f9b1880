-- ===== src/Spend/Turns.antt =====
-- Every call of the `SpendLedger` of skivolve/comparator_runtime.py, whatever becomes of its appends:
-- the steps of a run, any restoration that returns, and calls that raise, also in the middle of a write.
use skivolve.Base.{ℕ, ◌+◌, ◌≤◌, String, Option, List, [], ◌∷◌, ◌++◌, ◌≡◌, arith, ok, err}
use skivolve.Json.{Value, str, float, Float}
use skivolve.Spend.Money.{Arithmetic, ExactBelow}
use skivolve.Spend.Ledger.{Codec, Write, SpendLedger, Event, reserve_event, reconcile_event}
use skivolve.Spend.Calls.{SpendReservation, reserve, charge_historical, restore_reconciled}
use skivolve.Spend.Reservation.{close}
use skivolve.Spend.Failures.{
  reserve-KeepsOnError, charge_historical-KeepsOnError, restore_reconciled-KeepsOnError,
  close-SameAmounts,
}
use skivolve.Spend.Run.{Run, Step, started}
use skivolve.Spend.Held.{IsAccounted, KeepsOnError-at}
use skivolve.Spend.Restoring.{restore_reconciled-Restored, restore_reconciled-IsAccounted}
use skivolve.Spend.Covered.{Step-IsAccounted, started-IsAccounted, raised}

module _ {m : Arithmetic} {bound : ℕ} (money : ExactBelow m bound) (codec : Codec) where
  module _ (largest : ℕ) where
    -- A step of a run, or a restoration that returns, or a call that raises, however its appends end:
    -- they are complete, refused, or torn after any number of bytes. The cost of a restoration is whole
    -- units, at most `largest` of them; the calls that raise have any arguments.
    pub data Turn : Run → Run → Type 0 where
      takes : {run next : Run} → Step money codec largest run next → Turn run next
      restores :
          {s t : SpendLedger} {outstanding : List (ℕ × SpendReservation)} {log : List Event} (n : ℕ)
          (first second : Write) (id request invocation : String) (reserved : Float)
          {updated : Float}
          → n ≤ largest
          → restore_reconciled m codec first second
              (str id)
              (float reserved)
              (float (money.usd n))
              request
              invocation
              s
            ≡ (t, ok updated)
          → Turn
              (record { ledger = s; outstanding = outstanding; log = log })
              (record {
                ledger = t;
                outstanding = outstanding;
                log =
                    log
                    ++ reserve_event id reserved request invocation
                      ∷ reconcile_event id (money.usd n) request invocation
                      ∷ [];
              })
      reserve_fails :
          {s t : SpendLedger} {outstanding : List (ℕ × SpendReservation)} {log : List Event}
          (write : Write) (fresh request invocation : String) (amount : Float) {e : String}
          → reserve m codec write fresh amount request invocation s ≡ (t, err e)
          → Turn
              (record { ledger = s; outstanding = outstanding; log = log })
              (record { ledger = t; outstanding = outstanding; log = log })
      charge_fails :
          {s t : SpendLedger} {outstanding : List (ℕ × SpendReservation)} {log : List Event}
          (write : Write) (fresh request invocation : String) (amount : Float) {e : String}
          → charge_historical m codec write fresh amount request invocation s ≡ (t, err e)
          → Turn
              (record { ledger = s; outstanding = outstanding; log = log })
              (record { ledger = t; outstanding = outstanding; log = log })
      close_fails :
          {s t : SpendLedger} {outstanding : List (ℕ × SpendReservation)} {log : List Event}
          (write : Write) (actual : Option Float) (r : SpendReservation) {after : SpendReservation}
          {e : String}
          → close m codec write actual r s ≡ ((after, t), err e)
          → Turn
              (record { ledger = s; outstanding = outstanding; log = log })
              (record { ledger = t; outstanding = outstanding; log = log })
      restore_fails :
          {s t : SpendLedger} {outstanding : List (ℕ × SpendReservation)} {log : List Event}
          (first second : Write) (attempt reserved cost : Value) (request invocation : String)
          {e : String}
          → restore_reconciled m codec first second attempt reserved cost request invocation s
            ≡ (t, err e)
          → Turn
              (record { ledger = s; outstanding = outstanding; log = log })
              (record { ledger = t; outstanding = outstanding; log = log })

    pub data Comes (ceiling : ℕ) : Run → Type 0 where
      begun : Comes ceiling (started money codec largest ceiling)
      turn : {run next : Run} → Comes ceiling run → Turn run next → Comes ceiling next

    module _ (ceiling : ℕ) (room : ceiling + largest ≤ bound) where
      Turn-IsAccounted :
          {run next : Run}
          → Turn run next
          → IsAccounted money ceiling run
          → IsAccounted money ceiling next
      Turn-IsAccounted (takes taken) h =
          (Step-IsAccounted money codec largest ceiling room taken h).0
      Turn-IsAccounted (restores {s} n first second id request invocation reserved small same) h =
          (restore_reconciled-IsAccounted money codec ceiling n (omega (arith, small, room))
            (restore_reconciled-Restored money codec first second (str id) (float reserved)
              (float (money.usd n)) request invocation s same)
            h).0
      Turn-IsAccounted (reserve_fails {s} write fresh request invocation amount same) h =
          raised money codec largest ceiling room h (
            KeepsOnError-at s _
              (reserve-KeepsOnError m codec write s fresh request invocation amount) same)
      Turn-IsAccounted (charge_fails {s} write fresh request invocation amount same) h =
          raised money codec largest ceiling room h (
            KeepsOnError-at s _
              (charge_historical-KeepsOnError m codec write s fresh request invocation amount) same)
      Turn-IsAccounted (close_fails {s} write actual r same) h =
          raised money codec largest ceiling room h
            (close-SameAmounts m codec write s actual r same)
      Turn-IsAccounted
            (restore_fails {s} first second attempt reserved cost request invocation same) h =
          raised money codec largest ceiling room h (
            KeepsOnError-at s _
              (restore_reconciled-KeepsOnError m codec first s second attempt reserved cost request
                invocation)
              same)

      pub come : (run : Run) → Comes ceiling run → IsAccounted money ceiling run
      come _ begun = (started-IsAccounted money codec largest ceiling room).0
      come _ (turn before last) = Turn-IsAccounted last (come _ before)

-- If the arithmetic is exact for whole units up to a bound, and the ceiling and the largest amount of
-- a call together do not exceed the bound, then after any sequence of calls from a new ledger, there is
-- an account in whole units that the ledger's floats stand for: its ceiling is the ledger's, its held
-- amount is the sum of the open reservations, and spent and held together never exceed the ceiling. The
-- calls are `reserve`, `charge_historical`, the closing of a reservation and `restore_reconciled`, in
-- any order; each returns, with amounts of whole units, or raises, with any arguments, before, in or
-- after its write to the journal.
pub Comes-IsAccounted :
    {m : Arithmetic} {bound : ℕ} (money : ExactBelow m bound) (codec : Codec) (largest ceiling : ℕ)
    → ceiling + largest ≤ bound
    → (run : Run) → Comes money codec largest ceiling run
    → IsAccounted money ceiling run
Comes-IsAccounted money codec largest ceiling room run comes =
    come money codec largest ceiling room run comes
