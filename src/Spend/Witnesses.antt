-- ===== src/Spend/Witnesses.antt =====
-- The theorems about the ledger of skivolve/comparator_runtime.py at concrete inputs.
use mathlib.Core.Option.{map as option_map}
use skivolve.Base.{true, none, some, ◌≡◌, refl, arith, nat_eq, string_eq, list_eq, ok, err}
use skivolve.Json.{str, float}
use skivolve.Spend.Ledger.{complete, torn}
use skivolve.Spend.Calls.{reserve, charge_historical, restore_reconciled, finish}
use skivolve.Spend.Reservation.{reconcile, forfeit}
use skivolve.Spend.Account.{Represents, hold, charge, settle, Refines}
use skivolve.Spend.Implements.{calls-Refine}
use skivolve.Spend.Refines.{units_charged}
use skivolve.Spend.Failures.{KeepsOnError, raising_calls_keep_amounts, close-once}
use skivolve.Spend.Held.{IsAccounted}
use skivolve.Spend.Turns.{Comes-IsAccounted}
use skivolve.Spend.Transport.{transport_spend}
use skivolve.Spend.Settled.{transport_spend-Represents}
use skivolve.Spend.Examples.{
  whole, unit_usd, whole_units, id_text, digest, one_line, reservation, reserved_ledger,
  closed_ledger, restored_run, hex_id, hex_digest, closed, restored-Comes,
}

calls-Refine_example :
    Refines whole_units
      (hold 4 (record { ceiling = 10; spent = 0; held = 3 }))
      reserved_ledger
      (reserve whole one_line complete id_text (unit_usd 4) digest digest reserved_ledger)
    × Refines whole_units
        (charge 4 (record { ceiling = 10; spent = 0; held = 3 }))
        reserved_ledger
        (charge_historical whole one_line complete id_text
          (unit_usd 4)
          digest
          digest
          reserved_ledger)
    × Refines whole_units
        (settle 3 (units_charged 3 (some 2)) (record { ceiling = 10; spent = 0; held = 3 }))
        reserved_ledger
        (finish whole one_line complete id_text
          (unit_usd 3)
          (option_map unit_usd (some 2))
          digest
          digest
          reserved_ledger)
calls-Refine_example =
    calls-Refine whole_units one_line (record { ceiling = 10; spent = 0; held = 3 }) reserved_ledger
      4 3 (some 2) id_text digest digest
      (record { maximum_eq = refl; spent_eq = refl; reserved_eq = refl; covered = omega arith })
      hex_id (hex_digest, hex_digest) (omega arith) (omega arith) (omega arith)

Comes-IsAccounted_example : IsAccounted whole_units 10 restored_run
Comes-IsAccounted_example =
    Comes-IsAccounted whole_units one_line 5 10 (omega arith) restored_run restored-Comes

raising_calls_keep_amounts_example :
    KeepsOnError reserved_ledger (
      reserve whole one_line
        (torn 1 "No space left on device")
        id_text
        (unit_usd 3)
        digest
        digest
        reserved_ledger)
    × KeepsOnError reserved_ledger (
        charge_historical whole one_line
          (torn 1 "No space left on device")
          id_text
          (unit_usd 2)
          digest
          digest
          reserved_ledger)
    × KeepsOnError reserved_ledger (
        restore_reconciled whole one_line
          (torn 1 "No space left on device")
          complete
          (str id_text)
          (float (unit_usd 3))
          (float (unit_usd 2))
          digest
          digest
          reserved_ledger)
    × KeepsOnError reserved_ledger (
        finish whole one_line
          (torn 1 "No space left on device")
          id_text
          (unit_usd 3)
          none
          digest
          digest
          reserved_ledger)
raising_calls_keep_amounts_example =
    raising_calls_keep_amounts whole one_line (torn 1 "No space left on device") complete
      reserved_ledger id_text digest digest (unit_usd 3) (unit_usd 2) none (str id_text)
      (float (unit_usd 3)) (float (unit_usd 2))

close-once_example :
    (reconcile whole one_line complete
        (unit_usd 1)
        (record reservation { finished = true })
        closed_ledger
      ≡ (
        (record reservation { finished = true }, closed_ledger),
        err "comparator spend reservation is already closed",
      ))
    × (forfeit whole one_line complete (record reservation { finished = true }) closed_ledger
        ≡ ((record reservation { finished = true }, closed_ledger), ok tt))
close-once_example =
    close-once whole one_line complete reserved_ledger closed_ledger (some (unit_usd 2)) reservation
      (record reservation { finished = true }) closed complete (unit_usd 1) closed_ledger

transport_spend-Represents_example :
    Represents whole_units
      (record { ceiling = 10; spent = 4; held = 3 })
      ((transport_spend whole one_line complete complete complete id_text
        (unit_usd 4)
        digest
        digest
        (err "Claude comparator exited")
        reserved_ledger).0)
transport_spend-Represents_example =
    transport_spend-Represents whole_units one_line (record { ceiling = 10; spent = 0; held = 3 })
      reserved_ledger 4 (err "Claude comparator exited") id_text digest digest
      (record { maximum_eq = refl; spent_eq = refl; reserved_eq = refl; covered = omega arith })
      hex_id (hex_digest, hex_digest) (omega arith) (omega arith)
