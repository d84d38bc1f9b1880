-- ===== src/Spend/Implements.antt =====
-- The calls of `SpendLedger` in skivolve/comparator_runtime.py implement the abstract account.
use skivolve.Base.{ℕ, ◌+◌, ◌≤◌, ◌<◌, String, true, Option, ◌≡◌, arith}
use mathlib.Core.Option.{map as option_map}
use skivolve.Base.Text.{is_hex}
use skivolve.Spend.Money.{Arithmetic, ExactBelow}
use skivolve.Spend.Ledger.{Codec, complete, SpendLedger}
use skivolve.Spend.Calls.{reserve, charge_historical, finish}
use skivolve.Spend.Account.{Account, hold, charge, settle, Represents, Refines}
use skivolve.Spend.Refines.{
  IsBinding, units_charged, reserve-Refines, charge_historical-Refines, finish-Refines,
}

-- If the arithmetic is exact for whole units up to a bound, a ledger's floats stand for an account that
-- its ceiling covers, the ids are digests in hexadecimal, the ceiling and each amount together do not
-- exceed the bound, and the appends are complete, then: reserving a positive amount holds it if the
-- account covers it, a historical charge spends it if the account covers it, and closing a held
-- reservation, at its actual cost or in full, releases it and spends the cost if that is no more than
-- was reserved. Each call that the account does not allow raises and leaves the ledger as it was.
pub calls-Refine :
    {m : Arithmetic} {bound : ℕ} (money : ExactBelow m bound) (codec : Codec) (a : Account)
    (s : SpendLedger) (n reserved : ℕ) (actual : Option ℕ) (attempt request invocation : String)
    → Represents money a s
    → is_hex 32 attempt ≡ true
    → IsBinding request invocation
    → 0 < n
    → reserved ≤ a.held
    → a.ceiling + n ≤ bound
    → Refines money
        (hold n a)
        s
        (reserve m codec complete attempt (money.usd n) request invocation s)
      × Refines money
          (charge n a)
          s
          (charge_historical m codec complete attempt (money.usd n) request invocation s)
      × Refines money (settle reserved (units_charged reserved actual) a) s (
          finish m codec complete attempt
            (money.usd reserved)
            (option_map money.usd actual)
            request
            invocation
            s)
calls-Refine money codec a s n reserved actual attempt request invocation r hex binding positive
      owned room =
    (
      reserve-Refines money codec a s n attempt request invocation r binding positive room,
      charge_historical-Refines money codec a s n attempt request invocation r binding room,
      finish-Refines money codec a s reserved actual attempt request invocation r hex binding owned
          (omega (arith, room)),
    )
