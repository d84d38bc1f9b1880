-- ===== src/Spend/Restored.antt =====
-- Opening a `SpendLedger` of skivolve/comparator_runtime.py on the journal that another run has left.
use mathlib.Core.Option.{map as option_map}
use skivolve.Base.{ℕ, true, Option, map, ◌≡◌, ok, string_eq}
use skivolve.Artifacts.Text.{Bytes}
use skivolve.Spend.Money.{Arithmetic, ExactBelow, zero_usd}
use skivolve.Spend.Ledger.{Codec, SpendLedger}
use skivolve.Spend.Journal.{open_ledger}
use skivolve.Spend.Run.{Run}

module _ {m : Arithmetic} {bound : ℕ} (money : ExactBelow m bound) (codec : Codec) where
  -- A ledger opened on what a run has left on the disk.
  pub record Reopens (ceiling due : ℕ) (disk : Option Bytes) : Type 0 where
    pub ledger : SpendLedger
    pub opened : open_ledger m codec (money.usd ceiling) true disk ≡ ok ledger
    pub spent_eq : ledger.spent_usd ≡ money.usd due
    pub reserved_eq : ledger.reserved_usd ≡ zero_usd
    pub journal_kept : ledger.journal ≡ disk
