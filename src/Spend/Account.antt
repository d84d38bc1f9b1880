-- ===== src/Spend/Account.antt =====
-- An account in whole units, and what it means that a `SpendLedger` of
-- skivolve/comparator_runtime.py stands for it.
use skivolve.Base.{
  ℕ, ◌+◌, ◌-◌, ◌≤◌, String, Option, none, some, ◌≡◌, if◌then◌else◌, ltb, Result, ok, err,
}
use skivolve.Spend.Money.{Arithmetic, ExactBelow}
use skivolve.Spend.Ledger.{SpendLedger}

-- The abstract account: nothing of the journal, of floats or of who holds what.
pub record Account : Type 0 where
  pub ceiling : ℕ
  pub spent : ℕ
  pub held : ℕ

-- What is committed never exceeds the ceiling.
abbrev pub IsCovered : Account → Type 0
IsCovered a = a.spent + a.held ≤ a.ceiling

-- Hold an amount for a call, if the account covers it.
abbrev pub hold : ℕ → Account → Option Account
hold n a =
    if ltb a.ceiling (a.spent + a.held + n) then none else some (record a { held = a.held + n })

-- Charge an amount that was spent earlier, if the account covers it.
abbrev pub charge : ℕ → Account → Option Account
charge n a =
    if ltb a.ceiling (a.spent + n + a.held) then none else some (record a { spent = a.spent + n })

-- Close a hold of one amount at the cost of another, which must not exceed it.
abbrev pub settle : ℕ → ℕ → Account → Option Account
settle reserved charged a =
    if ltb reserved charged
    then none
    else some (record a { held = a.held - reserved; spent = a.spent + charged })

module _ {m : Arithmetic} {bound : ℕ} (money : ExactBelow m bound) where
  -- The ledger's floats are the account's numbers, and the account is covered.
  pub record Represents (a : Account) (s : SpendLedger) : Type 0 where
    pub maximum_eq : s.maximum_usd ≡ money.usd a.ceiling
    pub spent_eq : s.spent_usd ≡ money.usd a.spent
    pub reserved_eq : s.reserved_usd ≡ money.usd a.held
    pub covered : IsCovered a

  -- What a call leaves: the account's outcome if there is one, else an exception and the ledger as it was.
  unfoldable pub Refines :
      {A : Type 0} → Option Account → SpendLedger → SpendLedger × Result A → Type 0
  Refines none before (after, result) =
      (after ≡ before) × ((message : String) × (result ≡ err message))
  Refines {A} (some a) before (after, result) =
      Represents a after × ((value : A) × (result ≡ ok value))
