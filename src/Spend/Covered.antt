-- ===== src/Spend/Covered.antt =====
-- In every run of the `SpendLedger` of skivolve/comparator_runtime.py the spent and the reserved
-- amounts stand for an account that its ceiling covers.
use mathlib.Core.Path.{subst}
use mathlib.Core.Option.{map as option_map}
use skivolve.Base.{ℕ, ◌+◌, ◌-◌, ◌≤◌, Option, some, List, ◌≡◌, refl, sym, ap, ◌∙◌, arith, ok}
use skivolve.Json.{Float, str, float}
use skivolve.Spend.Money.{Arithmetic, ExactBelow}
use skivolve.Spend.Ledger.{Codec, complete, refused, SpendLedger, Event}
use skivolve.Spend.Calls.{SpendReservation, finish}
use skivolve.Spend.Reservation.{close}
use skivolve.Spend.Account.{Account, hold, charge, settle, Represents}
use skivolve.Spend.Refines.{
  reserve-Refines, charge_historical-Refines, finish-Refines, units_charged,
}
use skivolve.Spend.Failures.{
  SameAmounts, reserve-KeepsOnError, charge_historical-KeepsOnError, close-SameAmounts,
}
use skivolve.Spend.Run.{
  Run, Picks, Step, reserves, charges, closes, restores, reserve_raises, charge_raises,
  close_raises, started,
}
use skivolve.Spend.Restoring.{restore_reconciled-Restored, restore_reconciled-IsAccounted}
use skivolve.Spend.Held.{
  units_of-Picks, All-Picks, if-some, KeepsOnError-at, close-finish, Refines-returns,
  Represents-Same, IsHeld, reserve-IsHeld, IsAccounted,
}

module _ {m : Arithmetic} {bound : ℕ} (money : ExactBelow m bound) where
  module _ (codec : Codec) (largest ceiling : ℕ) (room : ceiling + largest ≤ bound) where
    remainder : (held all n others : ℕ) → held ≡ all → all ≡ n + others → held - n ≡ others
    remainder held all n others same split = omega (arith, same, split)

    closed_at :
        (s : SpendLedger) (r : SpendReservation) (actual : Option Float) {t : SpendLedger} {n : ℕ}
        → r.maximum_usd ≡ money.usd n
        → finish m codec complete r.attempt_id r.maximum_usd actual r.request_sha256 r.invocation_id
            s
          ≡ (t, ok tt)
        → finish m codec complete r.attempt_id
            (money.usd n)
            actual
            r.request_sha256
            r.invocation_id
            s
          ≡ (t, ok tt)
    closed_at s r actual {t} amount same =
        subst
          (λ x.
            finish m codec complete r.attempt_id x actual r.request_sha256 r.invocation_id s
            ≡ (t, ok tt))
          amount same

    -- A call that raises keeps the account.
    pub raised :
        {s t : SpendLedger} {outstanding : List (ℕ × SpendReservation)} {log : List Event}
        → IsAccounted money ceiling (record { ledger = s; outstanding = outstanding; log = log })
        → SameAmounts s t
        → IsAccounted money ceiling (record { ledger = t; outstanding = outstanding; log = log })
    raised h same = record {
      account = h.account;
      represents = Represents-Same money h.account h.represents same;
      ceiling_eq = h.ceiling_eq;
      held_eq = h.held_eq;
      fit = h.fit;
    }

    -- A close that returns settles the account.
    pub closed-settles :
        (s : SpendLedger) {t : SpendLedger} {outstanding rest : List (ℕ × SpendReservation)}
        {log : List Event} {n : ℕ} (actual : Option ℕ) (r : SpendReservation)
        {after : SpendReservation}
        → Picks (n, r) outstanding rest
        → (h : IsAccounted money ceiling
            (record { ledger = s; outstanding = outstanding; log = log }))
        → close m codec complete (option_map money.usd actual) r s ≡ ((after, t), ok tt)
        → (b : Account) × (settle n (units_charged n actual) h.account ≡ some b)
          × Represents money b t
    closed-settles s {n = n} actual r picked h same =
        let (held, others) = All-Picks (IsHeld money) picked h.fit in
        Refines-returns money (settle n (units_charged n actual) h.account) s _
          (finish-Refines money codec h.account s n actual r.attempt_id r.request_sha256
            r.invocation_id h.represents held.hex held.binding
            (omega (arith, h.held_eq, units_of-Picks picked)) (omega (arith, h.ceiling_eq, room)))
          (closed_at s r (option_map money.usd actual) held.maximum_eq
            (close-finish m codec complete s (option_map money.usd actual) r same))

    -- What a step does to the account.
    abbrev pub account_after :
        {run next : Run} → Step money codec largest run next → Account → Account
    account_after (reserves n _ _ _ _ _ _ _ _ _) a = record a { held = a.held + n }
    account_after (charges n _ _ _ _ _ _ _ _) a = record a { spent = a.spent + n }
    account_after (closes n actual _ _) a = record a {
      held = a.held - n;
      spent = a.spent + units_charged n actual;
    }
    account_after (restores n _ _ _ _ _ _ _ _ _ _ _) a = record a { spent = a.spent + n }
    account_after (reserve_raises _ _ _ _ _ _) a = a
    account_after (charge_raises _ _ _ _ _ _) a = a
    account_after (close_raises _ _ _ _) a = a

    -- Each step keeps an account behind the run.
    pub Step-IsAccounted :
        {run next : Run} (taken : Step money codec largest run next)
        (h : IsAccounted money ceiling run)
        → (after : IsAccounted money ceiling next) × (after.account ≡ account_after taken h.account)
    unfolding raised
    Step-IsAccounted
          (reserves {s} n fresh request invocation {r} small positive hex new binding same) h =
        let (b, took, after) =
          Refines-returns money (hold n h.account) s _
            (reserve-Refines money codec h.account s n fresh request invocation h.represents binding
              positive (omega (arith, h.ceiling_eq, small, room)))
            same in
        let sum_eq = if-some _ (record h.account { held = h.account.held + n }) b took in
        (
          record {
            account = b;
            represents = after;
            ceiling_eq = sym (ap (λ c. c.ceiling) sum_eq) ∙ h.ceiling_eq;
            held_eq = sym (ap (λ c. c.held) sum_eq) ∙ omega (arith, h.held_eq);
            fit = (
              (reserve-IsHeld money codec complete n fresh request invocation s hex binding).at r
                  (ap (λ x. x.1) same),
              h.fit,
            );
          },
          sym sum_eq,
        )
    Step-IsAccounted (charges {s} n fresh request invocation small new hex binding same) h =
        let (b, took, after) =
          Refines-returns money (charge n h.account) s _
            (charge_historical-Refines money codec h.account s n fresh request invocation
              h.represents binding (omega (arith, h.ceiling_eq, small, room)))
            same in
        let sum_eq = if-some _ (record h.account { spent = h.account.spent + n }) b took in
        (
          record {
            account = b;
            represents = after;
            ceiling_eq = sym (ap (λ c. c.ceiling) sum_eq) ∙ h.ceiling_eq;
            held_eq = sym (ap (λ c. c.held) sum_eq) ∙ h.held_eq;
            fit = h.fit;
          },
          sym sum_eq,
        )
    Step-IsAccounted (closes {s} {t} n actual {r} picked same) h =
        let (held, others) = All-Picks (IsHeld money) picked h.fit in
        let (b, took, after) = closed-settles s actual r picked h same in
        let sum_eq =
          if-some _
            (record h.account {
              held = h.account.held - n;
              spent = h.account.spent + units_charged n actual;
            })
            b took in
        (
          record {
            account = b;
            represents = after;
            ceiling_eq = sym (ap (λ c. c.ceiling) sum_eq) ∙ h.ceiling_eq;
            held_eq =
                sym (ap (λ c. c.held) sum_eq)
                ∙ remainder h.account.held _ n _ h.held_eq (units_of-Picks picked);
            fit = others;
          },
          sym sum_eq,
        )
    Step-IsAccounted
          (restores {s} n k id request invocation small below positive hex new binding same) h =
        restore_reconciled-IsAccounted money codec ceiling n (omega (arith, small, room))
          (restore_reconciled-Restored money codec complete complete (str id) (float (money.usd k))
            (float (money.usd n)) request invocation s same)
          h
    Step-IsAccounted (reserve_raises {s} message fresh request invocation amount same) h = (
      raised h (
          KeepsOnError-at s _
            (reserve-KeepsOnError m codec (refused message) s fresh request invocation amount)
            same),
      refl,
    )
    Step-IsAccounted (charge_raises {s} message fresh request invocation amount same) h = (
      raised h (
          KeepsOnError-at s _
            (charge_historical-KeepsOnError m codec (refused message) s fresh request invocation
              amount)
            same),
      refl,
    )
    Step-IsAccounted (close_raises {s} message actual r same) h =
        (raised h (close-SameAmounts m codec (refused message) s actual r same), refl)

    -- A new ledger stands for an account without spending.
    pub started-IsAccounted :
        (h : IsAccounted money ceiling (started money codec largest ceiling)) × (h.account
          ≡ record { ceiling = ceiling; spent = 0; held = 0 })
    started-IsAccounted = (
      record {
        account = record { ceiling = ceiling; spent = 0; held = 0 };
        represents = record {
          maximum_eq = refl;
          spent_eq = sym money.usd_zero;
          reserved_eq = sym money.usd_zero;
          covered = omega arith;
        };
        ceiling_eq = refl;
        held_eq = refl;
        fit = tt;
      },
      refl,
    )
