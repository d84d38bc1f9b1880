-- ===== src/Spend/Refines.antt =====
-- The calls of `SpendLedger` in skivolve/comparator_runtime.py against the abstract account.
use skivolve.Base.{
  ℕ, ◌+◌, ◌≤◌, ◌<◌, String, true, false, Option, none, some, ◌≡◌, refl, ap, ◌∙◌, arith, ltb, lt→ltb,
  ok, Bool-cases, inl, inr,
}
use mathlib.Core.Option.{map as option_map}
use skivolve.Base.Text.{is_hex}
use skivolve.Json.{str}
use skivolve.Spend.Money.{Arithmetic, ExactBelow, less, zero_usd}
use skivolve.Spend.Ledger.{
  Codec, complete, SpendLedger, Event, reserve_event, historical_event, validate_spend_binding,
  append_journal,
}
use skivolve.Spend.Calls.{
  after_checks, after_append, reserve, charge_historical, charged_amount, close_event, finish,
}
use skivolve.Spend.Account.{Account, hold, charge, settle, Represents, Refines}

-- A complete append leaves the amounts alone.
record Kept (before after : SpendLedger) : Type 0 where
  maximum : after.maximum_usd ≡ before.maximum_usd
  spent : after.spent_usd ≡ before.spent_usd
  reserved : after.reserved_usd ≡ before.reserved_usd

appends :
    (codec : Codec) (e : Event) (s : SpendLedger)
    → ((append_journal codec complete e s).1 ≡ ok tt)
      × Kept s ((append_journal codec complete e s).0)
unfolding append_journal
appends codec e s = elim (Bool-cases s.has_journal_path) [
  | inl journalled ↦ rw journalled (refl, record { maximum = refl; spent = refl; reserved = refl })
  | inr plain ↦ rw plain (refl, record { maximum = refl; spent = refl; reserved = refl })
]

append_journal-complete :
    (codec : Codec) (e : Event) (s : SpendLedger)
    → (t : SpendLedger) × (append_journal codec complete e s ≡ (t, ok tt)) × Kept s t
append_journal-complete codec e s =
    let (appended, kept) = appends codec e s in
    let p = append_journal codec complete e s in (p.0, ap (λ result. (p.0, result)) appended, kept)

-- Both texts are SHA-256 digests in hexadecimal.
abbrev pub IsBinding : String → String → Type 0
IsBinding request invocation = (is_hex 64 request ≡ true) × (is_hex 64 invocation ≡ true)

validate_spend_binding-ok :
    (request invocation : String)
    → IsBinding request invocation
    → validate_spend_binding (str request) (str invocation) ≡ ok (request, invocation)
unfolding validate_spend_binding
validate_spend_binding-ok request invocation h = rw (h.0, h.1) refl

-- The charge of a close, in units: all that was reserved unless an actual cost is given.
abbrev pub units_charged : ℕ → Option ℕ → ℕ
units_charged reserved none = reserved
units_charged reserved (some actual) = actual

module _ {m : Arithmetic} {bound : ℕ} (money : ExactBelow m bound) (codec : Codec) where
  -- The guard of a call compares the account's numbers.
  over_eq :
      (a : Account) (s : SpendLedger) (n : ℕ)
      → Represents money a s
      → a.ceiling + n ≤ bound
      → less s.maximum_usd (m.plus (m.plus s.spent_usd s.reserved_usd) (money.usd n))
        ≡ ltb a.ceiling (a.spent + a.held + n)
  over_eq a s n r room =
      rw
        (
          r.maximum_eq,
          r.spent_eq,
          r.reserved_eq,
          money.plus_exact a.spent a.held (omega (arith, r.covered)),
          money.plus_exact (a.spent + a.held) n (omega (arith, r.covered)),
        )
        (money.usd_less a.ceiling (a.spent + a.held + n))

  pub reserve-Refines :
      (a : Account) (s : SpendLedger) (n : ℕ) (fresh request invocation : String)
      → Represents money a s
      → IsBinding request invocation
      → 0 < n
      → a.ceiling + n ≤ bound
      → Refines money
          (hold n a)
          s
          (reserve m codec complete fresh (money.usd n) request invocation s)
  unfolding reserve after_checks after_append Refines
  reserve-Refines a s n fresh request invocation r binding positive room =
      elim (Bool-cases (ltb a.ceiling (a.spent + a.held + n))) [
        | inl over ↦
            rw
              (
                over,
                validate_spend_binding-ok request invocation binding,
                money.usd_finite n,
                money.usd_positive n,
                lt→ltb 0 n positive,
                over_eq a s n r room,
                over,
              )
              (refl, ("comparator run lacks budget for another full invocation", refl))
        | inr within ↦
            let (t, appended, kept) =
              append_journal-complete codec (reserve_event fresh (money.usd n) request invocation)
                s in
            rw
              (
                within,
                validate_spend_binding-ok request invocation binding,
                money.usd_finite n,
                money.usd_positive n,
                lt→ltb 0 n positive,
                over_eq a s n r room,
                within,
                appended,
              )
              (
                record {
                  maximum_eq = kept.maximum ∙ r.maximum_eq;
                  spent_eq = kept.spent ∙ r.spent_eq;
                  reserved_eq =
                      rw (kept.reserved, r.reserved_eq)
                        (money.plus_exact a.held n (omega (arith, r.covered, room)));
                  covered = ground (arith, within);
                },
                (_, refl),
              )
      ]

  -- The guard of a historical charge compares the account's numbers.
  pub charge_over_eq :
      (a : Account) (s : SpendLedger) (n : ℕ)
      → Represents money a s
      → a.ceiling + n ≤ bound
      → less s.maximum_usd (m.plus (m.plus s.spent_usd (money.usd n)) s.reserved_usd)
        ≡ ltb a.ceiling (a.spent + n + a.held)
  charge_over_eq a s n r room =
      rw
        (
          r.maximum_eq,
          r.spent_eq,
          r.reserved_eq,
          money.plus_exact a.spent n (omega (arith, r.covered, room)),
          money.plus_exact (a.spent + n) a.held (omega (arith, r.covered, room)),
        )
        (money.usd_less a.ceiling (a.spent + n + a.held))

  pub not_negative : (n : ℕ) → less (money.usd n) zero_usd ≡ false
  not_negative n = rw (← money.usd_zero, money.usd_less n 0) (ground arith)

  pub charge_historical-Refines :
      (a : Account) (s : SpendLedger) (n : ℕ) (fresh request invocation : String)
      → Represents money a s
      → IsBinding request invocation
      → a.ceiling + n ≤ bound
      → Refines money
          (charge n a)
          s
          (charge_historical m codec complete fresh (money.usd n) request invocation s)
  unfolding charge_historical after_checks after_append Refines
  charge_historical-Refines a s n fresh request invocation r binding room =
      elim (Bool-cases (ltb a.ceiling (a.spent + n + a.held))) [
        | inl over ↦
            rw
              (
                over,
                validate_spend_binding-ok request invocation binding,
                money.usd_finite n,
                not_negative n,
                charge_over_eq a s n r room,
                over,
              )
              (refl, ("historical comparator spend exceeds the run limit", refl))
        | inr within ↦
            let (t, appended, kept) =
              append_journal-complete codec
                (historical_event fresh (money.usd n) request invocation) s in
            rw
              (
                within,
                validate_spend_binding-ok request invocation binding,
                money.usd_finite n,
                not_negative n,
                charge_over_eq a s n r room,
                within,
                appended,
              )
              (
                record {
                  maximum_eq = kept.maximum ∙ r.maximum_eq;
                  spent_eq =
                      rw r.spent_eq (money.plus_exact a.spent n (omega (arith, r.covered, room)));
                  reserved_eq = kept.reserved ∙ r.reserved_eq;
                  covered = ground (arith, within);
                },
                (_, refl),
              )
      ]

  charged_amount-units :
      (reserved : ℕ) (actual : Option ℕ)
      → charged_amount (money.usd reserved) (option_map money.usd actual)
        ≡ money.usd (units_charged reserved actual)
  charged_amount-units reserved none = refl
  charged_amount-units reserved (some actual) = refl

  pub finish-Refines :
      (a : Account) (s : SpendLedger) (reserved : ℕ) (actual : Option ℕ)
      (attempt request invocation : String)
      → Represents money a s
      → is_hex 32 attempt ≡ true
      → IsBinding request invocation
      → reserved ≤ a.held
      → a.ceiling ≤ bound
      → Refines money (settle reserved (units_charged reserved actual) a) s (
          finish m codec complete attempt
            (money.usd reserved)
            (option_map money.usd actual)
            request
            invocation
            s)
  unfolding finish after_checks after_append Refines
  finish-Refines a s reserved actual attempt request invocation r hex binding owned room =
      let charged = units_charged reserved actual in
      elim (Bool-cases (ltb reserved charged)) [
        | inl over ↦
            rw
              (
                over,
                validate_spend_binding-ok request invocation binding,
                hex,
                charged_amount-units reserved actual,
                not_negative charged,
                money.usd_less reserved charged,
                over,
              )
              (refl, ("comparator reservation reconciliation is invalid", refl))
        | inr within ↦
            let (t, appended, kept) =
              append_journal-complete codec
                (close_event attempt (option_map money.usd actual) (money.usd charged) request
                  invocation)
                s in
            rw
              (
                within,
                validate_spend_binding-ok request invocation binding,
                hex,
                charged_amount-units reserved actual,
                not_negative charged,
                money.usd_less reserved charged,
                within,
                appended,
              )
              (
                record {
                  maximum_eq = kept.maximum ∙ r.maximum_eq;
                  spent_eq =
                      rw (kept.spent, r.spent_eq)
                        (money.plus_exact a.spent charged
                          (ground (arith, r.covered, room, within, owned)));
                  reserved_eq =
                      rw (kept.reserved, r.reserved_eq)
                        (money.minus_exact a.held reserved owned (omega (arith, r.covered, room)));
                  covered = ground (arith, within, r.covered, owned);
                },
                (_, refl),
              )
      ]
