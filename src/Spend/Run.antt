-- ===== src/Spend/Run.antt =====
-- Runs of a `SpendLedger` of skivolve/comparator_runtime.py: calls in any order, by whoever holds the
-- open reservations.
use skivolve.Base.{
  ℕ, ◌≤◌, ◌<◌, String, true, false, Option, none, List, [], ◌∷◌, ◌++◌, map, ◌≡◌, string_eq, ok, err,
  contains,
}
use mathlib.Core.Option.{map as option_map}
use skivolve.Base.Text.{is_hex}
use skivolve.Json.{Float, str, float}
use skivolve.Spend.Money.{Arithmetic, ExactBelow, zero_usd}
use skivolve.Spend.Ledger.{
  Codec, complete, refused, SpendLedger, Event, reserve_event, reconcile_event, forfeit_event,
  historical_event,
}
use skivolve.Spend.Calls.{
  SpendReservation, reserve, charge_historical, restore_reconciled, charged_amount, close_event,
}
use skivolve.Spend.Reservation.{close}
use skivolve.Spend.Refines.{IsBinding}

-- The attempt that a line is about.
abbrev pub attempt_of : Event → String
attempt_of (reserve_event id _ _ _) = id
attempt_of (reconcile_event id _ _ _) = id
attempt_of (forfeit_event id _ _ _) = id
attempt_of (historical_event id _ _ _) = id

-- A ledger, the outstanding reservations with their units, and the lines written, first to last.
pub record Run : Type 0 where
  pub ledger : SpendLedger
  pub outstanding : List (ℕ × SpendReservation)
  pub log : List Event

-- An entry of a list and the others.
pub data Picks {A : Type 0} : A → List A → List A → Type 0 where
  here : {x : A} {xs : List A} → Picks x (x ∷ xs) xs
  there : {x y : A} {xs rest : List A} → Picks x xs rest → Picks x (y ∷ xs) (y ∷ rest)

module _ {m : Arithmetic} {bound : ℕ} (money : ExactBelow m bound) (codec : Codec)
    (largest : ℕ) where
  -- One call: it returns, with its lines on the disk, or it raises before it writes. The amounts are
  -- whole units, a call asks for at most `largest` of them, and an attempt id is new.
  pub data Step : Run → Run → Type 0 where
    reserves :
        {s t : SpendLedger} {outstanding : List (ℕ × SpendReservation)} {log : List Event} (n : ℕ)
        (fresh request invocation : String) {r : SpendReservation}
        → n ≤ largest
        → 0 < n
        → is_hex 32 fresh ≡ true
        → contains fresh (map attempt_of log) ≡ false
        → IsBinding request invocation
        → reserve m codec complete fresh (money.usd n) request invocation s ≡ (t, ok r)
        → Step
            (record { ledger = s; outstanding = outstanding; log = log })
            (record {
              ledger = t;
              outstanding = (n, r) ∷ outstanding;
              log = log ++ reserve_event fresh (money.usd n) request invocation ∷ [];
            })
    charges :
        {s t : SpendLedger} {outstanding : List (ℕ × SpendReservation)} {log : List Event} (n : ℕ)
        (fresh request invocation : String) {updated : Float}
        → n ≤ largest
        → contains fresh (map attempt_of log) ≡ false
        → is_hex 32 fresh ≡ true
        → IsBinding request invocation
        → charge_historical m codec complete fresh (money.usd n) request invocation s
          ≡ (t, ok updated)
        → Step
            (record { ledger = s; outstanding = outstanding; log = log })
            (record {
              ledger = t;
              outstanding = outstanding;
              log = log ++ historical_event fresh (money.usd n) request invocation ∷ [];
            })
    closes :
        {s t : SpendLedger} {outstanding rest : List (ℕ × SpendReservation)} {log : List Event}
        (n : ℕ) (actual : Option ℕ) {r after : SpendReservation}
        → Picks (n, r) outstanding rest
        → close m codec complete (option_map money.usd actual) r s ≡ ((after, t), ok tt)
        → Step
            (record { ledger = s; outstanding = outstanding; log = log })
            (record {
              ledger = t;
              outstanding = rest;
              log =
                  log
                  ++ close_event r.attempt_id
                      (option_map money.usd actual)
                      (charged_amount r.maximum_usd (option_map money.usd actual))
                      r.request_sha256
                      r.invocation_id
                    ∷ [];
            })
    -- A reservation of `k` units that an earlier run has reconciled at `n`.
    restores :
        {s t : SpendLedger} {outstanding : List (ℕ × SpendReservation)} {log : List Event} (n k : ℕ)
        (id request invocation : String) {updated : Float}
        → n ≤ largest
        → n ≤ k
        → 0 < k
        → is_hex 32 id ≡ true
        → contains id (map attempt_of log) ≡ false
        → IsBinding request invocation
        → restore_reconciled m codec complete complete
            (str id)
            (float (money.usd k))
            (float (money.usd n))
            request
            invocation
            s
          ≡ (t, ok updated)
        → Step
            (record { ledger = s; outstanding = outstanding; log = log })
            (record {
              ledger = t;
              outstanding = outstanding;
              log =
                  (log ++ reserve_event id (money.usd k) request invocation ∷ [])
                  ++ reconcile_event id (money.usd n) request invocation ∷ [];
            })
    reserve_raises :
        {s t : SpendLedger} {outstanding : List (ℕ × SpendReservation)} {log : List Event}
        (message fresh request invocation : String) (amount : Float) {e : String}
        → reserve m codec (refused message) fresh amount request invocation s ≡ (t, err e)
        → Step
            (record { ledger = s; outstanding = outstanding; log = log })
            (record { ledger = t; outstanding = outstanding; log = log })
    charge_raises :
        {s t : SpendLedger} {outstanding : List (ℕ × SpendReservation)} {log : List Event}
        (message fresh request invocation : String) (amount : Float) {e : String}
        → charge_historical m codec (refused message) fresh amount request invocation s ≡ (t, err e)
        → Step
            (record { ledger = s; outstanding = outstanding; log = log })
            (record { ledger = t; outstanding = outstanding; log = log })
    close_raises :
        {s t : SpendLedger} {outstanding : List (ℕ × SpendReservation)} {log : List Event}
        (message : String) (actual : Option Float) (r : SpendReservation) {after : SpendReservation}
        {e : String}
        → close m codec (refused message) actual r s ≡ ((after, t), err e)
        → Step
            (record { ledger = s; outstanding = outstanding; log = log })
            (record { ledger = t; outstanding = outstanding; log = log })

  -- A new ledger with an absent journal.
  abbrev pub started : ℕ → Run
  started ceiling = record {
    ledger = record {
      maximum_usd = money.usd ceiling;
      spent_usd = zero_usd;
      reserved_usd = zero_usd;
      has_journal_path = true;
      journal = none;
      journal_records = 0;
    };
    outstanding = [];
    log = [];
  }

  pub data Reaches (ceiling : ℕ) : Run → Type 0 where
    start : Reaches ceiling (started ceiling)
    step : {run next : Run} → Reaches ceiling run → Step run next → Reaches ceiling next
