-- ===== src/Spend/Failures.antt =====
-- Calls of `SpendLedger` in skivolve/comparator_runtime.py that raise.
use mathlib.Core.Path.{subst}
use skivolve.Base.{
  String, true, Option, ◌≡◌, refl, Result, ok, err, Bool-cases, inl, inr, ◌∙◌, ap, sym,
}
use skivolve.Json.{Float, Value}
use skivolve.Spend.Money.{Arithmetic}
use skivolve.Spend.Ledger.{
  Codec, Write, complete, refused, torn, SpendLedger, Event, reserve_event, reconcile_event,
  historical_event, append_journal,
}
use skivolve.Spend.Calls.{
  after_checks, after_append, SpendReservation, reserve, charge_historical, restore_reconciled,
  charged_amount, close_event, finish,
}
use skivolve.Spend.Reservation.{close, reconcile, forfeit, mark_finished}

-- The limit and the two amounts of a ledger are as before.
pub record SameAmounts (before after : SpendLedger) : Type 0 where
  pub maximum : after.maximum_usd ≡ before.maximum_usd
  pub spent : after.spent_usd ≡ before.spent_usd
  pub reserved : after.reserved_usd ≡ before.reserved_usd

-- If a call raises, then the amounts are as before.
pub record KeepsOnError {A : Type 0} (s : SpendLedger) (p : SpendLedger × Result A) : Type 0 where
  pub kept : (e : String) → p.1 ≡ err e → SameAmounts s (p.0)

SameAmounts-refl : (s : SpendLedger) → SameAmounts s s
SameAmounts-refl s = record { maximum = refl; spent = refl; reserved = refl }

pub append_journal-SameAmounts :
    (codec : Codec) (write : Write) (e : Event) (s : SpendLedger)
    → SameAmounts s ((append_journal codec write e s).0)
unfolding append_journal
append_journal-SameAmounts codec complete e s = elim (Bool-cases s.has_journal_path) [
  | inl journalled ↦ rw journalled (record { maximum = refl; spent = refl; reserved = refl })
  | inr plain ↦ rw plain (record { maximum = refl; spent = refl; reserved = refl })
]
append_journal-SameAmounts codec (refused message) e s = elim (Bool-cases s.has_journal_path) [
  | inl journalled ↦ rw journalled (record { maximum = refl; spent = refl; reserved = refl })
  | inr plain ↦ rw plain (record { maximum = refl; spent = refl; reserved = refl })
]
append_journal-SameAmounts codec (torn n message) e s = elim (Bool-cases s.has_journal_path) [
  | inl journalled ↦ rw journalled (record { maximum = refl; spent = refl; reserved = refl })
  | inr plain ↦ rw plain (record { maximum = refl; spent = refl; reserved = refl })
]

ok-KeepsOnError : {A : Type 0} (s t : SpendLedger) (a : A) → KeepsOnError s (t, ok a)
ok-KeepsOnError s t a = record { kept = λ e raised. absurd (cc raised) }

after_checks-KeepsOnError :
    {A B : Type 0} (s : SpendLedger) (r : Result A) (next : A → SpendLedger × Result B)
    → ((a : A) → KeepsOnError s (next a))
    → KeepsOnError s (after_checks s r next)
unfolding after_checks
after_checks-KeepsOnError s (err e) next h = record { kept = λ _ _. SameAmounts-refl s }
after_checks-KeepsOnError s (ok a) next h = h a

after_append-KeepsOnError :
    {A B : Type 0} (s : SpendLedger) (p : SpendLedger × Result A)
    (next : SpendLedger → SpendLedger × Result B)
    → SameAmounts s (p.0)
    → ((t : SpendLedger) → SameAmounts s t → KeepsOnError s (next t))
    → KeepsOnError s (after_append p next)
unfolding after_append
after_append-KeepsOnError s (t, err e) next same h = record { kept = λ _ _. same }
after_append-KeepsOnError s (t, ok a) next same h = h t same

pub SameAmounts-trans : {s t u : SpendLedger} → SameAmounts s t → SameAmounts t u → SameAmounts s u
SameAmounts-trans first second = record {
  maximum = second.maximum ∙ first.maximum;
  spent = second.spent ∙ first.spent;
  reserved = second.reserved ∙ first.reserved;
}

module _ (m : Arithmetic) (codec : Codec) (write : Write) (s : SpendLedger) where
  pub reserve-KeepsOnError :
      (fresh request invocation : String) (amount : Float)
      → KeepsOnError s (reserve m codec write fresh amount request invocation s)
  unfolding reserve
  reserve-KeepsOnError fresh request invocation amount = after_checks-KeepsOnError s _ _ λ _.
      after_append-KeepsOnError s _ _
        (append_journal-SameAmounts codec write (reserve_event fresh amount request invocation) s)
        λ t same. ok-KeepsOnError s _ _

  pub charge_historical-KeepsOnError :
      (fresh request invocation : String) (amount : Float)
      → KeepsOnError s (charge_historical m codec write fresh amount request invocation s)
  unfolding charge_historical
  charge_historical-KeepsOnError fresh request invocation amount =
      after_checks-KeepsOnError s _ _ λ _.
        after_append-KeepsOnError s _ _
          (append_journal-SameAmounts codec write (historical_event fresh amount request invocation)
            s)
          λ t same. ok-KeepsOnError s _ _

  pub restore_reconciled-KeepsOnError :
      (second : Write) (attempt reserved cost : Value) (request invocation : String)
      → KeepsOnError s
          (restore_reconciled m codec write second attempt reserved cost request invocation s)
  unfolding restore_reconciled
  restore_reconciled-KeepsOnError second attempt reserved cost request invocation =
      after_checks-KeepsOnError s _ _ λ checked.
        after_append-KeepsOnError s _ _
          (append_journal-SameAmounts codec write
            (reserve_event (checked.0) checked.1 request invocation) s)
          λ t same.
            after_append-KeepsOnError s _ _
              (SameAmounts-trans same (
                append_journal-SameAmounts codec second
                  (reconcile_event (checked.0) checked.2 request invocation) t))
              λ u again. ok-KeepsOnError s _ _

  finish-KeepsOnError :
      (attempt request invocation : String) (reserved : Float) (actual : Option Float)
      → KeepsOnError s (finish m codec write attempt reserved actual request invocation s)
  unfolding finish
  finish-KeepsOnError attempt request invocation reserved actual =
      after_checks-KeepsOnError s _ _ λ _.
        after_append-KeepsOnError s _ _
          (append_journal-SameAmounts codec write
            (close_event attempt actual (charged_amount reserved actual) request invocation) s)
          λ t same. ok-KeepsOnError s _ _

-- For every arithmetic, codec and ledger, however the appends end, torn lines included, and whatever
-- the arguments: a call of `reserve`, `charge_historical`, `restore_reconciled` or `_finish` that
-- raises leaves the limit, the spent and the reserved amount as they were.
pub raising_calls_keep_amounts :
    (m : Arithmetic) (codec : Codec) (first second : Write) (s : SpendLedger)
    (attempt request invocation : String) (reserved cost : Float) (actual : Option Float)
    (attempt_value reserved_value cost_value : Value)
    → KeepsOnError s (reserve m codec first attempt reserved request invocation s)
      × KeepsOnError s (charge_historical m codec first attempt cost request invocation s)
      × KeepsOnError s (
          restore_reconciled m codec first second attempt_value reserved_value cost_value request
            invocation s)
      × KeepsOnError s (finish m codec first attempt reserved actual request invocation s)
raising_calls_keep_amounts m codec first second s attempt request invocation reserved cost actual
      attempt_value reserved_value cost_value =
    (
      reserve-KeepsOnError m codec first s attempt request invocation reserved,
      charge_historical-KeepsOnError m codec first s attempt request invocation cost,
      restore_reconciled-KeepsOnError m codec first s second attempt_value reserved_value cost_value
          request invocation,
      finish-KeepsOnError m codec first s attempt request invocation reserved actual,
    )

mark_finished-KeepsOnError :
    (r : SpendReservation) (s : SpendLedger) (p : SpendLedger × Result (Unit {0}))
    {after : SpendReservation} {t : SpendLedger} {e : String}
    → KeepsOnError s p
    → mark_finished r p ≡ ((after, t), err e)
    → SameAmounts s t
mark_finished-KeepsOnError r s (u, err d) kept same =
    subst (SameAmounts s) (ap (λ x. x.0.1) same) (kept.kept d refl)
mark_finished-KeepsOnError r s (u, ok _) kept same = absurd (cc same)

-- A close that raises leaves the amounts as they were.
pub close-SameAmounts :
    (m : Arithmetic) (codec : Codec) (write : Write) (s : SpendLedger) (actual : Option Float)
    (r : SpendReservation) {after : SpendReservation} {t : SpendLedger} {e : String}
    → close m codec write actual r s ≡ ((after, t), err e)
    → SameAmounts s t
unfolding close
close-SameAmounts m codec write s actual r same =
    mark_finished-KeepsOnError r s _
      (finish-KeepsOnError m codec write s r.attempt_id r.request_sha256 r.invocation_id
        r.maximum_usd actual)
      same

mark_finished-finished :
    (r : SpendReservation) (p : SpendLedger × Result (Unit {0})) {after : SpendReservation}
    {t : SpendLedger}
    → mark_finished r p ≡ ((after, t), ok tt)
    → after.finished ≡ true
mark_finished-finished r (u, err d) same = absurd (cc same)
mark_finished-finished r (u, ok _) same = sym (ap (λ x. x.0.0.finished) same)

-- If a reservation closes, then every later `reconcile` of it raises and every later `forfeit` of it
-- returns, whatever the ledger and the way the append would end, and both leave the reservation and
-- the ledger as they are.
pub close-once :
    (m : Arithmetic) (codec : Codec) (write : Write) (s t : SpendLedger) (actual : Option Float)
    (r after : SpendReservation)
    → close m codec write actual r s ≡ ((after, t), ok tt)
    → (later : Write) (cost : Float) (u : SpendLedger)
    → (reconcile m codec later cost after u
        ≡ ((after, u), err "comparator spend reservation is already closed"))
      × (forfeit m codec later after u ≡ ((after, u), ok tt))
unfolding close reconcile forfeit
close-once m codec write s t actual r after same later cost u =
    let done = mark_finished-finished r _ same in rw done (refl, refl)
