-- ===== src/Spend/Held.antt =====
-- The open reservations of skivolve/comparator_runtime.py, and what a call that returns leaves.
use mathlib.Core.Path.{subst}
use skivolve.Base.{
  ℕ, ◌+◌, String, Bool, true, false, Option, none, some, List, [], ◌∷◌, ◌≡◌, refl, ap, ◌∙◌, arith,
  if◌then◌else◌, All, Result, ok, err, Ensures-pure,
}
use skivolve.Base.Text.{is_hex}
use skivolve.Json.{Float}
use skivolve.Spend.Money.{Arithmetic, ExactBelow}
use skivolve.Spend.Ledger.{Codec, Write, SpendLedger, append_journal, reserve_event}
use skivolve.Spend.Calls.{after_checks, after_append, SpendReservation, reserve, finish}
use skivolve.Spend.Reservation.{close, mark_finished}
use skivolve.Spend.Account.{Account, Represents, Refines}
use skivolve.Spend.Refines.{IsBinding}
use skivolve.Spend.Failures.{SameAmounts, KeepsOnError}
use skivolve.Spend.Run.{Run, Picks, here, there}

-- The units of the open reservations.
abbrev pub units_of : List (ℕ × SpendReservation) → ℕ
units_of [] = 0
units_of ((n, r) ∷ held) = n + units_of held

pub units_of-Picks :
    {p : ℕ × SpendReservation} {xs rest : List (ℕ × SpendReservation)}
    → Picks p xs rest
    → units_of xs ≡ p.0 + units_of rest
units_of-Picks here = refl
units_of-Picks (there {x} {y} picked) = omega (arith, units_of-Picks picked)

pub All-Picks :
    {A : Type 0} (P : A → Type 0) {x : A} {xs rest : List A}
    → Picks x xs rest
    → All P xs
    → P x × All P rest
All-Picks P here h = h
All-Picks P (there picked) h = let (at, others) = All-Picks P picked h.1 in (at, (h.0, others))

pub if-some : (t : Bool) (c b : Account) → (if t then none else some c) ≡ some b → c ≡ b
if-some true c b same = absurd (cc same)
if-some false c b same = cc same

-- What a reservation returns is made of the call's arguments.
pub record Returns {A : Type 0} (P : A → Type 0) (p : SpendLedger × Result A) : Type 0 where
  pub at : (value : A) → p.1 ≡ ok value → P value

ok-Returns : {A : Type 0} (P : A → Type 0) (t : SpendLedger) (a : A) → P a → Returns P (t, ok a)
ok-Returns P t a h = record { at = λ b same. (Ensures-pure {P = P} a h).at b same }

after_checks-Returns :
    {A B : Type 0} (P : B → Type 0) (s : SpendLedger) (r : Result A)
    (next : A → SpendLedger × Result B)
    → ((a : A) → Returns P (next a))
    → Returns P (after_checks s r next)
unfolding after_checks
after_checks-Returns P s (err e) next h = record { at = λ b same. absurd (cc same) }
after_checks-Returns P s (ok a) next h = h a

after_append-Returns :
    {A B : Type 0} (P : B → Type 0) (p : SpendLedger × Result A)
    (next : SpendLedger → SpendLedger × Result B)
    → ((t : SpendLedger) → Returns P (next t))
    → Returns P (after_append p next)
unfolding after_append
after_append-Returns P (t, err e) next h = record { at = λ b same. absurd (cc same) }
after_append-Returns P (t, ok a) next h = h t

pub KeepsOnError-at :
    {A : Type 0} (s : SpendLedger) (p : SpendLedger × Result A) {t : SpendLedger} {e : String}
    → KeepsOnError s p
    → p ≡ (t, err e)
    → SameAmounts s t
KeepsOnError-at s p {t} {e} h same =
    subst (SameAmounts s) (ap (λ x. x.0) same) (h.kept e (ap (λ x. x.1) same))

mark_finished-ok :
    (r : SpendReservation) (p : SpendLedger × Result (Unit {0})) {after : SpendReservation}
    {t : SpendLedger}
    → mark_finished r p ≡ ((after, t), ok tt)
    → p ≡ (t, ok tt)
mark_finished-ok r (u, err d) same = absurd (cc same)
mark_finished-ok r (u, ok _) same = ap (λ x. (x.0.1, x.1)) same

mark_finished-err :
    (r : SpendReservation) (p : SpendLedger × Result (Unit {0})) {after : SpendReservation}
    {t : SpendLedger} {e : String}
    → mark_finished r p ≡ ((after, t), err e)
    → p ≡ (t, err e)
mark_finished-err r (u, err d) same = ap (λ x. (x.0.1, x.1)) same
mark_finished-err r (u, ok _) same = absurd (cc same)

pub close-raises :
    (m : Arithmetic) (codec : Codec) (write : Write) (s : SpendLedger) (actual : Option Float)
    (r : SpendReservation) {after : SpendReservation} {t : SpendLedger} {e : String}
    → close m codec write actual r s ≡ ((after, t), err e)
    → finish m codec write r.attempt_id r.maximum_usd actual r.request_sha256 r.invocation_id s
      ≡ (t, err e)
unfolding close
close-raises m codec write s actual r same = mark_finished-err r _ same

pub close-finish :
    (m : Arithmetic) (codec : Codec) (write : Write) (s : SpendLedger) (actual : Option Float)
    (r : SpendReservation) {after : SpendReservation} {t : SpendLedger}
    → close m codec write actual r s ≡ ((after, t), ok tt)
    → finish m codec write r.attempt_id r.maximum_usd actual r.request_sha256 r.invocation_id s
      ≡ (t, ok tt)
unfolding close
close-finish m codec write s actual r same = mark_finished-ok r _ same

module _ {m : Arithmetic} {bound : ℕ} (money : ExactBelow m bound) where
  -- A call that returns leaves the account that it computes.
  pub Refines-returns :
      {A : Type 0} (o : Option Account) (s : SpendLedger) (p : SpendLedger × Result A)
      {t : SpendLedger} {v : A}
      → Refines money o s p
      → p ≡ (t, ok v)
      → (b : Account) × (o ≡ some b) × Represents money b t
  unfolding Refines
  Refines-returns none s (u, r) h same = absurd (cc (h.1.1, same))
  Refines-returns (some b) s (u, r) h same =
      (b, refl, subst (Represents money b) (ap (λ x. x.0) same) h.0)

  pub Represents-Same :
      {s t : SpendLedger} (a : Account)
      → Represents money a s
      → SameAmounts s t
      → Represents money a t
  Represents-Same a r same = record {
    maximum_eq = same.maximum ∙ r.maximum_eq;
    spent_eq = same.spent ∙ r.spent_eq;
    reserved_eq = same.reserved ∙ r.reserved_eq;
    covered = r.covered;
  }

  -- An open reservation of some units.
  pub record IsHeld (held : ℕ × SpendReservation) : Type 0 where
    pub maximum_eq : held.1.maximum_usd ≡ money.usd (held.0)
    pub hex : is_hex 32 held.1.attempt_id ≡ true
    pub binding : IsBinding held.1.request_sha256 held.1.invocation_id
    pub is_open : held.1.finished ≡ false

  pub reserve-IsHeld :
      (codec : Codec) (write : Write) (n : ℕ) (fresh request invocation : String) (s : SpendLedger)
      → is_hex 32 fresh ≡ true
      → IsBinding request invocation
      → Returns
          (λ r. IsHeld (n, r))
          (reserve m codec write fresh (money.usd n) request invocation s)
  unfolding reserve
  reserve-IsHeld codec write n fresh request invocation s hex binding =
      after_checks-Returns _ s _ _ λ _.
        after_append-Returns _
          (append_journal codec write (reserve_event fresh (money.usd n) request invocation) s) _
          λ t.
            ok-Returns _ _ _
              (record { maximum_eq = refl; hex = hex; binding = binding; is_open = refl })

  -- The reservation that a call returns.
  pub reserve-reservation :
      (codec : Codec) (write : Write) (n : ℕ) (fresh request invocation : String) (s : SpendLedger)
      → Returns
          (λ r.
            (r.attempt_id ≡ fresh) × (r.request_sha256 ≡ request) × (r.invocation_id ≡ invocation))
          (reserve m codec write fresh (money.usd n) request invocation s)
  unfolding reserve
  reserve-reservation codec write n fresh request invocation s = after_checks-Returns _ s _ _ λ _.
      after_append-Returns _
        (append_journal codec write (reserve_event fresh (money.usd n) request invocation) s) _
        λ t. ok-Returns _ _ _ (refl, refl, refl)

  -- The account behind a run.
  pub record IsAccounted (ceiling : ℕ) (run : Run) : Type 0 where
    pub account : Account
    pub represents : Represents money account run.ledger
    pub ceiling_eq : account.ceiling ≡ ceiling
    pub held_eq : account.held ≡ units_of run.outstanding
    pub fit : All IsHeld run.outstanding
