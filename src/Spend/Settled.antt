-- ===== src/Spend/Settled.antt =====
-- What a provider call costs the account behind the ledger of skivolve/comparator_runtime.py.
use mathlib.Core.Path.{subst}
use mathlib.Core.Option.{map as option_map}
use skivolve.Base.{
  ℕ, ◌+◌, ◌-◌, ◌≤◌, ◌<◌, String, true, false, Option, none, some, ◌≡◌, refl, sym, ap, ◌∙◌, arith,
  ltb, if◌then◌else◌, Result, ok, err, Bool-cases, inl, inr,
}
use skivolve.Base.Text.{is_hex}
use skivolve.Json.{Float}
use skivolve.Spend.Money.{Arithmetic, ExactBelow}
use skivolve.Spend.Ledger.{Codec, complete, SpendLedger}
use skivolve.Spend.Account.{Account, settle, hold, Represents, Refines}
use skivolve.Spend.Calls.{SpendReservation, reserve, finish}
use skivolve.Spend.Reservation.{mark_finished, close, reconcile, forfeit}
use skivolve.Spend.Refines.{IsBinding, units_charged, reserve-Refines, finish-Refines}
use skivolve.Spend.Held.{IsHeld, reserve-IsHeld}
use skivolve.Spend.Transport.{
  raised_after, after_reconcile, after_reserve, after_response, within_limit, settle_response,
  transport_spend,
}

mark_finished-returned :
    (r : SpendReservation) (p : SpendLedger × Result (Unit {0})) (v : Unit {0})
    → p.1 ≡ ok v
    → mark_finished r p ≡ ((record r { finished = true }, p.0), ok tt)
mark_finished-returned r (t, err e) v same = absurd (cc same)
mark_finished-returned r (t, ok _) v same = refl

some_injective : {A : Type 0} {x y : A} → some x ≡ some y → x ≡ y
some_injective h = cc h

module _ {m : Arithmetic} {bound : ℕ} (money : ExactBelow m bound) (codec : Codec) where
  returned_some :
      {A : Type 0} (o : Option Account) (b : Account) (s : SpendLedger) (p : SpendLedger × Result A)
      → o ≡ some b
      → Refines money o s p
      → Represents money b (p.0) × ((v : A) × (p.1 ≡ ok v))
  unfolding Refines
  returned_some none b s (t, r) same h = absurd (cc same)
  returned_some (some c) b s (t, r) same h =
      (subst (λ x. Represents money x t) (some_injective same) h.0, h.1)

  settle-some :
      (n c : ℕ) (a : Account)
      → ltb n c ≡ false
      → settle n c a ≡ some (record a { held = a.held - n; spent = a.spent + c })
  settle-some n c a h = rw h refl

  -- What a close within the reservation leaves.
  Closed : Account → SpendLedger → SpendReservation → ℕ → Option ℕ → Type 0
  Closed a s r n actual =
      (t : SpendLedger) × (close m codec complete (option_map money.usd actual) r s
        ≡ ((record r { finished = true }, t), ok tt))
      × Represents money (record a { held = a.held - n; spent = a.spent + units_charged n actual })
          t

  close-Closed :
      (a : Account) (s : SpendLedger) (r : SpendReservation) (n : ℕ) (actual : Option ℕ)
      → Represents money a s
      → IsHeld money (n, r)
      → n ≤ a.held
      → a.ceiling ≤ bound
      → ltb n (units_charged n actual) ≡ false
      → Closed a s r n actual
  unfolding Closed close
  close-Closed a s r n actual rep held owned room within =
      let done =
        finish-Refines money codec a s n actual r.attempt_id r.request_sha256 r.invocation_id rep
          held.hex held.binding owned room in
      let (after, (v, returned)) =
        returned_some _ _ s _ (settle-some n (units_charged n actual) a within) done in
      (
        _,
        ap
              (λ amount. mark_finished r (
                finish m codec complete r.attempt_id amount (option_map money.usd actual)
                  r.request_sha256 r.invocation_id s))
              held.maximum_eq
            ∙ mark_finished-returned r _ v returned,
        after,
      )

  -- The cost of a call in units: what the response reports, or the whole reservation.
  abbrev pub call_cost : ℕ → Result ℕ → ℕ
  call_cost n (err e) = n
  call_cost n (ok c) = if ltb n c then n else c

  abbrev pub in_usd : Result ℕ → Result Float
  in_usd (err e) = err e
  in_usd (ok c) = ok (money.usd c)

  -- The reservation is released and the cost is spent.
  abbrev pub Spends : Account → ℕ → ℕ → SpendLedger × Result Float → Type 0
  Spends a n cost p =
      Represents money (record a { held = a.held - n; spent = a.spent + cost }) (p.0)

  forfeit_open :
      (r : SpendReservation) (s : SpendLedger)
      → r.finished ≡ false
      → forfeit m codec complete r s ≡ close m codec complete none r s
  unfolding forfeit
  forfeit_open r s h = rw h refl

  reconcile_open :
      (cost : Float) (r : SpendReservation) (s : SpendLedger)
      → r.finished ≡ false
      → reconcile m codec complete cost r s ≡ close m codec complete (some cost) r s
  unfolding reconcile
  reconcile_open cost r s h = rw h refl

  -- The `finally` clause of an open reservation.
  forfeits :
      (message : String) (a : Account) (s : SpendLedger) (r : SpendReservation) (n : ℕ)
      → Represents money a s
      → IsHeld money (n, r)
      → n ≤ a.held
      → a.ceiling ≤ bound
      → Spends a n n (raised_after message (forfeit m codec complete r s))
  unfolding Closed
  forfeits message a s r n rep held owned room =
      let (t, closed, after) = close-Closed a s r n none rep held owned room (ground arith) in
      subst (λ p. Spends a n n (raised_after message p))
        (sym (forfeit_open r s held.is_open ∙ closed)) after

  within_limit-over :
      (n c : ℕ)
      → ltb n c ≡ true
      → within_limit (money.usd n) (ok (money.usd c))
        ≡ err "comparator call exceeded the release-pinned per-call spend limit"
  unfolding within_limit
  within_limit-over n c h = rw (money.usd_less n c, h) refl

  within_limit-ok :
      (n c : ℕ) → ltb n c ≡ false → within_limit (money.usd n) (ok (money.usd c)) ≡ ok (money.usd c)
  unfolding within_limit
  within_limit-ok n c h = rw (money.usd_less n c, h) refl

  settle_response-Spends :
      (a : Account) (s : SpendLedger) (r : SpendReservation) (n : ℕ) (response : Result ℕ)
      → Represents money a s
      → IsHeld money (n, r)
      → n ≤ a.held
      → a.ceiling ≤ bound
      → Spends a n
          (call_cost n response)
          (settle_response m codec complete complete (money.usd n) (in_usd response) r s)
  unfolding settle_response within_limit Closed
  settle_response-Spends a s r n (err e) rep held owned room =
      forfeits e a s r n rep held owned room
  settle_response-Spends a s r n (ok c) rep held owned room = elim (Bool-cases (ltb n c)) [
    | inl over ↦
        subst (λ p. Spends a n (call_cost n (ok c)) p)
          (sym (ap (after_response m codec complete complete r s) (within_limit-over n c over)))
          (rw over (forfeits _ a s r n rep held owned room))
    | inr within ↦
        let (t, closed, after) = close-Closed a s r n (some c) rep held owned room within in
        subst (λ p. Spends a n (call_cost n (ok c)) p)
          (sym (
            ap (after_response m codec complete complete r s) (within_limit-ok n c within)
            ∙ ap (after_reconcile m codec complete complete (money.usd c))
                (reconcile_open (money.usd c) r s held.is_open ∙ closed)))
          (rw within after)
  ]

  -- The account after a call of the provider.
  abbrev pub transport_account : ℕ → Result ℕ → Account → Account
  transport_account n response a =
      if ltb a.ceiling (a.spent + a.held + n)
      then a
      else record a { spent = a.spent + call_cost n response }

  after_reserve-refused :
      (o : Option Account) (a : Account) (s t : SpendLedger) (n : ℕ) (response : Result ℕ)
      (result : Result SpendReservation)
      → o ≡ none
      → Refines money o s (t, result)
      → Represents money a s
      → Represents money a
          ((after_reserve m codec complete complete (money.usd n) (in_usd response) (t, result)).0)
  unfolding Refines
  after_reserve-refused (some b) a s t n response result same h rep = absurd (cc same)
  after_reserve-refused none a s t n response (err e) same h rep =
      subst (Represents money a) (sym h.0) rep
  after_reserve-refused none a s t n response (ok r) same h rep = absurd (cc h.1.1)

  after_reserve-Spends :
      (o : Option Account) (b : Account) (s t : SpendLedger) (n : ℕ) (response : Result ℕ)
      (result : Result SpendReservation)
      → o ≡ some b
      → Refines money o s (t, result)
      → ((r : SpendReservation) → result ≡ ok r → IsHeld money (n, r))
      → n ≤ b.held
      → b.ceiling ≤ bound
      → Spends b n
          (call_cost n response)
          (after_reserve m codec complete complete (money.usd n) (in_usd response) (t, result))
  unfolding Refines
  after_reserve-Spends none b s t n response result same h fit owned room = absurd (cc same)
  after_reserve-Spends (some c) b s t n response (err e) same h fit owned room = absurd (cc h.1.1)
  after_reserve-Spends (some c) b s t n response (ok r) same h fit owned room =
      settle_response-Spends b t r n response
        (subst (λ x. Represents money x t) (some_injective same) h.0) (fit r refl) owned room

-- If the arithmetic is exact for whole units up to a bound that the ceiling and the call's limit
-- together do not exceed, a ledger's floats stand for an account, the limit is positive, the ids are
-- digests in hexadecimal and the appends are complete, then after a call of the provider, whatever its
-- response, the ledger's floats stand for the account with what was held before it: the same account
-- if it did not cover the limit, else the account that has also spent the cost that the response
-- reports, or the whole limit if it raised or reported more.
pub transport_spend-Represents :
    {m : Arithmetic} {bound : ℕ} (money : ExactBelow m bound) (codec : Codec) (a : Account)
    (s : SpendLedger) (n : ℕ) (response : Result ℕ) (fresh request invocation : String)
    → Represents money a s
    → is_hex 32 fresh ≡ true
    → IsBinding request invocation
    → 0 < n
    → a.ceiling + n ≤ bound
    → Represents money (transport_account money codec n response a) (
        (transport_spend m codec complete complete complete fresh
          (money.usd n)
          request
          invocation
          (in_usd money codec response)
          s).0)
unfolding transport_spend
transport_spend-Represents {m} money codec a s n response fresh request invocation rep hex binding
      positive room =
    let refined =
      reserve-Refines money codec a s n fresh request invocation rep binding positive room in
    let p = reserve m codec complete fresh (money.usd n) request invocation s in
    elim (Bool-cases (ltb a.ceiling (a.spent + a.held + n))) [
      | inl over ↦ rw over (
          after_reserve-refused money codec (hold n a) a s (p.0) n response p.1 (rw over refl)
            refined rep)
      | inr within ↦ rw within (
          subst
            (λ h.
              Represents money
                (record a { held = h; spent = a.spent + call_cost money codec n response })
                ((after_reserve m codec complete complete (money.usd n)
                  (in_usd money codec response) (p.0, p.1)).0))
            (back a.held n)
            (after_reserve-Spends money codec (hold n a) (record a { held = a.held + n }) s (p.0) n
              response p.1 (rw within refl) refined
              (λ r returned.
                (reserve-IsHeld money codec complete n fresh request invocation s hex binding).at r
                  returned)
              (omega arith) (omega (arith, room))))
    ]
  where
    back : (held k : ℕ) → held + k - k ≡ held
    back held k = omega arith
