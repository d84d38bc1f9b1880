-- ===== src/Spend/Restoring.antt =====
-- `restore_reconciled` of skivolve/comparator_runtime.py, where it returns.
use mathlib.Core.Path.{subst}
use skivolve.Base.{
  ℕ, ◌+◌, ◌≤◌, String, false, ◌||◌, not, List, ◌++◌, ◌≡◌, refl, sym, ap, ◌∙◌, arith, ltb, Result,
  ok, err, Ensures, Ensures-bind, Ensures-guard, Ensures-pure,
}
use skivolve.Base.Text.{is_hex}
use skivolve.Json.{Value, str, float, Float}
use skivolve.Spend.Money.{Arithmetic, ExactBelow, less, not_positive, finite_nonnegative}
use skivolve.Spend.Ledger.{
  Codec, Write, complete, line_of, SpendLedger, Event, reserve_event, reconcile_event,
  append_journal, validate_spend_binding,
}
use skivolve.Spend.Calls.{
  after_checks, after_append, SpendReservation, restore_reconciled, restored_attempt,
}
use skivolve.Spend.Failures.{SameAmounts, SameAmounts-trans, append_journal-SameAmounts}
use skivolve.Spend.Held.{IsAccounted}
use skivolve.Spend.Outcome.{Ends, Ends-ok, Ends-append, Holds, append_journal-Journals, returned_at}
use skivolve.Artifacts.Text.{Bytes}
use skivolve.Spend.Replayed.{amount_read}
use skivolve.Spend.Refines.{charge_over_eq}

checks-ok :
    {A B : Type 0} (s : SpendLedger) (r : Result A) (next : A → SpendLedger × Result B)
    {t : SpendLedger} {value : B}
    → after_checks s r next ≡ (t, ok value)
    → (a : A) × (r ≡ ok a) × (next a ≡ (t, ok value))
unfolding after_checks
checks-ok s (err e) next same = absurd (cc same)
checks-ok s (ok a) next same = (a, refl, same)

append-ok :
    {A B : Type 0} (p : SpendLedger × Result A) (next : SpendLedger → SpendLedger × Result B)
    {t : SpendLedger} {value : B}
    → after_append p next ≡ (t, ok value)
    → next (p.0) ≡ (t, ok value)
unfolding after_append
append-ok (u, err e) next same = absurd (cc same)
append-ok (u, ok a) next same = same

module _ {m : Arithmetic} {bound : ℕ} (money : ExactBelow m bound) (codec : Codec) where
  -- What the checks of `restore_reconciled` leave of a cost.
  record Checked (s : SpendLedger) (cost_usd : Value) (checked : String × Float × Float)
      : Type 0 where
    cost_read : finite_nonnegative m cost_usd ≡ ok checked.2
    covered : less s.maximum_usd (m.plus (m.plus s.spent_usd checked.2) s.reserved_usd) ≡ false

  -- The amounts after `restore_reconciled` has returned.
  pub record Restored (s : SpendLedger) (cost_usd : Value) (t : SpendLedger) : Type 0 where
    pub cost : Float
    pub cost_read : finite_nonnegative m cost_usd ≡ ok cost
    pub covered : less s.maximum_usd (m.plus (m.plus s.spent_usd cost) s.reserved_usd) ≡ false
    pub maximum_eq : t.maximum_usd ≡ s.maximum_usd
    pub spent_eq : t.spent_usd ≡ m.plus s.spent_usd cost
    pub reserved_eq : t.reserved_usd ≡ s.reserved_usd

  amounts-Restored :
      (first second : Write) (cost_usd : Value) (request invocation : String) (s : SpendLedger)
      (checked : String × Float × Float) {t : SpendLedger} {updated : Float}
      → Checked s cost_usd checked
      → after_append
          (append_journal codec first (reserve_event (checked.0) checked.1 request invocation) s)
          (λ u.
            after_append
              (append_journal codec second
                (reconcile_event (checked.0) checked.2 request invocation)
                u)
              λ v. let sum = m.plus s.spent_usd checked.2 in (record v { spent_usd = sum }, ok sum))
        ≡ (t, ok updated)
      → Restored s cost_usd t
  amounts-Restored first second cost_usd request invocation s checked {t} h same =
      let e = reserve_event (checked.0) checked.1 request invocation in
      let d = reconcile_event (checked.0) checked.2 request invocation in
      let u = (append_journal codec first e s).0 in
      let v = (append_journal codec second d u).0 in
      let done =
        append-ok (append_journal codec second d u) _
          (append-ok (append_journal codec first e s) _ same) in
      let kept : SameAmounts s v =
        SameAmounts-trans (append_journal-SameAmounts codec first e s)
          (append_journal-SameAmounts codec second d u) in
      record {
        cost = checked.2;
        cost_read = h.cost_read;
        covered = h.covered;
        maximum_eq = sym (ap (λ x. x.0.maximum_usd) done) ∙ kept.maximum;
        spent_eq = sym (ap (λ x. x.0.spent_usd) done);
        reserved_eq = sym (ap (λ x. x.0.reserved_usd) done) ∙ kept.reserved;
      }

  pub restore_reconciled-Restored :
      (first second : Write) (attempt reserved cost : Value) (request invocation : String)
      (s : SpendLedger) {t : SpendLedger} {updated : Float}
      → restore_reconciled m codec first second attempt reserved cost request invocation s
        ≡ (t, ok updated)
      → Restored s cost t
  unfolding restore_reconciled
  restore_reconciled-Restored first second attempt reserved cost request invocation s {t} same =
      let (checked, passed, rest) = checks-ok s _ _ same in
      amounts-Restored first second cost request invocation s checked
        ((Ensures-bind {P = Checked s cost} (validate_spend_binding (str request) (str invocation))
            _
            λ _ _. Ensures-bind (finite_nonnegative m cost) _ λ c read.
              Ensures-bind (finite_nonnegative m reserved) _ λ d _.
                Ensures-bind (restored_attempt attempt) _ λ id _.
                  Ensures-guard (not_positive d || less d c) _ _ λ _.
                    Ensures-guard
                      (less s.maximum_usd (m.plus (m.plus s.spent_usd c) s.reserved_usd)) _ _
                      λ covered.
                        Ensures-pure (id, d, c) (record { cost_read = read; covered = covered })).at
          checked passed)
        rest

  -- After a restoration of some units the account is charged with them.
  pub restore_reconciled-IsAccounted :
      (ceiling : ℕ) {s t : SpendLedger} {outstanding : List (ℕ × SpendReservation)}
      {log lines : List Event} (n : ℕ)
      → ceiling + n ≤ bound
      → Restored s (float (money.usd n)) t
      → (h : IsAccounted money ceiling
          (record { ledger = s; outstanding = outstanding; log = log }))
      → (after : IsAccounted money ceiling
          (record { ledger = t; outstanding = outstanding; log = lines }))
        × (after.account ≡ record h.account { spent = h.account.spent + n })
  restore_reconciled-IsAccounted ceiling {s} n room r h =
      let a = h.account in
      let is_cost : r.cost ≡ money.usd n = cc (r.cost_read, amount_read money codec n) in
      let fits : ltb a.ceiling (a.spent + n + a.held) ≡ false =
        sym (charge_over_eq money codec a s n h.represents (omega (arith, h.ceiling_eq, room)))
        ∙ subst (λ c. less s.maximum_usd (m.plus (m.plus s.spent_usd c) s.reserved_usd) ≡ false)
            is_cost r.covered in
      (
        record {
          account = record a { spent = a.spent + n };
          represents = record {
            maximum_eq = r.maximum_eq ∙ h.represents.maximum_eq;
            spent_eq =
                r.spent_eq
                ∙ ap (λ c. m.plus s.spent_usd c) is_cost
                ∙ ap (λ c. m.plus c (money.usd n)) h.represents.spent_eq
                ∙ money.plus_exact a.spent n
                    (omega (arith, h.represents.covered, h.ceiling_eq, room));
            reserved_eq = r.reserved_eq ∙ h.represents.reserved_eq;
            covered = ground (arith, fits);
          };
          ceiling_eq = h.ceiling_eq;
          held_eq = h.held_eq;
          fit = h.fit;
        },
        refl,
      )

  -- What `restore_reconciled` has read of texts and amounts of whole units.
  record Reads (id : String) (k n : ℕ) (checked : String × Float × Float) : Type 0 where
    id_eq : checked.0 ≡ id
    reserved_eq : checked.1 ≡ money.usd k
    cost_eq : checked.2 ≡ money.usd n

  Ends-weaken :
      {A : Type 0} {Returned Raised : SpendLedger → Type 0} (p : SpendLedger × Result A)
      → Ends Returned Raised p
      → Ends Returned (λ _. Unit {0}) p
  Ends-weaken p h = record { returned = h.returned; raised = λ _ _. tt }

  both_lines :
      (e d : Event) (s : SpendLedger) (bytes : Bytes)
      (next : SpendLedger → SpendLedger × Result Float)
      → Holds s bytes
      → ((u : SpendLedger) (b : Bytes) → Holds u b → Ends (λ t. Holds t b) (λ _. Unit {0}) (next u))
      → Ends
          (λ t. Holds t ((bytes ++ line_of codec e) ++ line_of codec d))
          (λ _. Unit {0})
          (after_append
            (append_journal codec complete e s)
            λ u. after_append (append_journal codec complete d u) next)
  both_lines e d s bytes next h k =
      Ends-append (append_journal codec complete e s) _
        (Ends-weaken _ (append_journal-Journals codec complete s bytes e tt h))
        λ u held.
          Ends-append (append_journal codec complete d u) _
            (Ends-weaken _
              (append_journal-Journals codec complete u (bytes ++ line_of codec e) d tt held))
            λ v kept. k v _ kept

  restored_attempt-str : (id : String) → Ensures (λ t. t ≡ id) (restored_attempt (str id))
  unfolding restored_attempt
  restored_attempt-str id = Ensures-guard (not (is_hex 32 id)) _ _ λ _. Ensures-pure id refl

  unit_cost :
      {n : ℕ} {x : Float} → finite_nonnegative m (float (money.usd n)) ≡ ok x → x ≡ money.usd n
  unit_cost {n} read = cc (read, amount_read money codec n)

  pub restore_reconciled-Holds :
      (id request invocation : String) (k n : ℕ) (s : SpendLedger) {t : SpendLedger}
      {updated : Float} (bytes : Bytes)
      → Holds s bytes
      → restore_reconciled m codec complete complete
          (str id)
          (float (money.usd k))
          (float (money.usd n))
          request
          invocation
          s
        ≡ (t, ok updated)
      → Holds t (
          (bytes ++ line_of codec (reserve_event id (money.usd k) request invocation))
          ++ line_of codec (reconcile_event id (money.usd n) request invocation))
  unfolding restore_reconciled
  restore_reconciled-Holds id request invocation k n s bytes h same =
      let (checked, passed, rest) = checks-ok s _ _ same in
      let reads : Reads id k n checked =
        (Ensures-bind {P = Reads id k n} (validate_spend_binding (str request) (str invocation)) _
            λ _ _. Ensures-bind (finite_nonnegative m (float (money.usd n))) _ λ c cost_read.
              Ensures-bind (finite_nonnegative m (float (money.usd k))) _ λ d reserved_read.
                Ensures-bind (restored_attempt (str id)) _ λ i id_read.
                  Ensures-guard (not_positive d || less d c) _ _ λ _.
                    Ensures-guard
                      (less s.maximum_usd (m.plus (m.plus s.spent_usd c) s.reserved_usd)) _ _
                      λ _.
                        Ensures-pure (i, d, c)
                          (record {
                            id_eq = (restored_attempt-str id).at i id_read;
                            reserved_eq = unit_cost reserved_read;
                            cost_eq = unit_cost cost_read;
                          })).at
          checked passed in
      rw⁻¹ (reads.id_eq, reads.reserved_eq, reads.cost_eq)
        (returned_at _
          (both_lines (reserve_event (checked.0) checked.1 request invocation)
            (reconcile_event (checked.0) checked.2 request invocation) s bytes _ h
            λ u b held. Ends-ok _ _ (record { in_use = held.in_use; bytes_eq = held.bytes_eq }))
          rest)
