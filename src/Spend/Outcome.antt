-- ===== src/Spend/Outcome.antt =====
-- What the calls of skivolve/comparator_runtime.py do to the journal: a call that returns has written
-- its line, and a call that raises before its write has changed nothing.
use mathlib.Core.Path.{subst}
use skivolve.Base.{suc, String, true, Option, some, ◌++◌, ◌≡◌, refl, sym, ap, Result, ok, err}
use skivolve.Json.{Float}
use skivolve.Artifacts.Text.{Bytes}
use skivolve.Spend.Money.{Arithmetic}
use skivolve.Spend.Ledger.{
  Codec, Write, complete, refused, torn, SpendLedger, Event, reserve_event, historical_event,
  existing, line_of, append_journal,
}
use skivolve.Spend.Calls.{
  after_checks, after_append, reserve, charge_historical, charged_amount, close_event, finish,
}

-- The journal is in use, and holds these bytes.
pub record Holds (s : SpendLedger) (bytes : Bytes) : Type 0 where
  pub in_use : s.has_journal_path ≡ true
  pub bytes_eq : existing s.journal ≡ bytes

-- What holds of the ledger after a call that returns, and after one that raises.
pub record Ends (Returned Raised : SpendLedger → Type 0) {A : Type 0} (p : SpendLedger × Result A)
    : Type 0 where
  pub returned : (value : A) → p.1 ≡ ok value → Returned (p.0)
  pub raised : (e : String) → p.1 ≡ err e → Raised (p.0)

module _ {Returned Raised : SpendLedger → Type 0} where
  pub Ends-ok : {A : Type 0} (t : SpendLedger) (a : A) → Returned t → Ends Returned Raised (t, ok a)
  Ends-ok t a h = record { returned = λ _ _. h; raised = λ e same. absurd (cc same) }

  Ends-err :
      {A : Type 0} (t : SpendLedger) (e : String)
      → Raised t
      → Ends Returned Raised {A = A} (t, err e)
  Ends-err t e h = record { returned = λ a same. absurd (cc same); raised = λ _ _. h }

  Ends-checks :
      {A B : Type 0} (s : SpendLedger) (r : Result A) (next : A → SpendLedger × Result B)
      → Raised s
      → ((a : A) → Ends Returned Raised (next a))
      → Ends Returned Raised (after_checks s r next)
  unfolding after_checks
  Ends-checks s (err e) next h k = Ends-err s e h
  Ends-checks s (ok a) next h k = k a

  pub Ends-append :
      {A B : Type 0} {Appended : SpendLedger → Type 0} (p : SpendLedger × Result A)
      (next : SpendLedger → SpendLedger × Result B)
      → Ends Appended Raised p
      → ((t : SpendLedger) → Appended t → Ends Returned Raised (next t))
      → Ends Returned Raised (after_append p next)
  unfolding after_append
  Ends-append (t, err e) next h k = Ends-err t e (h.raised e refl)
  Ends-append (t, ok a) next h k = k t (h.returned a refl)

  pub returned_at :
      {A : Type 0} (p : SpendLedger × Result A) {t : SpendLedger} {value : A}
      → Ends Returned Raised p
      → p ≡ (t, ok value)
      → Returned t
  returned_at p {t} {value} h same =
      subst Returned (ap (λ x. x.0) same) (h.returned value (ap (λ x. x.1) same))

  pub raised_at :
      {A : Type 0} (p : SpendLedger × Result A) {t : SpendLedger} {e : String}
      → Ends Returned Raised p
      → p ≡ (t, err e)
      → Raised t
  raised_at p {t} {e} h same = subst Raised (ap (λ x. x.0) same) (h.raised e (ap (λ x. x.1) same))

-- Nothing of the line is torn.
abbrev pub IsWhole : Write → Type 0
IsWhole complete = Unit
IsWhole (refused message) = Unit
IsWhole (torn n message) = ⊥

append_journal-complete :
    (codec : Codec) (e : Event) (s : SpendLedger)
    → s.has_journal_path ≡ true
    → append_journal codec complete e s ≡ (
      record s {
        journal = some (existing s.journal ++ line_of codec e);
        journal_records = suc s.journal_records;
      },
      ok tt,
    )
unfolding append_journal
append_journal-complete codec e s h = rw h refl

append_journal-refused :
    (codec : Codec) (message : String) (e : Event) (s : SpendLedger)
    → s.has_journal_path ≡ true
    → append_journal codec (refused message) e s ≡ (s, err message)
unfolding append_journal
append_journal-refused codec message e s h = rw h refl

-- A call that returns has added the event's line, and a call that raises has left the ledger.
abbrev pub Journals :
    {A : Type 0} → Codec → SpendLedger → Bytes → Event → SpendLedger × Result A → Type 0
Journals codec s bytes e p = Ends (λ t. Holds t (bytes ++ line_of codec e)) (λ t. t ≡ s) p

pub append_journal-Journals :
    (codec : Codec) (write : Write) (s : SpendLedger) (bytes : Bytes) (e : Event)
    → IsWhole write
    → Holds s bytes
    → Journals codec s bytes e (append_journal codec write e s)
append_journal-Journals codec complete s bytes e whole h =
    subst (Journals codec s bytes e) (sym (append_journal-complete codec e s h.in_use)) (
      Ends-ok _ tt
        (record { in_use = h.in_use; bytes_eq = ap (λ b. b ++ line_of codec e) h.bytes_eq }))
append_journal-Journals codec (refused message) s bytes e whole h =
    subst (Journals codec s bytes e) (sym (append_journal-refused codec message e s h.in_use))
      (Ends-err s message refl)
append_journal-Journals codec (torn n message) s bytes e whole h = absurd whole

module _ (m : Arithmetic) (codec : Codec) (write : Write) (s : SpendLedger) (bytes : Bytes) where
  pub reserve-Journals :
      (fresh request invocation : String) (amount : Float)
      → IsWhole write
      → Holds s bytes
      → Journals codec s bytes
          (reserve_event fresh amount request invocation)
          (reserve m codec write fresh amount request invocation s)
  unfolding reserve
  reserve-Journals fresh request invocation amount whole h = Ends-checks s _ _ refl λ _.
      Ends-append (append_journal codec write (reserve_event fresh amount request invocation) s) _
        (append_journal-Journals codec write s bytes (reserve_event fresh amount request invocation)
          whole h)
        λ t kept. Ends-ok _ _ (record { in_use = kept.in_use; bytes_eq = kept.bytes_eq })

  pub charge_historical-Journals :
      (fresh request invocation : String) (amount : Float)
      → IsWhole write
      → Holds s bytes
      → Journals codec s bytes
          (historical_event fresh amount request invocation)
          (charge_historical m codec write fresh amount request invocation s)
  unfolding charge_historical
  charge_historical-Journals fresh request invocation amount whole h = Ends-checks s _ _ refl λ _.
      Ends-append (append_journal codec write (historical_event fresh amount request invocation) s)
        _
        (append_journal-Journals codec write s bytes
          (historical_event fresh amount request invocation) whole h)
        λ t kept. Ends-ok _ _ (record { in_use = kept.in_use; bytes_eq = kept.bytes_eq })

  pub finish-Journals :
      (attempt request invocation : String) (reserved : Float) (actual : Option Float)
      → IsWhole write
      → Holds s bytes
      → Journals codec s bytes
          (close_event attempt actual (charged_amount reserved actual) request invocation)
          (finish m codec write attempt reserved actual request invocation s)
  unfolding finish
  finish-Journals attempt request invocation reserved actual whole h =
      let e = close_event attempt actual (charged_amount reserved actual) request invocation in
      Ends-checks s _ _ refl λ _.
        Ends-append (append_journal codec write e s) _
          (append_journal-Journals codec write s bytes e whole h)
          λ t kept. Ends-ok _ _ (record { in_use = kept.in_use; bytes_eq = kept.bytes_eq })
