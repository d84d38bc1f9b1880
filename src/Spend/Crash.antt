-- ===== src/Spend/Crash.antt =====
-- The journal of a run of the `SpendLedger` of skivolve/comparator_runtime.py and its replay, step by
-- step.
use mathlib.Core.Path.{subst}
use mathlib.Core.Option.{map as option_map}
use skivolve.Base.{
  ℕ, ◌+◌, ◌-◌, ◌≤◌, Option, none, some, List, [], ◌∷◌, ◌++◌, map, ◌≡◌, refl, sym, ap, ◌∙◌, arith,
  Bool-cases, inl, inr, ltb, All, ok, >>=-eq-ok, contains, string_eq, beq_refl, false,
}
use skivolve.Base.Dict.{insert, lookup-insert}
use skivolve.Json.{Float}
use skivolve.Artifacts.Text.{Bytes}
use skivolve.Spend.Money.{Arithmetic, ExactBelow}
use skivolve.Spend.Ledger.{
  Codec, SpendLedger, Event, line_of, reserve_event, reconcile_event, historical_event, complete,
  refused,
}
use skivolve.Spend.Calls.{SpendReservation, charged_amount, close_event}
use skivolve.Spend.Account.{Account, settle}
use skivolve.Spend.Journal.{Replay, replay_line, replay_lines, nothing_replayed}
use skivolve.Spend.Refines.{units_charged}
use skivolve.Spend.Held.{
  All-Picks, units_of-Picks, IsHeld, IsAccounted, reserve-reservation, close-finish, close-raises,
}
use skivolve.Spend.Restoring.{restore_reconciled-Holds}
use skivolve.Spend.Lines.{written_line, written, written-append, Reloads}
use skivolve.Spend.Outcome.{
  Holds, reserve-Journals, charge_historical-Journals, finish-Journals, returned_at, raised_at,
}
use skivolve.Spend.Owed.{map-append}
use skivolve.Spend.Replayed.{
  attempt, replay_line-reserve, replay_line-close, replay_line-historical,
}
use skivolve.Spend.Run.{
  attempt_of, here, Run, Step, reserves, charges, closes, restores, reserve_raises, charge_raises,
  close_raises,
}
use skivolve.Spend.Covered.{account_after, closed-settles}
use skivolve.Spend.Tracks.{
  IsOpenIn, Tracks, Tracks-due, Tracks-reserve, Tracks-close, Tracks-historical,
}

pub All-append :
    (P : Event → Type 0) (es : List Event) (e : Event) → All P (es ++ e ∷ []) → All P es × P e
All-append P [] e h = (tt, h.0)
All-append P (d ∷ es) e h = let (others, last) = All-append P es e h.1 in ((h.0, others), last)

pub ok_injective : {A : Type 0} {x y : A} → ok x ≡ ok y → x ≡ y
ok_injective h = cc h

settle-within : (n c : ℕ) (a b : Account) → settle n c a ≡ some b → c ≤ n
settle-within n c a b same = elim (Bool-cases (ltb n c)) [
  | inl over ↦ absurd (cc (rw over at same))
  | inr within ↦ ground (arith, within)
]

module _ {m : Arithmetic} {bound : ℕ} (money : ExactBelow m bound) (codec : Codec) where
  replay_lines-append :
      (lines : List Bytes) (line : Bytes) (first middle last : Replay)
      → replay_lines m codec lines first ≡ ok middle
      → replay_line m codec line middle ≡ ok last
      → replay_lines m codec (lines ++ line ∷ []) first ≡ ok last
  unfolding replay_lines
  replay_lines-append [] line first middle last h k = rw (ok_injective h, k) refl
  replay_lines-append (l ∷ lines) line first middle last h k =
      let (next, head, tail) =
        >>=-eq-ok (replay_line m codec l first) (replay_lines m codec lines) h in
      rw head (replay_lines-append lines line next middle last tail k)

  -- The disk holds the log's lines, and their replay follows the run.
  pub record IsJournalled (run : Run) (due : ℕ) : Type 0 where
    pub holds : Holds run.ledger (written codec run.log)
    pub replay : Replay
    pub replayed :
        replay_lines m codec (map (written_line codec) run.log) nothing_replayed ≡ ok replay
    pub tracks : Tracks money run.outstanding run.log due replay

  -- One more line.
  replayed_more :
      (log : List Event) (e : Event) (r next : Replay)
      → replay_lines m codec (map (written_line codec) log) nothing_replayed ≡ ok r
      → replay_line m codec (written_line codec e) r ≡ ok next
      → replay_lines m codec (map (written_line codec) (log ++ e ∷ [])) nothing_replayed ≡ ok next
  replayed_more log e r next h k =
      ap (λ lines. replay_lines m codec lines nothing_replayed)
        (map-append (written_line codec) log e)
      ∙ replay_lines-append (map (written_line codec) log) (written_line codec e) nothing_replayed r
          next h k

  -- The line of a close, for a reservation of some units.
  replayed_close :
      (replay : Replay) (r : SpendReservation) {n : ℕ} (actual : Option ℕ)
      → IsHeld money (n, r)
      → Reloads codec (
          close_event r.attempt_id
            (option_map money.usd actual)
            (charged_amount r.maximum_usd (option_map money.usd actual))
            r.request_sha256
            r.invocation_id)
      → units_charged n actual ≤ n
      → IsOpenIn money replay.attempts (n, r)
      → replay_line m codec
          (written_line codec (
            close_event r.attempt_id
              (option_map money.usd actual)
              (charged_amount r.maximum_usd (option_map money.usd actual))
              r.request_sha256
              r.invocation_id))
          replay
        ≡ ok (record replay {
          attempts =
              insert r.attempt_id
                (attempt
                  (money.usd n)
                  (some (money.usd (units_charged n actual)))
                  r.request_sha256
                  r.invocation_id)
                replay.attempts;
        })
  replayed_close replay r {n} actual held reload within found =
      let event = λ (amount : Float).
        close_event r.attempt_id (option_map money.usd actual)
          (charged_amount amount (option_map money.usd actual)) r.request_sha256 r.invocation_id in
      ap (λ amount. replay_line m codec (written_line codec (event amount)) replay) held.maximum_eq
      ∙ replay_line-close money codec r.attempt_id r.request_sha256 r.invocation_id n actual replay
          (subst (λ amount. Reloads codec (event amount)) held.maximum_eq reload) held.hex
          held.binding within found

  -- A call that raises has left the ledger.
  unchanged :
      {s t : SpendLedger} {outstanding : List (ℕ × SpendReservation)} {log : List Event} {due : ℕ}
      → IsJournalled (record { ledger = s; outstanding = outstanding; log = log }) due
      → t ≡ s
      → IsJournalled (record { ledger = t; outstanding = outstanding; log = log }) due
  unchanged {log = log} j same = record {
    holds = subst (λ u. Holds u (written codec log)) (sym same) j.holds;
    replay = j.replay;
    replayed = j.replayed;
    tracks = j.tracks;
  }

  module _ (largest ceiling : ℕ) (room : ceiling + largest ≤ bound) where
    abbrev pub amount_due : Account → ℕ
    amount_due a = a.spent + a.held

    pub Step-IsJournalled :
        {run next : Run} (taken : Step money codec largest run next)
        (h : IsAccounted money ceiling run)
        → All (Reloads codec) next.log
        → IsJournalled run (amount_due h.account)
        → IsJournalled next
            (amount_due (account_after money codec largest ceiling room taken h.account))
    Step-IsJournalled
          (reserves {s} {t} {outstanding} {log} n fresh request invocation {r} small positive hex
            new binding same)
          h reload j =
        let e = reserve_event fresh (money.usd n) request invocation in
        let (id_eq, request_eq, invocation_eq) =
          (reserve-reservation money codec complete n fresh request invocation s).at r
            (ap (λ x. x.1) same) in
        record {
          holds = subst (Holds t) (sym (written-append codec log e)) (
              returned_at _
                (reserve-Journals m codec complete s (written codec log) fresh request invocation
                  (money.usd n) tt j.holds)
                same);
          replay = record j.replay {
            seen = r.attempt_id ∷ j.replay.seen;
            attempts =
                insert r.attempt_id (attempt (money.usd n) none r.request_sha256 r.invocation_id)
                  j.replay.attempts;
          };
          replayed = replayed_more log e j.replay _ j.replayed (
              rw (id_eq, request_eq, invocation_eq)
                (replay_line-reserve money codec fresh request invocation n j.replay
                  ((All-append (Reloads codec) log e reload).1) hex binding positive
                  (j.tracks.seen_logged fresh new)));
          tracks = Tracks-due money (omega arith) (
              Tracks-reserve money outstanding log (amount_due h.account) n e j.replay r (sym id_eq)
                (ap (λ id. contains id (map attempt_of log)) id_eq ∙ new) j.tracks);
        }
    Step-IsJournalled
          (charges {s} {t} {outstanding} {log} n fresh request invocation small new hex binding
            same)
          h reload j =
        let e = historical_event fresh (money.usd n) request invocation in
        record {
          holds = subst (Holds t) (sym (written-append codec log e)) (
              returned_at _
                (charge_historical-Journals m codec complete s (written codec log) fresh request
                  invocation (money.usd n) tt j.holds)
                same);
          replay = record j.replay {
            seen = fresh ∷ j.replay.seen;
            historical = m.plus j.replay.historical (money.usd n);
          };
          replayed = replayed_more log e j.replay _ j.replayed (
              replay_line-historical money codec fresh request invocation n j.replay
                ((All-append (Reloads codec) log e reload).1) hex binding
                (j.tracks.seen_logged fresh new));
          tracks = Tracks-due money (omega arith) (
              Tracks-historical money outstanding log (amount_due h.account) n fresh e j.replay refl
                new (omega (arith, h.represents.covered, h.ceiling_eq, small, room)) j.tracks);
        }
    Step-IsJournalled (closes {s} {t} {outstanding} {rest} {log} n actual {r} picked same) h reload
          j =
        let charge = option_map money.usd actual in
        let e =
          close_event r.attempt_id charge (charged_amount r.maximum_usd charge) r.request_sha256
            r.invocation_id in
        let (held, others) = All-Picks (IsHeld money) picked h.fit in
        let (b, took, after) =
          closed-settles money codec largest ceiling room s actual r picked h same in
        record {
          holds = subst (Holds t) (sym (written-append codec log e)) (
              returned_at _
                (finish-Journals m codec complete s (written codec log) r.attempt_id
                  r.request_sha256 r.invocation_id r.maximum_usd charge tt j.holds)
                (close-finish m codec complete s charge r same));
          replay = record j.replay {
            attempts =
                insert r.attempt_id
                  (attempt (money.usd n) (some (money.usd (units_charged n actual)))
                    r.request_sha256 r.invocation_id)
                  j.replay.attempts;
          };
          replayed = replayed_more log e j.replay _ j.replayed (
              replayed_close j.replay r actual held ((All-append (Reloads codec) log e reload).1)
                (settle-within n (units_charged n actual) h.account b took)
                ((All-Picks (IsOpenIn money j.replay.attempts) picked j.tracks.open_found).0));
          tracks = Tracks-due money (omega (arith, h.held_eq, units_of-Picks picked)) (
              Tracks-close money log (h.account.spent + (h.account.held - n))
                (units_charged n actual) n r e j.replay picked
                (Tracks-due money (omega (arith, h.held_eq, units_of-Picks picked)) j.tracks));
        }
    Step-IsJournalled
          (restores {s} {t} {outstanding} {log} n k id request invocation small below positive hex
            new binding same)
          h reload j =
        let e = reserve_event id (money.usd k) request invocation in
        let d = reconcile_event id (money.usd n) request invocation in
        let (reload_e, reload_d) = All-append (Reloads codec) (log ++ e ∷ []) d reload in
        let held : SpendReservation = record {
          attempt_id = id;
          maximum_usd = money.usd k;
          request_sha256 = request;
          invocation_id = invocation;
          finished = false;
        } in
        let reserved : Replay = record j.replay {
          seen = id ∷ j.replay.seen;
          attempts = insert id (attempt (money.usd k) none request invocation) j.replay.attempts;
        } in
        record {
          holds =
              subst (Holds t)
                (ap (λ b. b ++ line_of codec d) (sym (written-append codec log e))
                  ∙ sym (written-append codec (log ++ e ∷ []) d))
                (restore_reconciled-Holds money codec id request invocation k n s
                  (written codec log) j.holds same);
          replay = record reserved {
            attempts =
                insert id (attempt (money.usd k) (some (money.usd n)) request invocation)
                  reserved.attempts;
          };
          replayed =
              replayed_more (log ++ e ∷ []) d reserved _
                (replayed_more log e j.replay reserved j.replayed (
                  replay_line-reserve money codec id request invocation k j.replay
                    ((All-append (Reloads codec) log e reload_e).1) hex binding positive
                    (j.tracks.seen_logged id new)))
                (replay_line-close money codec id request invocation k (some n) reserved reload_d
                  hex binding below
                  (lookup-insert id id (attempt (money.usd k) none request invocation)
                      j.replay.attempts
                    ∙ rw (beq_refl id) refl));
          tracks = Tracks-due money (omega arith) (
              Tracks-close money (log ++ e ∷ []) (amount_due h.account) n k held d reserved here (
                Tracks-reserve money outstanding log (amount_due h.account) k e j.replay held refl
                  new j.tracks));
        }
    Step-IsJournalled
          (reserve_raises {s} {t} {outstanding} {log} message fresh request invocation amount same)
          h reload j =
        unchanged j (
          raised_at _
            (reserve-Journals m codec (refused message) s (written codec log) fresh request
              invocation amount tt j.holds)
            same)
    Step-IsJournalled
          (charge_raises {s} {t} {outstanding} {log} message fresh request invocation amount same) h
          reload j =
        unchanged j (
          raised_at _
            (charge_historical-Journals m codec (refused message) s (written codec log) fresh
              request invocation amount tt j.holds)
            same)
    Step-IsJournalled (close_raises {s} {t} {outstanding} {log} message actual r same) h reload j =
        unchanged j (
          raised_at _
            (finish-Journals m codec (refused message) s (written codec log) r.attempt_id
              r.request_sha256 r.invocation_id r.maximum_usd actual tt j.holds)
            (close-raises m codec (refused message) s actual r same))
