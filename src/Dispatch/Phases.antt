-- ===== src/Dispatch/Phases.antt =====
-- What a record of the journal can do to the attempts that are there (skivolve/runner.py, `_replay`):
-- none is lost, none changes its arm or its request, and a phase only moves forward.
use skivolve.Base.{
  ℕ, String, Bool, true, false, ◌||◌, Option, none, some, List, [], ◌∷◌, ◌++◌, ◌≡◌, refl, sym, ap,
  ◌∙◌, ◌==◌, string_eq, arith, Result, ok, ◌>>=◌, Ensures, ensures_rules, Ensures-pure, Ensures-err,
  Ensures-if, Ensures-bind, if◌then◌else◌, Bool-cases, inl, inr, beq_sound, >>=-eq-ok, traverse,
}
use mathlib.Core.Path.{subst, ap₂}
use mathlib.Core.List.{append-nil}
use text.Mathlib.TextEquality.{eq_iff}
use skivolve.Base.Dict.{lookup, member, lookup-insert}
use skivolve.Json.{Fields}
use skivolve.Dispatch.Types.{
  Bytes, Codec, Phase, planned, dispatched, completed, failed, phase_eq, LogicalKey, Attempt,
  Accounts,
}
use skivolve.Dispatch.Replay.{
  add_attempt, replay_planned, failed_phases, event_phases, store_phase, move, replay_record,
  replay_records, no_accounts, after_header, replay, read_line, split_lines, drop_last,
  ends_with_newline, newline,
}
use skivolve.Dispatch.Journal.{split_lines-append, drop_last-append}
use skivolve.Dispatch.Extend.{replay-eq-ok, ends_with_newline_lem, regroup}

-- The phases that an attempt can reach from a phase.
abbrev pub reaches : Phase → Phase → Bool
reaches planned _ = true
reaches dispatched planned = false
reaches dispatched _ = true
reaches completed completed = true
reaches failed failed = true
reaches _ _ = false

-- An attempt has gone from one state to another.
abbrev pub Follows : Attempt → Attempt → Type 0
Follows t u = (u.key ≡ t.key) × (u.request ≡ t.request) × (reaches t.phase u.phase ≡ true)

-- Every attempt of the first accounts is in the second ones.
pub record IsLater (a b : Accounts) : Type 0 where
  pub kept :
      (i : String) (t : Attempt)
      → lookup i a.attempts ≡ some t
      → (u : Attempt) × (lookup i b.attempts ≡ some u) × Follows t u

reaches_refl : (p : Phase) → reaches p p ≡ true
reaches_refl p = ground arith

reaches_trans : (p q r : Phase) → reaches p q ≡ true → reaches q r ≡ true → reaches p r ≡ true
reaches_trans p q r h k = ground arith

pub IsLater-refl : (a : Accounts) → IsLater a a
IsLater-refl a = record { kept = λ i t found. (t, found, (refl, refl, reaches_refl t.phase)) }

pub IsLater-trans : (a b c : Accounts) → IsLater a b → IsLater b c → IsLater a c
IsLater-trans a b c h k = record {
  kept = λ i t found.
      let (u, in_b, to_u) = h.kept i t found in
      let (v, in_c, to_v) = k.kept i u in_b in
      (
        v,
        in_c,
        (to_v.0 ∙ to_u.0, to_v.1 ∙ to_u.1, reaches_trans t.phase u.phase v.phase to_u.2 to_v.2),
      );
}

add_attempt-IsLater :
    (i : String) (key : LogicalKey) (q : String) (a : Accounts)
    → member i a.attempts ≡ false
    → IsLater a (add_attempt i key q a)
unfolding member
add_attempt-IsLater i key q a new = record {
  kept = λ j t found. (
    t,
    ground (
      arith,
      new,
      eq_iff j i,
      lookup-insert j i (record { key = key; request = q; phase = planned }) a.attempts,
    ),
    (refl, refl, reaches_refl t.phase),
  );
}

store_phase-IsLater :
    (i : String) (s : Attempt) (p : Phase) (a : Accounts)
    → lookup i a.attempts ≡ some s
    → reaches s.phase p ≡ true
    → IsLater a (store_phase i s p a)
store_phase-IsLater i s p a known forward = record {
  kept = λ j t found. elim (Bool-cases (j == i)) [
    | inl same ↦ (
      record s { phase = p },
      rw (lookup-insert j i (record s { phase = p }) a.attempts, same) refl,
      ground (arith, same, eq_iff j i),
    )
    | inr other ↦ (
      t,
      rw (lookup-insert j i (record s { phase = p }) a.attempts, other) found,
      (refl, refl, reaches_refl t.phase),
    )
  ];
}

abbrev IsForward : Phase × Phase → Type 0
IsForward p = reaches p.0 p.1 ≡ true

IsForward-from_planned : (b : Bool) → IsForward ((if b then dispatched else planned), failed)
IsForward-from_planned true = refl
IsForward-from_planned false = refl

failed_phases-IsForward : (r : Fields) → Ensures IsForward (failed_phases r)
unfolding failed_phases
failed_phases-IsForward r = search (ensures_rules, IsForward-from_planned) depth 9

completed_phases-IsForward :
    (m : Result String) → Ensures IsForward (m >>= λ _. ok (dispatched, completed))
completed_phases-IsForward m =
    Ensures-bind m (λ _. ok (dispatched, completed))
      λ d e. Ensures-pure (dispatched, completed) refl

dispatched-IsForward : IsForward (planned, dispatched)
dispatched-IsForward = refl

event_phases-IsForward : (r : Fields) → Ensures IsForward (event_phases r)
unfolding event_phases
event_phases-IsForward r =
    search
      (ensures_rules, completed_phases-IsForward, failed_phases-IsForward, dispatched-IsForward)
      depth 9

move-IsLater :
    (i : String) (o : Option Attempt) (p : Phase × Phase) (a : Accounts)
    → lookup i a.attempts ≡ o
    → reaches p.0 p.1 ≡ true
    → Ensures (IsLater a) (move i o p a)
unfolding move
move-IsLater i none p a known forward = Ensures-err _
move-IsLater i (some t) p a known forward =
    Ensures-if (t.phase == p.0) _ _
      (λ same.
        Ensures-pure _
          (store_phase-IsLater i t p.1 a known (rw (beq_sound t.phase p.0 same) forward)))
      (λ _. Ensures-err _)

right_false : (a b : Bool) → (a || b) ≡ false → b ≡ false
right_false a b h = ground arith

replay_planned-IsLater :
    (i : String) (r : Fields) (a : Accounts) → Ensures (IsLater a) (replay_planned i r a)
unfolding replay_planned
replay_planned-IsLater i r a = search (ensures_rules, add_attempt-IsLater, right_false) depth 9

move_after_event :
    (i : String) (r : Fields) (p : Phase × Phase) (a : Accounts)
    → event_phases r ≡ ok p
    → Ensures (IsLater a) (move i (lookup i a.attempts) p a)
move_after_event i r p a e =
    move-IsLater i (lookup i a.attempts) p a refl ((event_phases-IsForward r).at p e)

-- One record.
pub replay_record-IsLater : (r : Fields) (a : Accounts) → Ensures (IsLater a) (replay_record r a)
unfolding replay_record
replay_record-IsLater r a = search (ensures_rules, replay_planned-IsLater, move_after_event) depth 9

replay_records-IsLater :
    (rs : List Fields) (a : Accounts) → Ensures (IsLater a) (replay_records rs a)
unfolding replay_records
replay_records-IsLater [] a = Ensures-pure a (IsLater-refl a)
replay_records-IsLater (r ∷ rs) a = record {
  at = λ c done.
      let (b, first, later) = >>=-eq-ok (replay_record r a) (replay_records rs) done in
      IsLater-trans a b c ((replay_record-IsLater r a).at b first)
        ((replay_records-IsLater rs b).at c later);
}

traverse-split :
    {A B : Type 0} (f : A → Result B) (xs ys : List A) (zs : List B)
    → traverse f (xs ++ ys) ≡ ok zs
    → (us : List B) × ((vs : List B) × (traverse f xs ≡ ok us) × (zs ≡ us ++ vs))
unfolding traverse
traverse-split f [] ys zs h = ([], (zs, refl, refl))
traverse-split f (x ∷ xs) ys zs h =
    let (u, fx, rest) = >>=-eq-ok (f x) _ h in
    let (ws, later, same) = >>=-eq-ok (traverse f (xs ++ ys)) _ rest in
    let (us, found) = traverse-split f xs ys ws later in
    let (vs, split, joined) = found in (u ∷ us, (vs, rw (fx, split) refl, cc))

replay_records-split :
    (rs ss : List Fields) (a b c : Accounts)
    → replay_records rs a ≡ ok b
    → replay_records (rs ++ ss) a ≡ ok c
    → replay_records ss b ≡ ok c
unfolding replay_records
replay_records-split [] ss a b c h k = cc
replay_records-split (r ∷ rs) ss a b c h k =
    let (d, first, later) = >>=-eq-ok (replay_record r a) (replay_records rs) h in
    let (e, first', later') = >>=-eq-ok (replay_record r a) (replay_records (rs ++ ss)) k in
    replay_records-split rs ss d b c later (cc (first, first', later'))

pub ends_with_newline-append :
    (xs : Bytes) (y : ℕ) (ys : Bytes)
    → ends_with_newline (xs ++ y ∷ ys) ≡ ends_with_newline (y ∷ ys)
unfolding ends_with_newline
ends_with_newline-append [] y ys = refl
ends_with_newline-append (x ∷ []) y ys = refl
ends_with_newline-append (x ∷ z ∷ xs) y ys = ends_with_newline-append (z ∷ xs) y ys

module _ (codec : Codec) (header : Fields) where
  grown_lines :
      (raw : Bytes) (y : ℕ) (ys : Bytes)
      → ends_with_newline raw ≡ true
      → ends_with_newline (raw ++ y ∷ ys) ≡ true
      → split_lines (drop_last (raw ++ y ∷ ys))
        ≡ split_lines (drop_last raw) ++ split_lines (drop_last (y ∷ ys))
  grown_lines raw y ys whole whole' =
      let tail =
        ends_with_newline_lem (y ∷ ys) (sym (ends_with_newline-append raw y ys) ∙ whole') in
      ap (λ t. split_lines (drop_last t))
        (ap₂ (λ s t. s ++ t) (ends_with_newline_lem raw whole) tail ∙ regroup _ _)
      ∙ (ap split_lines (drop_last-append _ newline) ∙ split_lines-append _ _)

  -- The accounts that follow from the records after the header.
  abbrev Accounted : List Fields → Accounts → Type 0
  Accounted [] a = ⊥
  Accounted (first ∷ rs) a = replay_records rs no_accounts ≡ ok a

  after_header-Accounted :
      (rs : List Fields) (p : Accounts × ℕ) → after_header codec header rs ≡ ok p → Accounted rs p.0
  unfolding after_header
  after_header-Accounted [] p h = cc
  after_header-Accounted (first ∷ rs) p h = ground arith

  Accounted-split :
      (us vs : List Fields) (a b : Accounts) → Accounted us a → Accounted (us ++ vs) b → IsLater a b
  Accounted-split [] vs a b h k = absurd h
  Accounted-split (first ∷ us) vs a b h k =
      (replay_records-IsLater vs a).at b (replay_records-split us vs no_accounts a b h k)

  -- A journal that has grown, whatever was appended, accounts for every attempt that it did before:
  -- with the same arm and request, and in a phase that follows.
  pub replay-grown :
      (raw more : Bytes) (a b : Accounts) (n m : ℕ)
      → replay codec header raw ≡ ok (a, n)
      → replay codec header (raw ++ more) ≡ ok (b, m)
      → IsLater a b
  replay-grown raw [] a b n m h k = subst (IsLater a) (cc (h, k, append-nil raw)) (IsLater-refl a)
  replay-grown raw (y ∷ ys) a b n m h k =
      let (whole, records) = replay-eq-ok codec header raw (a, n) h in
      let (rs, lines, accounted) = records in
      let (whole', records') = replay-eq-ok codec header (raw ++ y ∷ ys) (b, m) k in
      let (zs, lines', accounted') = records' in
      let (us, found) =
        traverse-split (read_line codec) (split_lines (drop_last raw))
          (split_lines (drop_last (y ∷ ys))) zs
          (rw (grown_lines raw y ys whole whole') at lines') in
      let (vs, first, joined) = found in
      Accounted-split rs vs a b (after_header-Accounted rs (a, n) accounted) (
        subst (λ t. Accounted t b) (cc (lines, first, joined))
          (after_header-Accounted zs (b, m) accounted'))
