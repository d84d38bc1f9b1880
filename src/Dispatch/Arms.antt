-- ===== src/Dispatch/Arms.antt =====
-- What every journal that `_replay` of skivolve/runner.py accepts says of the logical arms: each has
-- at most one attempt, and no attempt leaves its phase but along the order of the phases.
use skivolve.Base.{
  ℕ, String, false, Option, none, some, ◌≡◌, refl, ap, Bool, Bool-cases, ◌||◌, inl, inr, ◌==◌,
  string_eq, arith, ok, Ensures, ensures_rules, Ensures-pure, Ensures-err, Ensures-if,
}
use text.Mathlib.TextEquality.{eq_iff}
use skivolve.Base.Dict.{lookup, member, lookup-insert}
use skivolve.Json.{Fields}
use skivolve.Dispatch.Types.{
  Bytes, Codec, Phase, planned, phase_eq, LogicalKey, key_eq, key_beq_iff, Attempt, Accounts,
}
use skivolve.Dispatch.Replay.{add_attempt, replay_planned, store_phase, move, replay_record, replay}
use skivolve.Dispatch.Extend.{replay-keeps, replay-IsKeyed}
use skivolve.Dispatch.Journal.{IsKeyed}

-- Every attempt is the one that its logical arm names.
pub record IsLinked (a : Accounts) : Type 0 where
  pub arm :
      (i : String) (t : Attempt) → lookup i a.attempts ≡ some t → lookup t.key a.logical ≡ some i

add_attempt-IsLinked :
    (i : String) (key : LogicalKey) (q : String) (a : Accounts)
    → member key a.logical ≡ false
    → IsLinked a
    → IsLinked (add_attempt i key q a)
unfolding member
add_attempt-IsLinked i key q a free h = record {
  arm = λ j t found. ground (
    arith,
    free,
    lookup-insert j i (record { key = key; request = q; phase = planned }) a.attempts,
    lookup-insert t.key key i a.logical,
    eq_iff j i,
    key_beq_iff t.key key,
    h.arm j t,
  );
}

store_phase-IsLinked :
    (i : String) (s : Attempt) (p : Phase) (a : Accounts)
    → lookup i a.attempts ≡ some s
    → IsLinked a
    → IsLinked (store_phase i s p a)
store_phase-IsLinked i s p a known h = record {
  arm = λ j t found. ground (
    arith,
    lookup-insert j i (record s { phase = p }) a.attempts,
    eq_iff j i,
    h.arm j t,
    h.arm i s known,
  );
}

move-IsLinked :
    (i : String) (o : Option Attempt) (p : Phase × Phase) (a : Accounts)
    → lookup i a.attempts ≡ o
    → IsLinked a
    → Ensures IsLinked (move i o p a)
unfolding move
move-IsLinked i none p a known h = Ensures-err _
move-IsLinked i (some t) p a known h =
    Ensures-if (t.phase == p.0) _ _ (λ _. Ensures-pure _ (store_phase-IsLinked i t p.1 a known h))
      (λ _. Ensures-err _)

replay_planned-IsLinked :
    (i : String) (r : Fields) (a : Accounts) → IsLinked a → Ensures IsLinked (replay_planned i r a)
unfolding replay_planned
replay_planned-IsLinked i r a h = search (ensures_rules, add_attempt-IsLinked) depth 8

replay_record-IsLinked :
    (r : Fields) (a : Accounts) → IsLinked a → Ensures IsLinked (replay_record r a)
unfolding replay_record
replay_record-IsLinked r a h =
    search (ensures_rules, replay_planned-IsLinked, move-IsLinked, refl) depth 8

-- Every logical arm names an attempt of its own.
pub record IsNamed (a : Accounts) : Type 0 where
  pub attempt :
      (key : LogicalKey) (i : String)
      → lookup key a.logical ≡ some i
      → (t : Attempt) × (lookup i a.attempts ≡ some t) × (t.key ≡ key)

add_attempt-IsNamed :
    (i : String) (key : LogicalKey) (q : String) (a : Accounts)
    → member i a.attempts ≡ false
    → IsNamed a
    → IsNamed (add_attempt i key q a)
unfolding member
add_attempt-IsNamed i key q a new h = record {
  attempt = λ k j found. elim (Bool-cases (k == key)) [
    | inl same ↦ (
      record { key = key; request = q; phase = planned },
      ground (
        arith,
        found,
        same,
        lookup-insert k key i a.logical,
        lookup-insert j i (record { key = key; request = q; phase = planned }) a.attempts,
        eq_iff j i,
      ),
      ground (arith, same, key_beq_iff k key),
    )
    | inr other ↦
        let before : lookup k a.logical ≡ some j =
          ground (arith, found, other, lookup-insert k key i a.logical) in
        let (t, there, own) = h.attempt k j before in
        (
          t,
          ground (
            arith,
            there,
            new,
            lookup-insert j i (record { key = key; request = q; phase = planned }) a.attempts,
            eq_iff j i,
          ),
          own,
        )
  ];
}

store_phase-IsNamed :
    (i : String) (s : Attempt) (p : Phase) (a : Accounts)
    → lookup i a.attempts ≡ some s
    → IsNamed a
    → IsNamed (store_phase i s p a)
store_phase-IsNamed i s p a known h = record {
  attempt = λ k j found.
      let (t, there, own) = h.attempt k j found in
      elim (Bool-cases (j == i)) [
        | inl same ↦ (
          record s { phase = p },
          rw (lookup-insert j i (record s { phase = p }) a.attempts, same) refl,
          ground (arith, known, there, own, same, eq_iff j i),
        )
        | inr other ↦
            (t, rw (lookup-insert j i (record s { phase = p }) a.attempts, other) there, own)
      ];
}

move-IsNamed :
    (i : String) (o : Option Attempt) (p : Phase × Phase) (a : Accounts)
    → lookup i a.attempts ≡ o
    → IsNamed a
    → Ensures IsNamed (move i o p a)
unfolding move
move-IsNamed i none p a known h = Ensures-err _
move-IsNamed i (some t) p a known h =
    Ensures-if (t.phase == p.0) _ _ (λ _. Ensures-pure _ (store_phase-IsNamed i t p.1 a known h))
      (λ _. Ensures-err _)

or-false : (a b : Bool) → (a || b) ≡ false → b ≡ false
or-false a b h = ground arith

replay_planned-IsNamed :
    (i : String) (r : Fields) (a : Accounts) → IsNamed a → Ensures IsNamed (replay_planned i r a)
unfolding replay_planned
replay_planned-IsNamed i r a h = search (ensures_rules, add_attempt-IsNamed, or-false) depth 8

replay_record-IsNamed :
    (r : Fields) (a : Accounts) → IsNamed a → Ensures IsNamed (replay_record r a)
unfolding replay_record
replay_record-IsNamed r a h =
    search (ensures_rules, replay_planned-IsNamed, move-IsNamed, refl) depth 8

module _ (codec : Codec) (header : Fields) where
  -- In a journal that replays, two attempts of one logical arm are one attempt.
  pub logical_arm_once :
      (raw : Bytes) (a : Accounts) (n : ℕ) (i j : String) (t u : Attempt)
      → replay codec header raw ≡ ok (a, n)
      → lookup i a.attempts ≡ some t
      → lookup j a.attempts ≡ some u
      → t.key ≡ u.key
      → i ≡ j
  unfolding lookup
  logical_arm_once raw a n i j t u h first second same_arm =
      let linked =
        replay-keeps codec header IsLinked (record { arm = λ k v found. cc }) replay_record-IsLinked
          raw a n h in
      cc (linked.arm i t first, linked.arm j u second, ap (λ k. lookup k a.logical) same_arm)

  -- In a journal that replays, no attempt and no logical arm is listed twice, the logical arm of each
  -- attempt names that attempt, and each logical arm names an attempt that is there and is its own.
  pub replay-IsMatched :
      (raw : Bytes) (a : Accounts) (n : ℕ)
      → replay codec header raw ≡ ok (a, n)
      → IsKeyed a × IsLinked a × IsNamed a
  unfolding lookup
  replay-IsMatched raw a n h = (
    replay-IsKeyed codec header raw a n h,
    replay-keeps codec header IsLinked (record { arm = λ k v found. cc }) replay_record-IsLinked raw
        a n h,
    replay-keeps codec header IsNamed (record { attempt = λ k i found. cc }) replay_record-IsNamed
        raw a n h,
  )
