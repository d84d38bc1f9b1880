-- ===== src/Dispatch/Journal.antt =====
-- Lemmas on `_replay` of skivolve/runner.py: one more line in the journal is one more record, and
-- the accounts that it returns list no key twice.
use skivolve.Base.{
  ℕ, String, true, false, Option, none, some, List, [], ◌∷◌, ◌++◌, ◌≡◌, ◌≢◌, refl, ap, ◌==◌, nat_eq,
  string_eq, arith, contains, ok, >>=-eq-ok, Ensures, ensures_rules, Ensures-pure, Ensures-err,
  Ensures-bind, Ensures-if,
}
use skivolve.Base.Dict.{insert-KeysDistinct, KeysDistinct}
use skivolve.Json.{Fields}
use skivolve.Dispatch.Types.{Bytes, Phase, Attempt, Accounts, LogicalKey, key_eq, phase_eq}
use skivolve.Dispatch.Replay.{
  newline, replay_planned, add_attempt, move, replay_record, replay_records, ends_with_newline,
  drop_last, split_lines, add_byte,
}

pub record IsKeyed (a : Accounts) : Type 0 where
  pub attempts_distinct : KeysDistinct a.attempts
  pub logical_distinct : KeysDistinct a.logical

add_attempt-IsKeyed :
    (i : String) (key : LogicalKey) (q : String) (a : Accounts)
    → IsKeyed a
    → IsKeyed (add_attempt i key q a)
add_attempt-IsKeyed i key q a h = record {
  attempts_distinct = insert-KeysDistinct i _ a.attempts h.attempts_distinct;
  logical_distinct = insert-KeysDistinct key i a.logical h.logical_distinct;
}

move-IsKeyed :
    (i : String) (o : Option Attempt) (p : Phase × Phase) (a : Accounts)
    → IsKeyed a
    → Ensures IsKeyed (move i o p a)
unfolding move
move-IsKeyed i none p a h = Ensures-err _
move-IsKeyed i (some t) p a h =
    Ensures-if (t.phase == p.0) _ _
      (λ _. Ensures-pure _ (record {
        attempts_distinct = insert-KeysDistinct i _ a.attempts h.attempts_distinct;
        logical_distinct = h.logical_distinct;
      }))
      (λ _. Ensures-err _)

replay_planned-IsKeyed :
    (i : String) (r : Fields) (a : Accounts) → IsKeyed a → Ensures IsKeyed (replay_planned i r a)
unfolding replay_planned
replay_planned-IsKeyed i r a h = search (ensures_rules, add_attempt-IsKeyed) depth 7

pub replay_record-IsKeyed :
    (r : Fields) (a : Accounts) → IsKeyed a → Ensures IsKeyed (replay_record r a)
unfolding replay_record
replay_record-IsKeyed r a h = search (ensures_rules, replay_planned-IsKeyed, move-IsKeyed) depth 7

-- What every record keeps, a list of records keeps.
pub replay_records-keeps :
    (P : Accounts → Type 0)
    → ((r : Fields) (a : Accounts) → P a → Ensures P (replay_record r a))
    → (rs : List Fields) (a : Accounts) → P a
    → Ensures P (replay_records rs a)
unfolding replay_records
replay_records-keeps P keep [] a h = Ensures-pure a h
replay_records-keeps P keep (r ∷ rs) a h =
    Ensures-bind (replay_record r a) (replay_records rs)
      λ b e. replay_records-keeps P keep rs b ((keep r a h).at b e)

pub replay_records-append :
    (rs : List Fields) (r : Fields) (a b c : Accounts)
    → replay_records rs a ≡ ok b
    → replay_record r b ≡ ok c
    → replay_records (rs ++ r ∷ []) a ≡ ok c
unfolding replay_records
replay_records-append [] r a b c h e = ground (arith, h, e)
replay_records-append (s ∷ rs) r a b c h e =
    let (d, first, later) = >>=-eq-ok (replay_record s a) (replay_records rs) h in
    rw first (replay_records-append rs r d b c later e)

pub ends-append : (xs : Bytes) → ends_with_newline (xs ++ newline ∷ []) ≡ true
unfolding ends_with_newline
ends-append [] = refl
ends-append (x ∷ []) = refl
ends-append (x ∷ y ∷ xs) = ends-append (y ∷ xs)

pub drop_last-append : (xs : Bytes) (b : ℕ) → drop_last (xs ++ b ∷ []) ≡ xs
unfolding drop_last
drop_last-append [] b = refl
drop_last-append (x ∷ []) b = refl
drop_last-append (x ∷ y ∷ xs) b = ap (λ t. x ∷ t) (drop_last-append (y ∷ xs) b)

add_byte-append :
    (b : ℕ) (ls ms : List Bytes) → ls ≢ [] → add_byte b (ls ++ ms) ≡ add_byte b ls ++ ms
unfolding add_byte
add_byte-append b [] ms h = absurd (h refl)
add_byte-append b (l ∷ ls) ms h = refl

split_lines_nonempty : (xs : Bytes) → split_lines xs ≢ []
unfolding split_lines add_byte
split_lines_nonempty [] e = cc
split_lines_nonempty (b ∷ xs) e = ground (arith, split_lines_nonempty xs)

pub split_lines-append :
    (xs ys : Bytes) → split_lines (xs ++ newline ∷ ys) ≡ split_lines xs ++ split_lines ys
unfolding split_lines
split_lines-append [] ys = refl
split_lines-append (b ∷ xs) ys = ground (
  arith,
  split_lines-append xs ys,
  add_byte-append b (split_lines xs) (split_lines ys) (split_lines_nonempty xs),
)

pub split_lines_one : (line : Bytes) → contains newline line ≡ false → split_lines line ≡ line ∷ []
unfolding split_lines contains add_byte
split_lines_one [] h = refl
split_lines_one (b ∷ line) h = ground (arith, split_lines_one line)
