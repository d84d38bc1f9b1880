-- ===== src/Dispatch/Extend.antt =====
-- `_replay` of skivolve/runner.py on a journal that has grown by one line.
use mathlib.Core.List.{append_assoc}
use skivolve.Base.{
  ℕ, suc, true, false, ◌||◌, not, List, [], ◌∷◌, ◌++◌, ◌≡◌, refl, ap, nat_eq, arith, is_empty,
  contains, length-append, ok, traverse, traverse-append, >>=-eq-ok, raise_if-ok, Ensures,
}
use skivolve.Json.{Fields, obj, same}
use skivolve.Dispatch.Types.{Bytes, Codec, Accounts}
use skivolve.Dispatch.Replay.{
  newline, replay_record, replay_records, no_accounts, ends_with_newline, drop_last, split_lines,
  read_line, after_header, replay,
}
use skivolve.Dispatch.Journal.{
  IsKeyed, replay_record-IsKeyed, replay_records-keeps, replay_records-append, ends-append,
  drop_last-append, split_lines-append, split_lines_one,
}

pub ends_with_newline_lem :
    (raw : Bytes) → ends_with_newline raw ≡ true → raw ≡ drop_last raw ++ newline ∷ []
unfolding ends_with_newline drop_last
ends_with_newline_lem [] h = cc
ends_with_newline_lem (b ∷ []) h = ground arith
ends_with_newline_lem (b ∷ c ∷ bs) h = ap (λ t. b ∷ t) (ends_with_newline_lem (c ∷ bs) h)

nonempty-append : (xs : Bytes) (b : ℕ) → is_empty (xs ++ b ∷ []) ≡ false
nonempty-append [] b = refl
nonempty-append (x ∷ xs) b = refl

pub regroup :
    (xs line : Bytes)
    → (xs ++ newline ∷ []) ++ (line ++ newline ∷ []) ≡ (xs ++ newline ∷ line) ++ newline ∷ []
regroup xs line = simp append_assoc

module _ (codec : Codec) (header : Fields) where
  after_header-append :
      (rs : List Fields) (r : Fields) (a c : Accounts) (n : ℕ)
      → after_header codec header rs ≡ ok (a, n)
      → replay_record r a ≡ ok c
      → after_header codec header (rs ++ r ∷ []) ≡ ok (c, suc n)
  unfolding after_header
  after_header-append [] r a c n h e = cc
  after_header-append (first ∷ rs) r a c n h e =
      ground (arith, replay_records-append rs r no_accounts a c, length-append rs (r ∷ []))

  -- What a journal that replays looks like.
  pub replay-eq-ok :
      (raw : Bytes) (p : Accounts × ℕ)
      → replay codec header raw ≡ ok p
      → (ends_with_newline raw ≡ true)
        × ((rs : List Fields) × (traverse (read_line codec) (split_lines (drop_last raw)) ≡ ok rs)
            × (after_header codec header rs ≡ ok p))
  unfolding replay
  replay-eq-ok raw p h =
      let (whole, rest) =
        raise_if-ok (is_empty raw || not (ends_with_newline raw))
          "generator dispatch journal has a torn record" _ h in
      (
        ground (arith, whole),
        >>=-eq-ok (traverse (read_line codec) (split_lines (drop_last raw))) _ rest,
      )

  -- What the empty accounts have, and every record keeps, the accounts of a replay have.
  pub replay-keeps :
      (P : Accounts → Type 0)
      → P no_accounts
      → ((r : Fields) (a : Accounts) → P a → Ensures P (replay_record r a))
      → (raw : Bytes) (a : Accounts) (n : ℕ) → replay codec header raw ≡ ok (a, n)
      → P a
  unfolding after_header
  replay-keeps P start keep raw a n h =
      kept (replay-eq-ok raw (a, n) h).1.0 (replay-eq-ok raw (a, n) h).1.2
    where
      kept : (rs : List Fields) → after_header codec header rs ≡ ok (a, n) → P a
      kept [] e = cc
      kept (first ∷ rs) e =
          let (_, rest) =
            raise_if-ok (not (same (obj first) (obj header)))
              "generator dispatch journal header binding is invalid" _ e in
          let (b, replayed, done) = >>=-eq-ok (replay_records rs no_accounts) _ rest in
          (replay_records-keeps P keep rs no_accounts start).at a (cc (replayed, done))

  -- The accounts that a replay returns list no attempt and no logical arm twice.
  pub replay-IsKeyed :
      (raw : Bytes) (a : Accounts) (n : ℕ) → replay codec header raw ≡ ok (a, n) → IsKeyed a
  replay-IsKeyed =
      replay-keeps IsKeyed (record { attempts_distinct = tt; logical_distinct = tt })
        replay_record-IsKeyed

  replay_whole :
      (xs : Bytes) (rs : List Fields) (p : Accounts × ℕ)
      → traverse (read_line codec) (split_lines xs) ≡ ok rs
      → after_header codec header rs ≡ ok p
      → replay codec header (xs ++ newline ∷ []) ≡ ok p
  unfolding replay
  replay_whole xs rs p h e =
      rw (nonempty-append xs newline, ends-append xs, drop_last-append xs newline, h) e

  -- A journal that replays, with one more line, replays to the accounts with one more record.
  pub replay-append :
      (raw line : Bytes) (r : Fields) (a c : Accounts) (n : ℕ)
      → replay codec header raw ≡ ok (a, n)
      → read_line codec line ≡ ok r
      → contains newline line ≡ false
      → replay_record r a ≡ ok c
      → replay codec header (raw ++ (line ++ newline ∷ [])) ≡ ok (c, suc n)
  replay-append raw line r a c n h read clean step =
      let (whole, found) = replay-eq-ok raw (a, n) h in
      let (rs, lines, records) = found in
      let xs = drop_last raw in
      rw (ends_with_newline_lem raw whole, regroup xs line)
        (replay_whole (xs ++ newline ∷ line) (rs ++ r ∷ []) (c, suc n)
          (rw (split_lines-append xs line, split_lines_one line clean)
            (traverse-append (read_line codec) (split_lines xs) line rs r lines read))
          (after_header-append rs r a c n records step))
