-- ===== src/Dispatch/Writes.antt =====
-- Reading and writing the journal of `_GeneratorDispatchLedger` of skivolve/runner.py, when the
-- ledger's memory agrees with the file.
use native.Mathlib.Numerals.{add-one}
use skivolve.Base.{
  ◌+◌, String, true, false, none, some, [], ◌∷◌, ◌++◌, ◌≡◌, refl, ◌⊎◌, inl, inr, nat_eq, string_eq,
  list_eq, arith, ltb, length, is_empty, contains, length-append, Result-cases, Option-cases, ok,
  err, beq_refl, Bool-cases,
}
use skivolve.Base.Dict.{dict_same_refl}
use skivolve.Base.Text.{is_hex}
use skivolve.Json.{Value, Fields, obj}
use skivolve.Dispatch.Types.{Bytes, Codec, Accounts, key_eq, attempt_eq}
use skivolve.Dispatch.Records.{Entry, entry_record}
use skivolve.Dispatch.Replay.{
  max_bytes, max_record_bytes, newline, replay_record, read_line, replay,
}
use skivolve.Dispatch.Extend.{replay-IsKeyed, replay-append}
use skivolve.Dispatch.Ledger.{State, read, encode_line, append, sync, write_line, remembered}

-- What the ledger relies on of `json`, `hashlib` and its own canonical form: a record that is written
-- is read back, on one line that is not empty, and a digest is 64 hexadecimal digits.
pub record CodecLaws (codec : Codec) : Type 0 where
  pub round_trip :
      (e : Entry) (b : Bytes)
      → codec.canonical (obj (entry_record e)) ≡ some b
      → codec.loads b ≡ some (obj (entry_record e))
  pub one_line : (v : Value) (b : Bytes) → codec.canonical v ≡ some b → contains newline b ≡ false
  pub not_empty : (v : Value) (b : Bytes) → codec.canonical v ≡ some b → is_empty b ≡ false
  pub digest_hex : (b : Bytes) → is_hex 64 (codec.sha256 b) ≡ true

module _ (codec : Codec) (header : Fields) where
  -- The memory of the ledger is what a replay of the journal's file returns.
  pub record Synced (s : State) : Type 0 where
    pub raw : Bytes
    pub on_disk : s.journal ≡ some raw
    pub bounded : ltb max_bytes (length raw) ≡ false
    pub size : s.journal_size ≡ length raw
    pub digest : s.journal_sha256 ≡ codec.sha256 raw
    pub is_bound : s.bound ≡ true
    pub replayed : replay codec header raw ≡ ok (s.accounts, s.record_count)

  -- Reading a file of the size and the digest that are remembered.
  pub read_remembered :
      (s : State) (raw : Bytes)
      → s.lock_held ≡ true
      → s.journal ≡ some raw
      → ltb max_bytes (length raw) ≡ false
      → s.bound ≡ true
      → s.journal_size ≡ length raw
      → s.journal_sha256 ≡ codec.sha256 raw
      → read codec header s ≡ (ok raw, s)
  unfolding read
  read_remembered s raw held on_disk bounded bound size digest =
      ground (arith, held, on_disk, bounded, size, digest, bound, beq_refl (codec.sha256 raw))

  pub read_lem :
      (s : State) (h : Synced s) → s.lock_held ≡ true → read codec header s ≡ (ok h.raw, s)
  read_lem s h held = read_remembered s h.raw held h.on_disk h.bounded h.is_bound h.size h.digest

  pub sync_lem : (s : State) → Synced s → s.lock_held ≡ true → sync codec header s ≡ (ok tt, s)
  unfolding sync
  sync_lem s h held =
      let keyed = replay-IsKeyed codec header h.raw s.accounts s.record_count h.replayed in
      ground (
        arith,
        read_lem s h held,
        h.replayed,
        dict_same_refl s.attempts keyed.attempts_distinct,
        dict_same_refl s.logical keyed.logical_distinct,
      )

  pub append_cases :
      (s : State) (h : Synced s) (r : Fields)
      → s.lock_held ≡ true
      → ((e : String) × (append codec header r false s ≡ (err e, s)))
        ⊎ ((line : Bytes) × (encode_line codec header r ≡ ok line)
            × (ltb max_bytes (length h.raw + length line) ≡ false)
            × (append codec header r false s ≡ write_line codec header h.raw line s))
  unfolding append
  append_cases s h r held = elim (Result-cases (encode_line codec header r)) [
    | inr (e, failed_line) ↦ inl (e, ground (arith, failed_line))
    | inl (line, encoded) ↦ elim (Bool-cases (ltb max_bytes (length h.raw + length line))) [
      | inl over ↦ inl (
        "generator dispatch journal exceeds byte limit",
        ground (
          arith,
          encoded,
          over,
          h.on_disk,
          h.bounded,
          h.size,
          h.digest,
          beq_refl (codec.sha256 h.raw),
        ),
      )
      | inr fits ↦ inr (
        line,
        encoded,
        fits,
        ground (
          arith,
          encoded,
          fits,
          h.on_disk,
          h.bounded,
          h.size,
          h.digest,
          beq_refl (codec.sha256 h.raw),
        ),
      )
    ]
  ]

  read_line_written :
      (fs : Fields) (b : Bytes)
      → codec.canonical (obj fs) ≡ some b
      → codec.loads b ≡ some (obj fs)
      → is_empty b ≡ false
      → ltb max_record_bytes (length b) ≡ false
      → read_line codec b ≡ ok fs
  unfolding read_line
  read_line_written fs b canonical loads full fits =
      ground (arith, canonical, loads, full, fits, beq_refl b)

  encode_line_lem :
      (fs : Fields) (b line : Bytes)
      → codec.canonical (obj fs) ≡ some b
      → encode_line codec header fs ≡ ok line
      → (line ≡ b ++ newline ∷ []) × (ltb max_record_bytes (length b) ≡ false)
  unfolding encode_line
  encode_line_lem fs b line canonical h = ground (arith, canonical, length-append b (newline ∷ []))

  encode_line_refused :
      (fs : Fields) (line : Bytes)
      → codec.canonical (obj fs) ≡ none
      → ¬ (encode_line codec header fs ≡ ok line)
  unfolding encode_line
  encode_line_refused fs line refused h = ground (arith, refused)

  -- What `_append` writes is a line that a replay reads as the record.
  pub encode_line-eq-ok :
      CodecLaws codec
      → (e : Entry) (line : Bytes) → encode_line codec header (entry_record e) ≡ ok line
      → (b : Bytes) × (line ≡ b ++ newline ∷ [])
        × (contains newline b ≡ false)
        × (read_line codec b ≡ ok (entry_record e))
  encode_line-eq-ok laws e line h = elim (Option-cases (codec.canonical (obj (entry_record e)))) [
    | inl refused ↦ absurd (encode_line_refused (entry_record e) line refused h)
    | inr (b, canonical) ↦
        let (is_line, fits) = encode_line_lem (entry_record e) b line canonical h in
        (
          b,
          is_line,
          laws.one_line (obj (entry_record e)) b canonical,
          read_line_written (entry_record e) b canonical (laws.round_trip e b canonical)
              (laws.not_empty (obj (entry_record e)) b canonical) fits,
        )
  ]

  -- The replay of the file once the record of an entry has been written.
  pub replay-written :
      CodecLaws codec
      → (s : State) (h : Synced s) (e : Entry) (line : Bytes) (next : Accounts)
      → encode_line codec header (entry_record e) ≡ ok line
      → replay_record (entry_record e) s.accounts ≡ ok next
      → replay codec header (h.raw ++ line) ≡ ok (next, s.record_count + 1)
  replay-written laws s h e line next encoded step =
      let (b, is_line, clean, reads) = encode_line-eq-ok laws e line encoded in
      rw (is_line, add-one)
        (replay-append codec header h.raw b (entry_record e) s.accounts next s.record_count
          h.replayed reads clean step)

  -- After the record of an entry has been written, the ledger is in agreement again when its memory
  -- holds what the record says.
  pub remembered-Synced :
      CodecLaws codec
      → (s : State) (h : Synced s) (e : Entry) (line : Bytes) (next : Accounts)
      → encode_line codec header (entry_record e) ≡ ok line
      → ltb max_bytes (length h.raw + length line) ≡ false
      → replay_record (entry_record e) s.accounts ≡ ok next
      → Synced (record (remembered codec header (h.raw ++ line) s) { accounts = next })
  remembered-Synced laws s h e line next encoded fits step = record {
    raw = h.raw ++ line;
    on_disk = refl;
    bounded = rw (length-append h.raw line) fits;
    size = refl;
    digest = refl;
    is_bound = refl;
    replayed = replay-written laws s h e line next encoded step;
  }
