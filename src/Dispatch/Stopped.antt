-- ===== src/Dispatch/Stopped.antt =====
-- What a raise in the middle of `_append` of skivolve/runner.py leaves behind, and that the ledger
-- then refuses to go on.
use native.Mathlib.Numerals.{add-one}
use mathlib.Core.Path.{subst}
use mathlib.Core.List.{append-nil}
use skivolve.Base.{
  ℕ, zero, suc, ◌+◌, String, true, false, some, [], ◌∷◌, ◌++◌, ◌≡◌, ◌≤◌, refl, sym, ap, ◌∙◌, ◌⊎◌,
  inl, inr, nat_eq, ◌==◌, string_eq, arith, ltb, length, length-append, contains, Result, ok, err,
  take,
}
use skivolve.Base.Dict.{lookup, dict_same-differs}
use skivolve.Base.Exec.{◌>>◌}
use skivolve.Json.{Fields}
use skivolve.Dispatch.Types.{Bytes, Codec, Attempt, attempt_eq, key_eq, Accounts}
use skivolve.Dispatch.Records.{Entry, entry_record}
use skivolve.Dispatch.Replay.{max_bytes, newline, replay, replay_record}
use skivolve.Dispatch.Ledger.{
  State, read, attest, sync, prefix_modified, drifted, read_file, encode_line, remembered,
  write_line, Write, complete, refused, interrupted, unattested, update_accounts,
}
use skivolve.Dispatch.Writes.{
  CodecLaws, Synced, read_remembered, remembered-Synced, encode_line-eq-ok, replay-written,
}
use skivolve.Dispatch.Faults.{replay_torn}

-- What is left of a line after `n` bytes: nothing, a part without the line end, or all.
take-line :
    (n : ℕ) (b : Bytes)
    → contains newline b ≡ false
    → (take n (b ++ newline ∷ []) ≡ [])
      ⊎ (((c : ℕ) × (cs : Bytes) × (take n (b ++ newline ∷ []) ≡ c ∷ cs)
            × (contains newline (c ∷ cs) ≡ false))
          ⊎ (take n (b ++ newline ∷ []) ≡ b ++ newline ∷ []))
unfolding contains
take-line zero [] clean = inl refl
take-line zero (c ∷ b) clean = inl refl
take-line (suc n) [] clean = inr (inr refl)
take-line (suc n) (c ∷ b) clean = elim (take-line n b (ground (arith, clean))) [
  | inl none ↦ inr (inl (c, [], ap (λ t. c ∷ t) none, ground (arith, clean)))
  | inr (inl (d, ds, some_left, rest)) ↦
      inr (inl (c, d ∷ ds, ap (λ t. c ∷ t) some_left, ground (arith, clean, rest)))
  | inr (inr all) ↦ inr (inr (ap (λ t. c ∷ t) all))
]

module _ (codec : Codec) (header : Fields) where
  -- What a replay of the file does after the raise: it refuses a torn line, or it has one record more.
  abbrev pub Recovers : (Accounts → Type 0) → Bytes → ℕ → Type 0
  Recovers Q content count =
      (replay codec header content ≡ err "generator dispatch journal has a torn record")
      ⊎ ((next : Accounts) × Q next × (replay codec header content ≡ ok (next, suc count)))

  -- The file's size or digest is not the remembered one, or its replay is not the memory.
  abbrev Disagrees : Bytes → State → Type 0
  Disagrees content t =
      (prefix_modified codec header content t ≡ true)
      ⊎ ((p : Accounts × ℕ) × (t.journal_size ≡ length content)
          × (t.journal_sha256 ≡ codec.sha256 content)
          × (replay codec header content ≡ ok p)
          × (drifted codec header p t ≡ true))

  -- A ledger whose last append raised after bytes were written: the file was in agreement with the
  -- accounts in memory before those bytes.
  pub record Stopped (Q : Accounts → Type 0) (t : State) : Type 0 where
    pub before : Bytes
    pub left : Bytes
    pub count : ℕ
    pub on_disk : t.journal ≡ some (before ++ left)
    pub bounded : ltb max_bytes (length (before ++ left)) ≡ false
    pub is_bound : t.bound ≡ true
    pub replayed : replay codec header before ≡ ok (t.accounts, count)
    pub disagrees : Disagrees (before ++ left) t
    pub recovers : Recovers Q (before ++ left) count

  sync-prefix_modified :
      (t : State) (content : Bytes)
      → t.lock_held ≡ true
      → t.journal ≡ some content
      → ltb max_bytes (length content) ≡ false
      → t.bound ≡ true
      → prefix_modified codec header content t ≡ true
      → sync codec header t ≡ (err "generator dispatch journal prefix was modified", t)
  unfolding sync read attest read_file
  sync-prefix_modified t content held on_disk bounded bound modified =
      ground (arith, held, on_disk, bounded, bound, modified)

  sync-drifted :
      (t : State) (content : Bytes) (p : Accounts × ℕ)
      → read codec header t ≡ (ok content, t)
      → replay codec header content ≡ ok p
      → drifted codec header p t ≡ true
      → sync codec header t ≡ (err "generator dispatch journal state drifted in memory", t)
  unfolding sync
  sync-drifted t content p reads replayed apart = rw (reads, replayed, apart) refl

  refuses :
      {Q : Accounts → Type 0} (t : State) (h : Stopped Q t)
      → t.lock_held ≡ true
      → Disagrees (h.before ++ h.left) t
      → (e : String) × (sync codec header t ≡ (err e, t))
  refuses t h held (inl modified) = (
    "generator dispatch journal prefix was modified",
    sync-prefix_modified t (h.before ++ h.left) held h.on_disk h.bounded h.is_bound modified,
  )
  refuses t h held (inr (p, size, digest, replayed, apart)) = (
    "generator dispatch journal state drifted in memory",
    sync-drifted t (h.before ++ h.left) p
        (read_remembered codec header t (h.before ++ h.left) held h.on_disk h.bounded h.is_bound
          size digest)
        replayed apart,
  )

  -- A ledger that has stopped raises at the synchronisation that every call begins with.
  pub sync-Stopped :
      {Q : Accounts → Type 0} (t : State) (h : Stopped Q t)
      → t.lock_held ≡ true
      → (e : String) × (sync codec header t ≡ (err e, t))
  sync-Stopped t h held = refuses t h held h.disagrees

  -- A call that began at `s` raised while it wrote: the memory still holds the accounts, the file is
  -- the old one and what was written, and the ledger has stopped.
  pub record RaisedWriting {A : Type 0} (s : State) (Q : Accounts → Type 0) (r : Result A × State)
      : Type 0 where
    pub message : String
    pub raised : r.0 ≡ err message
    pub accounts_kept : r.1.accounts ≡ s.accounts
    pub lock_kept : r.1.lock_held ≡ s.lock_held
    pub stopped : Stopped Q r.1
    pub file_kept : s.journal ≡ some stopped.before

  Stopped-weaken :
      {Q P : Accounts → Type 0} (t : State) (h : Stopped Q t)
      → ((next : Accounts) → Q next → P next)
      → (g : Stopped P t) × (g.before ≡ h.before)
  Stopped-weaken {Q} {P} t h f = (
    record {
      before = h.before;
      left = h.left;
      count = h.count;
      on_disk = h.on_disk;
      bounded = h.bounded;
      is_bound = h.is_bound;
      replayed = h.replayed;
      disagrees = h.disagrees;
      recovers = Recovers-weaken h.recovers;
    },
    refl,
  )
    where
      Recovers-weaken :
          Recovers Q (h.before ++ h.left) h.count → Recovers P (h.before ++ h.left) h.count
      Recovers-weaken (inl torn) = inl torn
      Recovers-weaken (inr (next, q, replayed)) = inr (next, f next q, replayed)

  pub RaisedWriting-weaken :
      {A : Type 0} {Q P : Accounts → Type 0} (s : State) (r : Result A × State)
      → RaisedWriting s Q r
      → ((next : Accounts) → Q next → P next)
      → RaisedWriting s P r
  RaisedWriting-weaken s r w f = record {
    message = w.message;
    raised = w.raised;
    accounts_kept = w.accounts_kept;
    lock_kept = w.lock_kept;
    stopped = (Stopped-weaken r.1 w.stopped f).0;
    file_kept = w.file_kept ∙ ap some (sym (Stopped-weaken r.1 w.stopped f).1);
  }

  -- A call that began at `s` raised and changed nothing, or raised while it wrote, or returned in
  -- agreement with the file, with accounts that `Q` describes.
  abbrev pub Settles : {A : Type 0} → State → (Accounts → Type 0) → Result A × State → Type 0
  Settles {A} s Q r =
      ((e : String) × (r ≡ (err e, s)))
      ⊎ (RaisedWriting s Q r
          ⊎ ((a : A) × (r.0 ≡ ok a)
              × Synced codec header r.1
              × Q r.1.accounts
              × (r.1.lock_held ≡ s.lock_held)))

  longer : (raw : Bytes) (c : ℕ) (cs : Bytes) → (length (raw ++ c ∷ cs) == length raw) ≡ false
  longer raw c cs = ground (arith, length-append raw (c ∷ cs))

  longer_line : (raw b : Bytes) → (length (raw ++ (b ++ newline ∷ [])) == length raw) ≡ false
  longer_line raw b =
      ground (arith, length-append raw (b ++ newline ∷ []), length-append b (newline ∷ []))

  length-take : (n : ℕ) (b : Bytes) → length (take n b) ≤ length b
  length-take n [] = omega arith
  length-take zero (c ∷ b) = omega arith
  length-take (suc n) (c ∷ b) = omega (arith, length-take n b)

  module _ (laws : CodecLaws codec) (s : State) (h : Synced codec header s) (e : Entry)
      (line : Bytes) (next : Accounts) (Q : Accounts → Type 0)
      (encoded : encode_line codec header (entry_record e) ≡ ok line)
      (fits : ltb max_bytes (length h.raw + length line) ≡ false)
      (replays : replay_record (entry_record e) s.accounts ≡ ok next) (q : Q next) where
    -- The first bytes of the line are in the file, and the memory is as it was.
    raised-interrupted :
        (m : String) (more : Bytes)
        → (length (h.raw ++ more) == length h.raw) ≡ false
        → length more ≤ length line
        → Recovers Q (h.raw ++ more) s.record_count
        → RaisedWriting {A = Unit {0}} s Q (err m, record s { journal = some (h.raw ++ more) })
    unfolding prefix_modified
    raised-interrupted m more grown short recovers = record {
      message = m;
      raised = refl;
      accounts_kept = refl;
      lock_kept = refl;
      file_kept = h.on_disk;
      stopped = record {
        before = h.raw;
        left = more;
        count = s.record_count;
        on_disk = refl;
        bounded = ground (arith, fits, short, length-append h.raw more);
        is_bound = h.is_bound;
        replayed = h.replayed;
        disagrees = inl (rw (h.size, grown) refl);
        recovers = recovers;
      };
    }

    whole-Recovers : Recovers Q (h.raw ++ line) s.record_count
    whole-Recovers = inr (
      next,
      q,
      subst (λ n. replay codec header (h.raw ++ line) ≡ ok (next, n)) (add-one s.record_count)
          (replay-written codec header laws s h e line next encoded replays),
    )

    -- The whole line is in the file and remembered, and the accounts are as they were.
    raised-unattested :
        (m i : String) (t : Attempt)
        → lookup i next.attempts ≡ some t
        → ¬ (lookup i s.attempts ≡ some t)
        → RaisedWriting {A = Unit {0}} s Q (err m, remembered codec header (h.raw ++ line) s)
    unfolding drifted
    raised-unattested m i t found differs = record {
      message = m;
      raised = refl;
      accounts_kept = refl;
      lock_kept = refl;
      file_kept = h.on_disk;
      stopped = record {
        before = h.raw;
        left = line;
        count = s.record_count;
        on_disk = refl;
        bounded = rw (length-append h.raw line) fits;
        is_bound = refl;
        replayed = h.replayed;
        disagrees = inr (
          (next, s.record_count + 1),
          refl,
          refl,
          replay-written codec header laws s h e line next encoded replays,
          rw (dict_same-differs next.attempts s.attempts i t found differs) refl,
        );
        recovers = whole-Recovers;
      };
    }

    -- The bytes that an interrupted write leaves.
    interrupted-Settles :
        (m : String) (n : ℕ) (b : Bytes)
        → line ≡ b ++ newline ∷ []
        → contains newline b ≡ false
        → Settles {A = Unit {0}} s Q (err m, record s { journal = some (h.raw ++ take n line) })
    interrupted-Settles m n b is_line clean = elim (take-line n b clean) [
      | inl none_left ↦ inl (m, rw (is_line, none_left, append-nil h.raw, h.on_disk) refl)
      | inr (inl (c, cs, part, no_end)) ↦ inr (
          inl (
            rw (is_line, part)
              (raised-interrupted m (c ∷ cs) (longer h.raw c cs)
                (omega
                  (arith, ap length part, ap length is_line, length-take n (b ++ newline ∷ [])))
                (inl (replay_torn codec header h.raw c cs no_end)))))
      | inr (inr all) ↦ inr (
          inl (
            rw (is_line, all, sym is_line)
              (raised-interrupted m line (rw is_line (longer_line h.raw b)) (omega arith)
                whole-Recovers)))
    ]

    write_line-complete :
        (f : Accounts → Accounts)
        → s.lock_held ≡ true
        → s.next_write ≡ complete
        → (write_line codec header h.raw line >> update_accounts f) s
          ≡ (ok tt, record (remembered codec header (h.raw ++ line) s) { accounts = f s.accounts })
    unfolding write_line attest
    write_line-complete f held how = ground (arith, held, how)

    write_line-interrupted :
        (f : Accounts → Accounts) (n : ℕ)
        → s.next_write ≡ interrupted n
        → (write_line codec header h.raw line >> update_accounts f) s ≡ (
          err "cannot persist generator dispatch journal",
          record s { journal = some (h.raw ++ take n line) },
        )
    unfolding write_line
    write_line-interrupted f n how = ground (arith, how)

    write_line-unattested :
        (f : Accounts → Accounts)
        → s.next_write ≡ unattested
        → (write_line codec header h.raw line >> update_accounts f) s ≡ (
          err "generator dispatch lifetime lock lost integrity",
          remembered codec header (h.raw ++ line) s,
        )
    unfolding write_line
    write_line-unattested f how = ground (arith, how)

    -- The write of the entry's line, however it ends, and then the write to memory.
    pub write_line-Settles :
        (f : Accounts → Accounts) (i : String) (t : Attempt)
        → next ≡ f s.accounts
        → lookup i next.attempts ≡ some t
        → ¬ (lookup i s.attempts ≡ some t)
        → s.lock_held ≡ true
        → (w : Write) → s.next_write ≡ w
        → Settles s Q ((write_line codec header h.raw line >> update_accounts f) s)
    unfolding write_line attest
    write_line-Settles f i t is_next found differs held complete how =
        subst (Settles s Q) (sym (write_line-complete f held how)) (
          inr (
            inr (
              tt,
              refl,
              subst
                  (λ a.
                    Synced codec header
                      (record (remembered codec header (h.raw ++ line) s) { accounts = a }))
                  is_next
                  (remembered-Synced codec header laws s h e line next encoded fits replays),
              subst Q is_next q,
              refl,
            )))
    write_line-Settles f i t is_next found differs held refused how =
        inl ("cannot persist generator dispatch journal", rw how refl)
    write_line-Settles f i t is_next found differs held (interrupted n) how =
        let (b, is_line, clean, reads) = encode_line-eq-ok codec header laws e line encoded in
        subst (Settles s Q) (sym (write_line-interrupted f n how))
          (interrupted-Settles "cannot persist generator dispatch journal" n b is_line clean)
    write_line-Settles f i t is_next found differs held unattested how =
        subst (Settles s Q) (sym (write_line-unattested f how)) (
          inr (
            inl (
              raised-unattested "generator dispatch lifetime lock lost integrity" i t found
                differs)))
