-- ===== src/Dispatch/Opening.antt =====
-- What opening a journal's file leaves (skivolve/runner.py, `_GeneratorDispatchLedger.__init__`).
use mathlib.Core.Path.{subst}
use skivolve.Base.{
  ℕ, String, Bool, true, false, some, ◌≡◌, refl, sym, ap, ◌∙◌, inl, inr, arith, ltb, length,
  Result-cases, ok, err, Bool-cases,
}
use skivolve.Json.{Fields}
use skivolve.Dispatch.Types.{Bytes, Codec, Accounts}
use skivolve.Dispatch.Replay.{max_bytes, replay}
use skivolve.Dispatch.Ledger.{
  State, Write, open_ledger, create_or_restore, restore, read, attest, read_file,
}
use skivolve.Dispatch.Writes.{Synced}

module _ (codec : Codec) (header : Fields) where
  -- The state after a journal has been restored.
  abbrev pub restored : Write → Bytes → Accounts × ℕ → State
  restored write raw p = record {
    accounts = p.0;
    record_count = p.1;
    journal_size = length raw;
    journal_sha256 = codec.sha256 raw;
    bound = true;
    lock_held = true;
    journal = some raw;
    next_write = write;
  }

  restored-Synced :
      (write : Write) (raw : Bytes) (p : Accounts × ℕ)
      → ltb max_bytes (length raw) ≡ false
      → replay codec header raw ≡ ok p
      → Synced codec header (restored write raw p)
  restored-Synced write raw p small replayed = record {
    raw = raw;
    on_disk = refl;
    bounded = small;
    size = refl;
    digest = refl;
    is_bound = refl;
    replayed = replayed;
  }

  -- Opening a file within the limit that replays.
  pub open_ledger-replayed :
      (write : Write) (raw : Bytes) (p : Accounts × ℕ)
      → ltb max_bytes (length raw) ≡ false
      → replay codec header raw ≡ ok p
      → open_ledger codec header false write (some raw) ≡ (ok tt, restored write raw p)
  unfolding open_ledger create_or_restore restore read attest read_file
  open_ledger-replayed write raw p small replayed = ground (arith, small, replayed)

  -- Opening a file within the limit whose replay raises.
  pub open_ledger-refused :
      (write : Write) (raw : Bytes) (e : String)
      → ltb max_bytes (length raw) ≡ false
      → replay codec header raw ≡ err e
      → (open_ledger codec header false write (some raw)).0 ≡ err e
  unfolding open_ledger create_or_restore restore read attest read_file
  open_ledger-refused write raw e small refused = ground (arith, small, refused)

  open_ledger-large :
      (write : Write) (raw : Bytes)
      → ltb max_bytes (length raw) ≡ true
      → (open_ledger codec header false write (some raw)).0
        ≡ err "generator dispatch journal exceeds byte limit"
  unfolding open_ledger create_or_restore restore read attest read_file
  open_ledger-large write raw large = ground (arith, large)

  -- A ledger that opens the file of a journal without raising holds its lock and agrees with the file.
  pub open_ledger-Synced :
      (locked : Bool) (write : Write) (raw : Bytes) (u : State)
      → open_ledger codec header locked write (some raw) ≡ (ok tt, u)
      → Synced codec header u × (u.lock_held ≡ true)
  unfolding open_ledger
  open_ledger-Synced true write raw u opened = absurd (cc opened)
  open_ledger-Synced false write raw u opened = elim (Bool-cases (ltb max_bytes (length raw))) [
    | inl large ↦ absurd (cc (open_ledger-large write raw large, opened))
    | inr small ↦ elim (Result-cases (replay codec header raw)) [
      | inr (e, refused) ↦ absurd (cc (open_ledger-refused write raw e small refused, opened))
      | inl (p, replayed) ↦
          let same : restored write raw p ≡ u =
            ap (λ x. x.1) (sym (open_ledger-replayed write raw p small replayed) ∙ opened) in
          (
            subst (Synced codec header) same (restored-Synced write raw p small replayed),
            sym (ap (λ s. s.lock_held) same),
          )
    ]
  ]
