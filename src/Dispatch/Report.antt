-- ===== src/Dispatch/Report.antt =====
-- What `audit` of `_GeneratorDispatchLedger` of skivolve/runner.py returns.
use skivolve.Base.{
  ℕ, suc, ◌+◌, String, Bool, true, false, ◌&&◌, [], ◌∷◌, map, ◌≡◌, refl, ◌∙◌, ◌==◌, string_eq,
  arith, length, select, count_if, ok, Bool-cases, inl, inr, beq_sound, beq_ne,
}
use skivolve.Base.Sort.{sort, text_lt, count_if-sort}
use skivolve.Base.Dict.{Dict}
use skivolve.Json.{Fields}
use skivolve.Dispatch.Types.{
  Codec, Phase, planned, dispatched, completed, failed, phase_eq, Attempt,
}
use skivolve.Dispatch.Replay.{replay}
use skivolve.Dispatch.Ledger.{
  State, Audit, Unresolved, unresolved_of, is_unresolved, in_phase, audit, report,
}
use skivolve.Dispatch.Writes.{CodecLaws, Synced}
use skivolve.Dispatch.Methods.{audit_lem}

-- So many attempts are in a phase.
pub data Counts (p : Phase) : Dict String Attempt → ℕ → Type 0 where
  no_more : Counts p [] 0
  one_more :
      {i : String} {t : Attempt} {d : Dict String Attempt} {n : ℕ}
      → t.phase ≡ p
      → Counts p d n
      → Counts p ((i, t) ∷ d) (suc n)
  another :
      {i : String} {t : Attempt} {d : Dict String Attempt} {n : ℕ}
      → ¬ (t.phase ≡ p)
      → Counts p d n
      → Counts p ((i, t) ∷ d) n

-- A phase in which an attempt is not over.
abbrev pub is_open : Phase → Bool
is_open planned = true
is_open dispatched = true
is_open completed = false
is_open failed = false

-- An attempt that is not over and that a test on its id, phase and request holds for.
abbrev pub is_open_and : (String → Phase → String → Bool) → String × Attempt → Bool
is_open_and test (i, t) = is_open t.phase && test i t.phase t.request

abbrev pub listed : (String → Phase → String → Bool) → Unresolved → Bool
listed test u = test u.attempt_id u.phase u.request_sha256

in_phase-Counts : (p : Phase) (d : Dict String Attempt) → Counts p d (count_if (in_phase p) d)
unfolding in_phase
in_phase-Counts p [] = no_more
in_phase-Counts p ((i, t) ∷ d) = elim (Bool-cases (t.phase == p)) [
  | inl same ↦ rw same (one_more (beq_sound t.phase p same) (in_phase-Counts p d))
  | inr other ↦ rw other (another (beq_ne t.phase p other) (in_phase-Counts p d))
]

count_listed :
    (test : String → Phase → String → Bool) (d : Dict String Attempt)
    → count_if (listed test) (map unresolved_of (select is_unresolved d))
      ≡ count_if (is_open_and test) d
unfolding is_unresolved
count_listed test [] = refl
count_listed test ((i, t) ∷ d) = ground (arith, count_listed test d)

counts_add :
    (d : Dict String Attempt)
    → count_if (in_phase planned) d
        + count_if (in_phase dispatched) d
        + count_if (in_phase completed) d
        + count_if (in_phase failed) d
      ≡ length d
unfolding in_phase
counts_add [] = omega arith
counts_add ((i, t) ∷ d) = ground (arith, counts_add d)

module _ (codec : Codec) (header : Fields) where
  -- What an audit says of a ledger whose memory agrees with its file.
  pub record IsReport (s : State) (h : Synced codec header s) (a : Audit) : Type 0 where
    pub attempts_eq : a.attempts ≡ length s.attempts
    pub digest : a.journal_sha256 ≡ codec.sha256 h.raw
    pub records : replay codec header h.raw ≡ ok (s.accounts, a.records)
    pub planned_are : Counts planned s.attempts a.planned_count
    pub dispatched_are : Counts dispatched s.attempts a.dispatched_count
    pub completed_are : Counts completed s.attempts a.completed_count
    pub failed_are : Counts failed s.attempts a.failed_count
    pub all_counted :
        a.planned_count + a.dispatched_count + a.completed_count + a.failed_count ≡ a.attempts
    pub unresolved_are :
        (test : String → Phase → String → Bool)
        → count_if (listed test) a.unresolved ≡ count_if (is_open_and test) s.attempts

  report-IsReport : (s : State) (h : Synced codec header s) → IsReport s h (report codec header s)
  unfolding report
  report-IsReport s h = record {
    attempts_eq = refl;
    digest = h.digest;
    records = h.replayed;
    planned_are = in_phase-Counts planned s.attempts;
    dispatched_are = in_phase-Counts dispatched s.attempts;
    completed_are = in_phase-Counts completed s.attempts;
    failed_are = in_phase-Counts failed s.attempts;
    all_counted = counts_add s.attempts;
    unresolved_are = λ test.
        count_listed test (sort (λ a b. text_lt a.0 b.0) s.attempts)
        ∙ count_if-sort (λ a b. text_lt a.0 b.0) (is_open_and test) s.attempts;
  }

  -- With a codec that keeps its laws, on a ledger that holds its lock and whose memory agrees with its
  -- file, `audit` returns and changes nothing. It reports the digest of the file and the number of
  -- records that a replay of the file reads, the number of attempts, how many are planned, dispatched,
  -- completed and failed, which add up to all, and as unresolved, with their ids, phases and request
  -- digests, exactly the attempts that are planned or dispatched, each as often as it is there.
  pub audit-IsReport :
      CodecLaws codec
      → (s : State) (h : Synced codec header s) → s.lock_held ≡ true
      → (a : Audit) × (audit codec header s ≡ (ok a, s)) × IsReport s h a
  audit-IsReport laws s h held =
      (report codec header s, audit_lem codec header laws s h held, report-IsReport s h)
