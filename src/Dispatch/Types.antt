-- ===== src/Dispatch/Types.antt =====
-- What the generator dispatch ledger keeps (skivolve/runner.py, `_GeneratorDispatchLedger`): the
-- attempts by id, the logical arms that are taken, and the code that it calls outside the repository.
use skivolve.Base.{
  ℕ, String, Bool, true, false, ◌&&◌, Option, List, ◌≡◌, ◌↔◌, Eq, ◌==◌, nat_eq, string_eq, arith,
}
use text.Mathlib.TextEquality.{eq_iff}
use skivolve.Base.Dict.{Dict}
use skivolve.Json.{Value}

abbrev pub Bytes : Type 0
Bytes = List ℕ

-- `json`, `hashlib` and `str.encode`, which are not part of the program.
pub record Codec : Type 0 where
  -- `canonical_bytes`; `none` where it raises
  pub canonical : Value → Option Bytes
  -- `json.loads`; `none` where it raises
  pub loads : Bytes → Option Value
  -- `hashlib.sha256(...).hexdigest()`
  pub sha256 : Bytes → String
  -- `str.encode("utf-8")`
  pub utf8 : String → Bytes

pub data Phase : Type 0 where
  planned dispatched completed failed : Phase

abbrev pub phase_beq : Phase → Phase → Bool
phase_beq planned planned = true
phase_beq dispatched dispatched = true
phase_beq completed completed = true
phase_beq failed failed = true
phase_beq _ _ = false

pub phase_beq_iff : (a b : Phase) → (phase_beq a b ≡ true) ↔ (a ≡ b)
phase_beq_iff a b = ground arith

instance abbrev pub phase_eq : Eq Phase
phase_eq = record { beq = phase_beq; beq_iff = phase_beq_iff }

-- The logical arm: digests of the comparison, the case and the role, and the repetition.
pub record LogicalKey : Type 0 where
  pub comparison : String
  pub case : String
  pub repetition : ℕ
  pub role : String

abbrev pub key_beq : LogicalKey → LogicalKey → Bool
key_beq a b =
    a.comparison == b.comparison
    && (a.case == b.case && (a.repetition == b.repetition && a.role == b.role))

pub key_beq_iff : (a b : LogicalKey) → (key_beq a b ≡ true) ↔ (a ≡ b)
key_beq_iff a b =
    ground (arith, eq_iff a.comparison b.comparison, eq_iff a.case b.case, eq_iff a.role b.role)

instance abbrev pub key_eq : Eq LogicalKey
key_eq = record { beq = key_beq; beq_iff = key_beq_iff }

pub record Attempt : Type 0 where
  pub key : LogicalKey
  pub request : String
  pub phase : Phase

abbrev pub attempt_beq : Attempt → Attempt → Bool
attempt_beq a b = a.key == b.key && (a.request == b.request && a.phase == b.phase)

pub attempt_beq_iff : (a b : Attempt) → (attempt_beq a b ≡ true) ↔ (a ≡ b)
attempt_beq_iff a b =
    ground
      (arith, key_beq_iff a.key b.key, eq_iff a.request b.request, phase_beq_iff a.phase b.phase)

instance abbrev pub attempt_eq : Eq Attempt
attempt_eq = record { beq = attempt_beq; beq_iff = attempt_beq_iff }

pub record Accounts : Type 0 where
  pub attempts : Dict String Attempt
  pub logical : Dict LogicalKey String
