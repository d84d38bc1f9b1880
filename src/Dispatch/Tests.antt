-- ===== src/Dispatch/Tests.antt =====
-- Concrete runs of the generator dispatch ledger (skivolve/runner.py), with a codec that knows four
-- records: the header, and the planned, dispatched and completed records of one attempt.
use skivolve.Base.{
  String, Bool, true, false, ◌&&◌, Option, none, some, [], ◌∷◌, ◌≡◌, refl, ◌⊎◌, inl, inr, ◌==◌,
  nat_eq, string_eq, list_eq, arith, is_empty, contains, if◌then◌else◌,
}
use text.Mathlib.TextEquality.{eq_iff}
use skivolve.Base.Text.{is_hex, codes, is_hex_digit, is_digit}
use skivolve.Base.Int.{pos}
use skivolve.Json.{Value, int, str, obj, Fields, end, field, same}
use skivolve.Dispatch.Types.{Bytes, Codec, LogicalKey}
use skivolve.Dispatch.Records.{planned_record, dispatched_record, completed_record, entry_record}
use skivolve.Dispatch.Replay.{newline}
use skivolve.Dispatch.Writes.{CodecLaws}

abbrev pub id0 : String
id0 = "00000000000000000000000000000000"

abbrev pub digest0 : String
digest0 = "0000000000000000000000000000000000000000000000000000000000000000"

abbrev pub arm0 : LogicalKey
arm0 = record { comparison = digest0; case = digest0; repetition = 1; role = digest0 }

abbrev pub header0 : Fields
header0 = field "schema_version" (str "skivolve.generator_dispatch.v1") end

abbrev value_eq : Value → Value → Bool
value_eq (str s) (str t) = s == t
value_eq (int (pos m)) (int (pos n)) = m == n
value_eq _ _ = false

abbrev fields_eq : Fields → Fields → Bool
fields_eq end end = true
fields_eq (field k v fs) (field l w gs) = k == l && (value_eq v w && fields_eq fs gs)
fields_eq _ _ = false

value_eq_sound : (v w : Value) → value_eq v w ≡ true → v ≡ w
value_eq_sound (str s) (str t) h = ground (arith, h, eq_iff s t)
value_eq_sound (int (pos m)) (int (pos n)) h = ground (arith, h)
value_eq_sound v w h = ground (arith, h)

fields_eq_sound : (f g : Fields) → fields_eq f g ≡ true → f ≡ g
fields_eq_sound end end h = refl
fields_eq_sound (field k v fs) (field l w gs) h =
    ground (arith, h, eq_iff k l, value_eq_sound v w, fields_eq_sound fs gs)
fields_eq_sound end (field l w gs) h = ground (arith, h)
fields_eq_sound (field k v fs) end h = ground (arith, h)

abbrev planned0 : Fields
planned0 = planned_record id0 arm0 digest0 digest0

abbrev encode : Fields → Option Bytes
encode fs =
    if fields_eq fs header0
    then some (1 ∷ [])
    else if fields_eq fs planned0
    then some (2 ∷ [])
    else if fields_eq fs (dispatched_record id0)
    then some (3 ∷ [])
    else if fields_eq fs (completed_record id0 digest0)
    then some (4 ∷ [])
    else none

abbrev decode : Bytes → Option Value
decode b =
    if b == 1 ∷ []
    then some (obj header0)
    else if b == 2 ∷ []
    then some (obj planned0)
    else if b == 3 ∷ []
    then some (obj (dispatched_record id0))
    else if b == 4 ∷ []
    then some (obj (completed_record id0 digest0))
    else none

abbrev canonical0 : Value → Option Bytes
canonical0 (obj fs) = encode fs
canonical0 _ = none

abbrev pub codec0 : Codec
codec0 = record { canonical = canonical0; loads = decode; sha256 = λ b. digest0; utf8 = codes }

found :
    (test : Bool) (b c : Bytes) (o : Option Bytes)
    → (if test then some b else o) ≡ some c
    → ((test ≡ true) × (c ≡ b)) ⊎ (o ≡ some c)
found true b c o h = ground (arith, h)
found false b c o h = ground (arith, h)

encode_cases :
    (fs : Fields) (b : Bytes)
    → encode fs ≡ some b
    → ((fs ≡ header0) × (b ≡ 1 ∷ []))
      ⊎ (((fs ≡ planned0) × (b ≡ 2 ∷ []))
          ⊎ (((fs ≡ dispatched_record id0) × (b ≡ 3 ∷ []))
              ⊎ ((fs ≡ completed_record id0 digest0) × (b ≡ 4 ∷ []))))
encode_cases fs b h = elim (found (fields_eq fs header0) (1 ∷ []) b _ h) [
  | inl (e, same) ↦ inl (fields_eq_sound fs header0 e, same)
  | inr h2 ↦ elim (found (fields_eq fs planned0) (2 ∷ []) b _ h2) [
    | inl (e, same) ↦ inr (inl (fields_eq_sound fs planned0 e, same))
    | inr h3 ↦ elim (found (fields_eq fs (dispatched_record id0)) (3 ∷ []) b _ h3) [
      | inl (e, same) ↦ inr (inr (inl (fields_eq_sound fs (dispatched_record id0) e, same)))
      | inr h4 ↦ elim (found (fields_eq fs (completed_record id0 digest0)) (4 ∷ []) b none h4) [
        | inl (e, same) ↦
            inr (inr (inr (fields_eq_sound fs (completed_record id0 digest0) e, same)))
        | inr h5 ↦ cc
      ]
    ]
  ]
]

encode_lem : (fs : Fields) (b : Bytes) → encode fs ≡ some b → decode b ≡ some (obj fs)
encode_lem fs b h = elim (encode_cases fs b h) [
  | inl (e, same) ↦ rw (e, same) refl
  | inr (inl (e, same)) ↦ rw (e, same) refl
  | inr (inr (inl (e, same))) ↦ rw (e, same) refl
  | inr (inr (inr (e, same))) ↦ rw (e, same) refl
]

canonical_cases :
    (v : Value) (b : Bytes)
    → canonical0 v ≡ some b
    → (b ≡ 1 ∷ []) ⊎ ((b ≡ 2 ∷ []) ⊎ ((b ≡ 3 ∷ []) ⊎ (b ≡ 4 ∷ [])))
canonical_cases (obj fs) b h = elim (encode_cases fs b h) [
  | inl (e, same) ↦ inl same
  | inr (inl (e, same)) ↦ inr (inl same)
  | inr (inr (inl (e, same))) ↦ inr (inr (inl same))
  | inr (inr (inr (e, same))) ↦ inr (inr (inr same))
]
canonical_cases v b h = ground (arith, h)

short_line :
    (b : Bytes)
    → (b ≡ 1 ∷ []) ⊎ ((b ≡ 2 ∷ []) ⊎ ((b ≡ 3 ∷ []) ⊎ (b ≡ 4 ∷ [])))
    → (contains newline b ≡ false) × (is_empty b ≡ false)
unfolding contains is_empty
short_line b (inl e) = rw e (refl, refl)
short_line b (inr (inl e)) = rw e (refl, refl)
short_line b (inr (inr (inl e))) = rw e (refl, refl)
short_line b (inr (inr (inr e))) = rw e (refl, refl)

digest0-IsHex : is_hex 64 digest0 ≡ true
unfolding is_hex is_hex_digit is_digit codes
digest0-IsHex = refl

pub id0-IsHex : is_hex 32 id0 ≡ true
unfolding is_hex is_hex_digit is_digit codes
id0-IsHex = refl

pub laws0 : CodecLaws codec0
laws0 = record {
  round_trip = λ e b h. encode_lem (entry_record e) b h;
  one_line = λ v b h. (short_line b (canonical_cases v b h)).0;
  not_empty = λ v b h. (short_line b (canonical_cases v b h)).1;
  digest_hex = λ b. digest0-IsHex;
}
