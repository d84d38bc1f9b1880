-- ===== src/Spend/Tracks.antt =====
-- How the replay of a journal of skivolve/comparator_runtime.py follows the run that wrote it.
use text.Mathlib.TextEquality.{eq_iff}
use skivolve.Base.{
  ℕ, ◌+◌, ◌≤◌, String, Bool, true, false, ◌||◌, none, some, List, [], ◌∷◌, ◌++◌, map, ◌≡◌, refl,
  sym, ap, ◌∙◌, arith, ◌==◌, string_eq, Bool-cases, inl, inr, beq_refl, beq_sound, All, contains,
  distinct, or_false_left, or_false_right,
}
use skivolve.Base.Dict.{Dict, lookup, insert, lookup-insert}
use skivolve.Spend.Money.{Arithmetic, ExactBelow, sum}
use skivolve.Spend.Ledger.{Event}
use skivolve.Spend.Calls.{SpendReservation}
use skivolve.Spend.Journal.{Attempt, Replay}
use skivolve.Spend.Run.{attempt_of, Picks, here, there}
use skivolve.Spend.Held.{All-Picks}
use skivolve.Spend.Replayed.{attempt}
use skivolve.Spend.Owed.{Owes, Owes-new, Owes-changed, sum-append}

abbrev pub Open : Type 0
Open = List (ℕ × SpendReservation)

-- The attempt ids of the open reservations.
abbrev pub open_ids : Open → List String
open_ids [] = []
open_ids ((n, r) ∷ held) = r.attempt_id ∷ open_ids held

pub All-map :
    {A : Type 0} (P Q : A → Type 0) (xs : List A) → ((x : A) → P x → Q x) → All P xs → All Q xs
All-map P Q [] f h = tt
All-map P Q (x ∷ xs) f h = (f x h.0, All-map P Q xs f h.1)

neither : (a b : Bool) → a ≡ false → b ≡ false → (a || b) ≡ false
neither a b h k = ground (arith, h, k)

differs_sym : (x y : String) → (x == y) ≡ false → (y == x) ≡ false
differs_sym x y h = ground (arith, h, eq_iff x y, eq_iff y x)

contains-append :
    (x : String) (xs : List String) (y : String)
    → contains x (xs ++ y ∷ []) ≡ (contains x xs || x == y)
unfolding contains
contains-append x [] y = ground arith
contains-append x (z ∷ xs) y = ground (arith, contains-append x xs y)

map-snoc :
    {A B : Type 0} (f : A → B) (xs : List A) (x : A) → map f (xs ++ x ∷ []) ≡ map f xs ++ f x ∷ []
map-snoc f [] x = refl
map-snoc f (y ∷ xs) x = ap (λ l. f y ∷ l) (map-snoc f xs x)

-- An id that the longer log does not have is not in the shorter one, and not the last.
pub not_logged :
    (id : String) (log : List Event) (e : Event)
    → contains id (map attempt_of (log ++ e ∷ [])) ≡ false
    → (contains id (map attempt_of log) ≡ false) × ((id == attempt_of e) ≡ false)
not_logged id log e h =
    let split =
      sym (contains-append id (map attempt_of log) (attempt_of e))
      ∙ ap (contains id) (sym (map-snoc attempt_of log e))
      ∙ h in
    (or_false_left _ _ split, or_false_right _ _ split)

module _ {m : Arithmetic} {bound : ℕ} (money : ExactBelow m bound) where
  -- An open reservation is an attempt without a charge.
  abbrev pub IsOpenIn : Dict String Attempt → ℕ × SpendReservation → Type 0
  IsOpenIn d (n, r) =
      lookup r.attempt_id d ≡ some (attempt (money.usd n) none r.request_sha256 r.invocation_id)

  pub record Tracks (held : Open) (log : List Event) (due : ℕ) (r : Replay) : Type 0 where
    pub seen_logged :
        (id : String) → contains id (map attempt_of log) ≡ false → contains id r.seen ≡ false
    pub unseen_absent : (id : String) → contains id r.seen ≡ false → lookup id r.attempts ≡ none
    pub open_found : All (IsOpenIn r.attempts) held
    pub open_distinct : distinct (open_ids held) ≡ true
    pub earlier : ℕ
    pub earlier_eq : r.historical ≡ money.usd earlier
    pub units : List ℕ
    pub owes : Owes money units r.attempts
    pub total : earlier + sum units ≡ due

  pub Tracks-due :
      {held : Open} {log : List Event} {due owing : ℕ} {r : Replay}
      → due ≡ owing
      → Tracks held log due r
      → Tracks held log owing r
  Tracks-due same t = record {
    seen_logged = t.seen_logged;
    unseen_absent = t.unseen_absent;
    open_found = t.open_found;
    open_distinct = t.open_distinct;
    earlier = t.earlier;
    earlier_eq = t.earlier_eq;
    units = t.units;
    owes = t.owes;
    total = t.total ∙ same;
  }

  -- No open reservation has an id that is not there.
  absent_not_open :
      (id : String) (d : Dict String Attempt) (held : Open)
      → lookup id d ≡ none
      → All (IsOpenIn d) held
      → contains id (open_ids held) ≡ false
  unfolding contains
  absent_not_open id d [] absent found = refl
  absent_not_open id d ((n, r) ∷ held) absent found = elim (Bool-cases (id == r.attempt_id)) [
    | inl same ↦
        absurd (cc (absent, found.0, ap (λ k. lookup k d) (beq_sound id r.attempt_id same)))
    | inr other ↦ rw other (absent_not_open id d held absent found.1)
  ]

  -- A write under an id that is not open keeps the open reservations.
  open_kept :
      (id : String) (a : Attempt) (d : Dict String Attempt) (held : Open)
      → contains id (open_ids held) ≡ false
      → All (IsOpenIn d) held
      → All (IsOpenIn (insert id a d)) held
  unfolding contains
  open_kept id a d [] other found = tt
  open_kept id a d ((n, r) ∷ held) other found = (
    lookup-insert r.attempt_id id a d
        ∙ rw (differs_sym id r.attempt_id (or_false_left _ _ other)) found.0,
    open_kept id a d held (or_false_right _ _ other) found.1,
  )

  pub Tracks-reserve :
      (held : Open) (log : List Event) (due n : ℕ) (e : Event) (r : Replay)
      (reservation : SpendReservation)
      → attempt_of e ≡ reservation.attempt_id
      → contains reservation.attempt_id (map attempt_of log) ≡ false
      → Tracks held log due r
      → Tracks ((n, reservation) ∷ held) (log ++ e ∷ []) (due + n) (record r {
        seen = reservation.attempt_id ∷ r.seen;
        attempts =
            insert reservation.attempt_id
              (attempt (money.usd n) none reservation.request_sha256 reservation.invocation_id)
              r.attempts;
      })
  unfolding contains distinct
  Tracks-reserve held log due n e r reservation about new t =
      let id = reservation.attempt_id in
      let a = attempt (money.usd n) none reservation.request_sha256 reservation.invocation_id in
      let absent = t.unseen_absent id (t.seen_logged id new) in
      let closed = absent_not_open id r.attempts held absent t.open_found in
      record {
        seen_logged = λ j h.
            let (before, other) = not_logged j log e h in
            neither (j == id) _ (ap (λ k. j == k) (sym about) ∙ other) (t.seen_logged j before);
        unseen_absent = λ j h.
            lookup-insert j id a r.attempts
            ∙ rw (or_false_left (j == id) (contains j r.seen) h)
                (t.unseen_absent j (or_false_right (j == id) (contains j r.seen) h));
        open_found = (
          lookup-insert id id a r.attempts ∙ rw (beq_refl id) refl,
          open_kept id a r.attempts held closed t.open_found,
        );
        open_distinct = rw (closed, t.open_distinct) refl;
        earlier = t.earlier;
        earlier_eq = t.earlier_eq;
        units = t.units ++ n ∷ [];
        owes = Owes-new money id a r.attempts n t.units absent refl t.owes;
        total = omega (arith, t.total, sum-append t.units n);
      }

  pub Tracks-historical :
      (held : Open) (log : List Event) (due n : ℕ) (id : String) (e : Event) (r : Replay)
      → attempt_of e ≡ id
      → contains id (map attempt_of log) ≡ false
      → due + n ≤ bound
      → (t : Tracks held log due r)
      → Tracks held
          (log ++ e ∷ [])
          (due + n)
          (record r { seen = id ∷ r.seen; historical = m.plus r.historical (money.usd n) })
  unfolding contains
  Tracks-historical held log due n id e r about new room t = record {
    seen_logged = λ j h.
        let (before, other) = not_logged j log e h in
        neither (j == id) _ (ap (λ k. j == k) (sym about) ∙ other) (t.seen_logged j before);
    unseen_absent = λ j h. t.unseen_absent j (or_false_right _ _ h);
    open_found = t.open_found;
    open_distinct = t.open_distinct;
    earlier = t.earlier + n;
    earlier_eq = rw t.earlier_eq (money.plus_exact t.earlier n (omega (arith, t.total, room)));
    units = t.units;
    owes = t.owes;
    total = omega (arith, t.total);
  }

  contains-Picks :
      (x : String) {p : ℕ × SpendReservation} {held rest : Open}
      → Picks p held rest
      → contains x (open_ids held) ≡ (x == p.1.attempt_id || contains x (open_ids rest))
  unfolding contains
  contains-Picks x here = refl
  contains-Picks x (there picked) = ground (arith, contains-Picks x picked)

  -- The others have other ids.
  distinct-Picks :
      {p : ℕ × SpendReservation} {held rest : Open}
      → Picks p held rest
      → distinct (open_ids held) ≡ true
      → (contains p.1.attempt_id (open_ids rest) ≡ false) × (distinct (open_ids rest) ≡ true)
  unfolding contains distinct
  distinct-Picks here h = ground (arith, h)
  distinct-Picks {p} (there {y = q} {rest = rest} picked) h = ground (
    arith,
    h,
    contains-Picks q.1.attempt_id picked,
    distinct-Picks picked,
    differs_sym q.1.attempt_id p.1.attempt_id,
  )

  still_absent :
      (j id : String) {a : Attempt} (b : Attempt) (d : Dict String Attempt)
      → lookup j d ≡ none
      → lookup id d ≡ some a
      → lookup j (insert id b d) ≡ none
  still_absent j id b d absent found = elim (Bool-cases (j == id)) [
    | inl same ↦ absurd (cc (absent, found, ap (λ k. lookup k d) (beq_sound j id same)))
    | inr other ↦ lookup-insert j id b d ∙ rw other absent
  ]

  pub Tracks-close :
      {held rest : Open} (log : List Event) (due c n : ℕ) (reservation : SpendReservation)
      (e : Event) (r : Replay)
      → Picks (n, reservation) held rest
      → Tracks held log (due + n) r
      → Tracks rest (log ++ e ∷ []) (due + c) (record r {
        attempts =
            insert reservation.attempt_id
              (attempt
                (money.usd n)
                (some (money.usd c))
                reservation.request_sha256
                reservation.invocation_id)
              r.attempts;
      })
  Tracks-close {held} {rest} log due c n reservation e r picked t =
      let id = reservation.attempt_id in
      let closed =
        attempt (money.usd n) (some (money.usd c)) reservation.request_sha256
          reservation.invocation_id in
      let (found, others) = All-Picks (IsOpenIn r.attempts) picked t.open_found in
      let (apart, still) = distinct-Picks picked t.open_distinct in
      let (after, owes, moved) =
        Owes-changed money id _ closed n c r.attempts t.units found refl refl t.owes in
      record {
        seen_logged = λ j h. let (before, other) = not_logged j log e h in t.seen_logged j before;
        unseen_absent = λ j h. still_absent j id closed r.attempts (t.unseen_absent j h) found;
        open_found = open_kept id closed r.attempts rest apart others;
        open_distinct = still;
        earlier = t.earlier;
        earlier_eq = t.earlier_eq;
        units = after;
        owes = owes;
        total = omega (arith, t.total, moved);
      }
