-- ===== src/Spend/Lines.antt =====
-- The lines of the journal of skivolve/comparator_runtime.py, written and split again.
use mathlib.Core.List.{append-nil, append_assoc}
use skivolve.Base.{
  ℕ, String, false, some, List, [], ◌∷◌, ◌++◌, map, ◌≡◌, refl, sym, ap, ◌∙◌, arith, ◌==◌, nat_eq,
  All, contains, or_false_right,
}
use skivolve.Json.{obj, Fields, get_or_null, has_exactly}
use skivolve.Artifacts.Text.{Bytes}
use skivolve.Spend.Ledger.{Codec, Event, event_record, line_of}
use skivolve.Spend.Journal.{lines_from, splitlines}

-- The bytes of an event's line without its line end.
abbrev pub written_line : Codec → Event → Bytes
written_line codec e = codec.dumps (obj (event_record e))

-- The bytes of some events' lines.
abbrev pub written : Codec → List Event → Bytes
written codec [] = []
written codec (e ∷ es) = line_of codec e ++ written codec es

pub written-append :
    (codec : Codec) (es : List Event) (e : Event)
    → written codec (es ++ e ∷ []) ≡ written codec es ++ line_of codec e
written-append codec [] e = append-nil (line_of codec e)
written-append codec (d ∷ es) e =
    ap (λ bs. line_of codec d ++ bs) (written-append codec es e)
    ∙ sym (append_assoc (line_of codec d) (written codec es) (line_of codec e))

-- What the documentation of Python's JSON writer and reader says of one event: its line has no line
-- end, and is read back as a dict that is written the same way and answers every look-up alike.
pub record Reloads (codec : Codec) (e : Event) : Type 0 where
  pub no_lf : contains 10 (written_line codec e) ≡ false
  pub no_cr : contains 13 (written_line codec e) ≡ false
  pub fields : Fields
  pub loaded : codec.loads (written_line codec e) ≡ some (obj fields)
  pub canonical : codec.dumps (obj fields) ≡ written_line codec e
  pub reads : (key : String) → get_or_null key fields ≡ get_or_null key (event_record e)
  pub same_keys : (ks : List String) → has_exactly ks fields ≡ has_exactly ks (event_record e)

lines_from-other :
    (line bs : Bytes) (b : ℕ)
    → (b == 10) ≡ false
    → (b == 13) ≡ false
    → lines_from false line (b ∷ bs) ≡ lines_from false (line ++ b ∷ []) bs
unfolding lines_from
lines_from-other line bs b h k = ground (arith, h, k)

lines_from-clean :
    (line bs rest : Bytes)
    → contains 10 bs ≡ false
    → contains 13 bs ≡ false
    → lines_from false line (bs ++ 10 ∷ rest) ≡ (line ++ bs) ∷ lines_from false [] rest
unfolding lines_from contains
lines_from-clean line [] rest h k = ap (λ l. l ∷ lines_from false [] rest) (sym (append-nil line))
lines_from-clean line (b ∷ bs) rest h k =
    let not_lf : (b == 10) ≡ false = ground (arith, h) in
    let not_cr : (b == 13) ≡ false = ground (arith, k) in
    lines_from-other line (bs ++ 10 ∷ rest) b not_lf not_cr
    ∙ lines_from-clean (line ++ b ∷ []) bs rest (or_false_right (10 == b) (contains 10 bs) h)
        (or_false_right (13 == b) (contains 13 bs) k)
    ∙ ap (λ l. l ∷ lines_from false [] rest) (append_assoc line (b ∷ []) bs)

-- Splitting the journal gives back the lines that were written.
pub splitlines-written :
    (codec : Codec) (es : List Event)
    → All (Reloads codec) es
    → splitlines (written codec es) ≡ map (written_line codec) es
unfolding lines_from
splitlines-written codec [] h = refl
splitlines-written codec (e ∷ es) h =
    ap (λ bs. splitlines bs) (append_assoc (written_line codec e) (10 ∷ []) (written codec es))
    ∙ lines_from-clean [] (written_line codec e) (written codec es) h.0.no_lf h.0.no_cr
    ∙ ap (λ ls. written_line codec e ∷ ls) (splitlines-written codec es h.1)
