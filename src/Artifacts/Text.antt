-- ===== src/Artifacts/Text.antt =====
-- The bytes of a text output in skivolve/artifacts.py.
use skivolve.Base.{
  ℕ, ◌≤◌, String, Bool, true, false, ◌&&◌, Option, List, [], ◌∷◌, ◌≡◌, refl, ap, ◌∙◌, arith, ◌==◌,
  nat_eq, if◌then◌else◌, length, contains,
}

abbrev pub Bytes : Type 0
Bytes = List ℕ

-- `str.encode` in UTF-8 and in ASCII, `none` where it raises, and whether `bytes.decode` accepts.
pub record Coding : Type 0 where
  pub encode : String → Option Bytes
  pub encode_ascii : String → Option Bytes
  pub is_text : Bytes → Bool

abbrev pub starts_with_lf : Bytes → Bool
starts_with_lf [] = false
starts_with_lf (b ∷ _) = b == 10

-- `content.replace(b"\r\n", b"\n")`: every CR before an LF goes.
unfoldable pub replace_crlf : Bytes → Bytes
replace_crlf [] = []
replace_crlf (b ∷ bs) =
    let rest = replace_crlf bs in if b == 13 && starts_with_lf bs then rest else b ∷ rest

-- `content.replace(b"\r", b"\n")`
unfoldable pub replace_cr : Bytes → Bytes
replace_cr [] = []
replace_cr (b ∷ bs) = (if b == 13 then 10 else b) ∷ replace_cr bs

-- The two replacements of a text output.
unfoldable pub lf : Bytes → Bytes
unfolding replace_crlf replace_cr
lf bs = replace_cr (replace_crlf bs)

-- `bytes.startswith`
abbrev pub starts_with : Bytes → Bytes → Bool
starts_with [] bs = true
starts_with (p ∷ ps) [] = false
starts_with (p ∷ ps) (b ∷ bs) = p == b && starts_with ps bs

abbrev pub bom : Bytes
bom = 239 ∷ 187 ∷ 191 ∷ []

replace_crlf-id : (bs : Bytes) → contains 13 bs ≡ false → replace_crlf bs ≡ bs
unfolding replace_crlf contains
replace_crlf-id [] h = refl
replace_crlf-id (b ∷ bs) h = ground (arith, replace_crlf-id bs)

replace_cr-id : (bs : Bytes) → contains 13 bs ≡ false → replace_cr bs ≡ bs
unfolding replace_cr contains
replace_cr-id [] h = refl
replace_cr-id (b ∷ bs) h = ground (arith, replace_cr-id bs)

contains-replace_cr : (bs : Bytes) → contains 13 (replace_cr bs) ≡ false
unfolding replace_cr contains
contains-replace_cr [] = refl
contains-replace_cr (b ∷ bs) = ground (arith, contains-replace_cr bs)

-- No CR is left.
pub contains-lf : (bs : Bytes) → contains 13 (lf bs) ≡ false
unfolding lf
contains-lf bs = contains-replace_cr (replace_crlf bs)

lf-id : (bs : Bytes) → contains 13 bs ≡ false → lf bs ≡ bs
unfolding lf
lf-id bs h = ap replace_cr (replace_crlf-id bs h) ∙ replace_cr-id bs h

-- A second pass changes nothing.
pub lf-lf : (bs : Bytes) → lf (lf bs) ≡ lf bs
lf-lf bs = lf-id (lf bs) (contains-lf bs)

length-replace_crlf : (bs : Bytes) → length (replace_crlf bs) ≤ length bs
unfolding replace_crlf
length-replace_crlf [] = omega arith
length-replace_crlf (b ∷ bs) = ground (arith, length-replace_crlf bs)

length-replace_cr : (bs : Bytes) → length (replace_cr bs) ≡ length bs
unfolding replace_cr
length-replace_cr [] = refl
length-replace_cr (b ∷ bs) = ground (arith, length-replace_cr bs)

-- The replacements never make a text longer.
pub length-lf : (bs : Bytes) → length (lf bs) ≤ length bs
unfolding lf
length-lf bs = omega (arith, length-replace_crlf bs, length-replace_cr (replace_crlf bs))

-- A prefix without line ends begins a text after the replacements exactly if it did before.
starts_with-replace_cr :
    (ps bs : Bytes)
    → contains 13 ps ≡ false
    → contains 10 ps ≡ false
    → starts_with ps (replace_cr bs) ≡ starts_with ps bs
unfolding replace_cr contains
starts_with-replace_cr [] bs h k = refl
starts_with-replace_cr (p ∷ ps) [] h k = refl
starts_with-replace_cr (p ∷ ps) (b ∷ bs) h k = ground (arith, starts_with-replace_cr ps bs)

starts_with-replace_crlf :
    (ps bs : Bytes)
    → contains 13 ps ≡ false
    → contains 10 ps ≡ false
    → starts_with ps (replace_crlf bs) ≡ starts_with ps bs
unfolding replace_crlf contains
starts_with-replace_crlf [] bs h k = refl
starts_with-replace_crlf (p ∷ ps) [] h k = refl
starts_with-replace_crlf (p ∷ ps) (b ∷ []) h k = ground (arith, starts_with-replace_crlf ps [])
starts_with-replace_crlf (p ∷ ps) (b ∷ c ∷ bs) h k =
    ground (
      arith,
      h,
      k,
      starts_with-replace_crlf (p ∷ ps) (c ∷ bs),
      starts_with-replace_crlf ps (c ∷ bs),
    )

pub starts_with-bom-lf : (bs : Bytes) → starts_with bom (lf bs) ≡ starts_with bom bs
unfolding lf contains
starts_with-bom-lf bs =
    starts_with-replace_cr bom (replace_crlf bs) refl refl
    ∙ starts_with-replace_crlf bom bs refl refl
