-- ===== src/Ascii/Stream.antt =====
-- The conversion of a whole transfer, fragment by fragment, and the round trip of a text through both
-- conversions.
use lkl_lklftpd.Base.{
  ℕ, ◌≡◌, refl, ◌≢◌, Bool, true, false, ◌&&◌, List, [], ◌∷◌, ◌++◌, arith, ◌==◌, append-nil, inl,
  inr, Bool-cases, if◌then◌else◌, Bytes, ◌∙◌, sym, ap,
}
use lkl_lklftpd.Ascii.Spec.{lf_to_crlf, crlf_to_lf, fragment, ends_in_cr, carried, converted}

-- What the calls on a list of fragments give, one after the other, the held back '\r' passed on, and
-- the last call on no bytes, which is made if a '\r' is still held back.
abbrev pub convert_all : Bool → List Bytes → Bytes
convert_all prev [] = if prev then (converted prev []).0 else []
convert_all prev (xs ∷ rest) = let (out, last) = converted prev xs in out ++ convert_all last rest

abbrev pub concat : List Bytes → Bytes
concat [] = []
concat (xs ∷ rest) = xs ++ concat rest

-- No fragment is empty.
abbrev pub NonEmpty : List Bytes → Type 0
NonEmpty [] = Unit {0}
NonEmpty (xs ∷ rest) = (xs ≢ []) × NonEmpty rest

-- A whole text is its fragment and the '\r' that the fragment holds back.
pub crlf_to_lf-fragment :
    (xs : Bytes) → crlf_to_lf xs ≡ fragment xs ++ (if ends_in_cr xs then 13 ∷ [] else [])
crlf_to_lf-fragment [] = refl
crlf_to_lf-fragment (c ∷ []) = ground arith
crlf_to_lf-fragment (c ∷ d ∷ rest) = ground (arith, crlf_to_lf-fragment (d ∷ rest))

-- A text that goes on: the first part gives its fragment, the second the rest.
crlf_to_lf-append :
    (xs : Bytes) (y : ℕ) (ys : Bytes)
    → crlf_to_lf (xs ++ (y ∷ ys)) ≡ fragment xs ++ crlf_to_lf (carried (ends_in_cr xs) (y ∷ ys))
crlf_to_lf-append [] y ys = refl
crlf_to_lf-append (c ∷ []) y ys = ground arith
crlf_to_lf-append (c ∷ d ∷ rest) y ys = ground (arith, crlf_to_lf-append (d ∷ rest) y ys)

fragment-join :
    (zs ys : Bytes) → fragment zs ++ crlf_to_lf (carried (ends_in_cr zs) ys) ≡ crlf_to_lf (zs ++ ys)
fragment-join zs [] = elim (Bool-cases (ends_in_cr zs)) [
  | inl e ↦ rw append-nil (rw (crlf_to_lf-fragment zs, e))
  | inr e ↦ rw append-nil (rw (crlf_to_lf-fragment zs, e))
]
fragment-join zs (y ∷ ys) = sym (crlf_to_lf-append zs y ys)

carried-append : (prev : Bool) (xs ys : Bytes) → carried prev (xs ++ ys) ≡ carried prev xs ++ ys
carried-append true xs ys = refl
carried-append false xs ys = refl

converted-carried :
    (prev : Bool) (c : ℕ) (xs : Bytes)
    → converted prev (c ∷ xs)
      ≡ (fragment (carried prev (c ∷ xs)), ends_in_cr (carried prev (c ∷ xs)))
converted-carried true c xs = refl
converted-carried false c xs = refl

convert_all-carried :
    (prev : Bool) (chunks : List Bytes)
    → NonEmpty chunks
    → convert_all prev chunks ≡ crlf_to_lf (carried prev (concat chunks))
convert_all-carried true [] h = refl
convert_all-carried false [] h = refl
convert_all-carried prev ([] ∷ rest) h = absurd (h.0 refl)
convert_all-carried prev ((c ∷ xs) ∷ rest) h =
    let zs = carried prev (c ∷ xs) in
    rw (converted-carried prev c xs) (
      ap (λ t. fragment zs ++ t) (convert_all-carried (ends_in_cr zs) rest h.1)
      ∙ fragment-join zs (concat rest)
      ∙ ap crlf_to_lf (sym (carried-append prev (c ∷ xs) (concat rest))))

-- However the network cuts a text into fragments, none of them empty, converting them one by one and
-- flushing a held back '\r' at the end gives the text with every "\r\n" turned into '\n'.
pub convert_all-concat :
    (chunks : List Bytes) → NonEmpty chunks → convert_all false chunks ≡ crlf_to_lf (concat chunks)
convert_all-concat chunks h = convert_all-carried false chunks h

-- No '\n' comes first in an expanded text.
abbrev starts_with_lf : Bytes → Bool
starts_with_lf [] = false
starts_with_lf (c ∷ _) = c == 10

lf_to_crlf-start : (xs : Bytes) → starts_with_lf (lf_to_crlf xs) ≡ false
lf_to_crlf-start [] = refl
lf_to_crlf-start (c ∷ xs) = ground arith

crlf_to_lf-cons :
    (c : ℕ) (ys : Bytes)
    → ((c == 13) && starts_with_lf ys) ≡ false
    → crlf_to_lf (c ∷ ys) ≡ c ∷ crlf_to_lf ys
crlf_to_lf-cons c [] h = refl
crlf_to_lf-cons c (d ∷ ys) h = rw h

-- Converting to ASCII and back gives the text again, whatever '\r' and '\n' it holds.
pub crlf_to_lf-lf_to_crlf : (xs : Bytes) → crlf_to_lf (lf_to_crlf xs) ≡ xs
crlf_to_lf-lf_to_crlf [] = refl
crlf_to_lf-lf_to_crlf (c ∷ xs) = elim (Bool-cases (c == 10)) [
  | inl e ↦
      let at : c ≡ 10 = ground arith in
      rw (e, crlf_to_lf-cons 10 (lf_to_crlf xs) refl, crlf_to_lf-lf_to_crlf xs, at)
  | inr e ↦ rw e (
      crlf_to_lf-cons c (lf_to_crlf xs) (ground (arith, lf_to_crlf-start xs))
      ∙ ap (λ t. c ∷ t) (crlf_to_lf-lf_to_crlf xs))
]
