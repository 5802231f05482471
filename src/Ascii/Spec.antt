-- ===== src/Ascii/Spec.antt =====
-- What the conversions of utils.c mean on whole byte strings.
use lkl_lklftpd.Base.{Bool, true, false, ◌&&◌, [], ◌∷◌, ◌==◌, if◌then◌else◌, Bytes}

-- Every '\n' becomes "\r\n".
abbrev pub lf_to_crlf : Bytes → Bytes
lf_to_crlf [] = []
lf_to_crlf (c ∷ rest) = if c == 10 then 13 ∷ 10 ∷ lf_to_crlf rest else c ∷ lf_to_crlf rest

-- Every "\r\n" becomes '\n'; a '\r' that no '\n' follows stays.
abbrev pub crlf_to_lf : Bytes → Bytes
crlf_to_lf [] = []
crlf_to_lf (c ∷ []) = c ∷ []
crlf_to_lf (c ∷ d ∷ rest) =
    let tail = crlf_to_lf (d ∷ rest) in if (c == 13) && (d == 10) then tail else c ∷ tail

-- The same on a fragment: a last '\r' is held back, and reported.
abbrev pub fragment : Bytes → Bytes
fragment [] = []
fragment (c ∷ []) = if c == 13 then [] else c ∷ []
fragment (c ∷ d ∷ rest) =
    let tail = fragment (d ∷ rest) in if (c == 13) && (d == 10) then tail else c ∷ tail

abbrev pub ends_in_cr : Bytes → Bool
ends_in_cr [] = false
ends_in_cr (c ∷ []) = c == 13
ends_in_cr (c ∷ d ∷ rest) = ends_in_cr (d ∷ rest)

-- A '\r' from the last fragment, before the bytes of this one.
abbrev pub carried : Bool → Bytes → Bytes
carried prev xs = if prev then 13 ∷ xs else xs

-- A call on one fragment: the bytes that it gives, and whether it holds back a '\r'. A call with no
-- bytes gives the '\r' that was held back.
abbrev pub converted : Bool → Bytes → Bytes × Bool
converted true [] = (13 ∷ [], false)
converted true (c ∷ rest) = (fragment (13 ∷ c ∷ rest), ends_in_cr (c ∷ rest))
converted false xs = (fragment xs, ends_in_cr xs)
