-- ===== src/Ascii/Expand.antt =====
-- lfd_ascii_bin_to_ascii against its meaning, and the room that it needs.
use lkl_lklftpd.Base.{
  ℕ, ◌+◌, ◌*◌, ◌≤◌, ◌≡◌, [], ◌∷◌, ◌++◌, arith, ◌==◌, append_assoc, inl, inr, Bool-cases,
  if◌then◌else◌, Bytes, length, append-nil, ◌∙◌, sym,
}
use lkl_lklftpd.Ascii.{bin_to_ascii_loop, bin_to_ascii, cr, lf}
use lkl_lklftpd.Ascii.Spec.{lf_to_crlf}

piece-out :
    (c : ℕ) (out r : Bytes)
    → (if c == lf then (out ++ (cr ∷ [])) ++ (c ∷ []) else out ++ (c ∷ [])) ++ r
      ≡ out ++ (if c == lf then 13 ∷ 10 ∷ r else c ∷ r)
piece-out c out r = elim (Bool-cases (c == lf)) [
  | inl e ↦ let at : c ≡ 10 = ground arith in rw (e, at) (simp append_assoc)
  | inr e ↦ rw e (simp append_assoc)
]

loop-out : (xs out : Bytes) (w : ℕ) → (bin_to_ascii_loop xs out w).0 ≡ out ++ lf_to_crlf xs
unfolding bin_to_ascii_loop
loop-out [] out w = sym (append-nil out)
loop-out (c ∷ xs) out w = loop-out xs _ _ ∙ piece-out c out (lf_to_crlf xs)

loop-written :
    (xs out : Bytes) (w : ℕ) → (bin_to_ascii_loop xs out w).1 ≡ w + length (lf_to_crlf xs)
unfolding bin_to_ascii_loop
loop-written [] out w = omega arith
loop-written (c ∷ xs) out w = loop-written xs _ _ ∙ ground arith

-- lfd_ascii_bin_to_ascii writes its input with every '\n' turned into "\r\n", and returns the
-- number of bytes written.
pub bin_to_ascii-expands :
    (p_in : Bytes)
    → (((bin_to_ascii p_in).0 ≡ lf_to_crlf p_in)
        × ((bin_to_ascii p_in).1 ≡ length (bin_to_ascii p_in).0))
unfolding bin_to_ascii
bin_to_ascii-expands xs =
    (loop-out xs [] 0, rw (loop-out xs [] 0) (omega (arith, loop-written xs [] 0)))

pub length-lf_to_crlf :
    (xs : Bytes) → (length xs ≤ length (lf_to_crlf xs)) × (length (lf_to_crlf xs) ≤ 2 * length xs)
length-lf_to_crlf [] = omega arith
length-lf_to_crlf (c ∷ xs) = ground (arith, length-lf_to_crlf xs)

-- The number that lfd_ascii_bin_to_ascii returns is at least the length of its input and at most
-- twice that, so that a buffer of twice the size is enough.
bin_to_ascii_bounds :
    (p_in : Bytes)
    → ((length p_in ≤ (bin_to_ascii p_in).1) × ((bin_to_ascii p_in).1 ≤ 2 * length p_in))
unfolding bin_to_ascii
bin_to_ascii_bounds xs = omega (arith, loop-written xs [] 0, length-lf_to_crlf xs)
