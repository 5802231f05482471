-- ===== src/Kernel/Word.antt =====
-- The C integers of fileops.c, filestat.c and the listing: int and off_t as ℤ, apr_size_t as ℕ below 2 ^ 64.
use lkl_lklftpd.Base.{
  ℕ, zero, suc, ◌+◌, ◌-◌, ◌%◌, ◌^◌, Bool, true, false, ◌&&◌, ◌==◌, ltb, leb, if◌then◌else◌,
}
use lkl_lklftpd.System.{ℤ}

-- -x
abbrev pub negated : ℤ → ℤ
negated (ℤ.pos zero) = ℤ.pos 0
negated (ℤ.pos (suc n)) = ℤ.negsuc n
negated (ℤ.negsuc n) = ℤ.pos (suc n)

abbrev pub is_zero_int : ℤ → Bool
is_zero_int (ℤ.pos n) = n == 0
is_zero_int (ℤ.negsuc n) = false

abbrev pub is_negative : ℤ → Bool
is_negative (ℤ.pos n) = false
is_negative (ℤ.negsuc n) = true

-- x == -e
abbrev pub is_minus : ℤ → ℕ → Bool
is_minus (ℤ.pos n) e = n == 0 && e == 0
is_minus (ℤ.negsuc n) e = suc n == e

-- (apr_size_t) x
abbrev pub size_of_int : ℤ → ℕ
size_of_int (ℤ.pos n) = n % 2 ^ 64
size_of_int (ℤ.negsuc n) = (2 ^ 64 - 1 - n % 2 ^ 64) % 2 ^ 64

-- (int) x
abbrev pub to_int : ℤ → ℤ
to_int (ℤ.pos n) =
    let m = n % 2 ^ 32 in if ltb m (2 ^ 31) then ℤ.pos m else ℤ.negsuc (2 ^ 32 - 1 - m)
to_int (ℤ.negsuc n) =
    let m = n % 2 ^ 32 in if ltb m (2 ^ 31) then ℤ.negsuc m else ℤ.pos (2 ^ 32 - 1 - m)

-- The value of 64 bits as a signed one.
abbrev pub signed_64 : ℕ → ℤ
signed_64 m = if ltb m (2 ^ 63) then ℤ.pos m else ℤ.negsuc (2 ^ 64 - 1 - m)

-- m - n, and a + x for an offset x.
abbrev pub int_sub : ℕ → ℕ → ℤ
int_sub m n = if leb n m then ℤ.pos (m - n) else ℤ.negsuc (n - m - 1)

abbrev pub add_offset : ℕ → ℤ → ℤ
add_offset a (ℤ.pos n) = ℤ.pos (a + n)
add_offset a (ℤ.negsuc n) = int_sub a (suc n)
