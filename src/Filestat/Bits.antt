-- ===== src/Filestat/Bits.antt =====
-- Single bits of a number, by their places: n & (1 << k), n | (1 << k) and n & ~(1 << k).
use lkl_lklftpd.Base.{
  ℕ, zero, suc, ◌+◌, ◌*◌, ◌/◌, ◌%◌, ◌≡◌, ◌≢◌, refl, ap, Bool, true, false, ◌==◌, arith,
}

abbrev pub has_bit : ℕ → ℕ → Bool
has_bit zero n = n % 2 == 1
has_bit (suc k) n = has_bit k (n / 2)

abbrev pub with_bit : ℕ → ℕ → ℕ
with_bit zero n = n / 2 * 2 + 1
with_bit (suc k) n = with_bit k (n / 2) * 2 + n % 2

abbrev pub without_bit : ℕ → ℕ → ℕ
without_bit zero n = n / 2 * 2
without_bit (suc k) n = without_bit k (n / 2) * 2 + n % 2

pub has_bit-zero : (k : ℕ) → has_bit k 0 ≡ false
has_bit-zero zero = refl
has_bit-zero (suc k) = has_bit-zero k

pub has_bit-with : (k n : ℕ) → has_bit k (with_bit k n) ≡ true
has_bit-with zero n = ground arith
has_bit-with (suc k) n =
    let half : (with_bit k (n / 2) * 2 + n % 2) / 2 ≡ with_bit k (n / 2) = omega arith in
    rw half (has_bit-with k (n / 2))

pub has_bit-with_other : (j k n : ℕ) → j ≢ k → has_bit j (with_bit k n) ≡ has_bit j n
has_bit-with_other zero zero n h = absurd (h refl)
has_bit-with_other zero (suc k) n h = ground arith
has_bit-with_other (suc j) zero n h =
    let half : (n / 2 * 2 + 1) / 2 ≡ n / 2 = omega arith in rw half refl
has_bit-with_other (suc j) (suc k) n h =
    let half : (with_bit k (n / 2) * 2 + n % 2) / 2 ≡ with_bit k (n / 2) = omega arith in
    rw half (has_bit-with_other j k (n / 2) (λ e. h (ap suc e)))

pub has_bit-without : (k n : ℕ) → has_bit k (without_bit k n) ≡ false
has_bit-without zero n = ground arith
has_bit-without (suc k) n =
    let half : (without_bit k (n / 2) * 2 + n % 2) / 2 ≡ without_bit k (n / 2) = omega arith in
    rw half (has_bit-without k (n / 2))

pub has_bit-without_other : (j k n : ℕ) → j ≢ k → has_bit j (without_bit k n) ≡ has_bit j n
has_bit-without_other zero zero n h = absurd (h refl)
has_bit-without_other zero (suc k) n h = ground arith
has_bit-without_other (suc j) zero n h =
    let half : (n / 2 * 2) / 2 ≡ n / 2 = omega arith in rw half refl
has_bit-without_other (suc j) (suc k) n h =
    let half : (without_bit k (n / 2) * 2 + n % 2) / 2 ≡ without_bit k (n / 2) = omega arith in
    rw half (has_bit-without_other j k (n / 2) (λ e. h (ap suc e)))
