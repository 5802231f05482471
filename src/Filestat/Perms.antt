-- ===== src/Filestat/Perms.antt =====
-- lkl_unix_mode2perms and lkl_unix_perms2mode: the bits of their results.
use lkl_lklftpd.Base.{
  ℕ, ◌≡◌, ◌≢◌, refl, sym, ap, ◌∙◌, Bool, true, false, ◌&&◌, ◌||◌, ◌⊎◌, inl, inr, List, [], ◌∷◌,
  ◌==◌, arith, Bool-cases, eq→==,
}
use mathlib.Core.Bool.{true≢false}
use lkl_lklftpd.Filestat.{
  PermBit, StatMacros, perm_bits, copy_bits, lkl_unix_mode2perms, lkl_unix_perms2mode,
}
use lkl_lklftpd.Filestat.Bits.{has_bit, with_bit, has_bit-zero, has_bit-with, has_bit-with_other}

or-true : (a : Bool) → (a || true) ≡ true
or-true true = refl
or-true false = refl

or-false : (a : Bool) → (a || false) ≡ a
or-false true = refl
or-false false = refl

or_step_set : (a h c : Bool) → (a || (h || c)) ≡ (((h && true) || a) || c)
or_step_set true true c = refl
or_step_set true false c = refl
or_step_set false true c = refl
or_step_set false false c = refl

or_step_clear : (a h c : Bool) → (a || c) ≡ (((h && false) || a) || c)
or_step_clear a true c = refl
or_step_clear a false c = refl

and_right : (a b : Bool) → (a && b) ≡ true → b ≡ true
and_right true b h = h
and_right false b h = elim (true≢false (sym h)) [ ]

and_swap : (a b : Bool) → (b && a) ≡ (a && b)
and_swap true true = refl
and_swap true false = refl
and_swap false true = refl
and_swap false false = refl

or-and : (x a c : Bool) → ((x && c) || (c && a)) ≡ (c && (x || a))
or-and true a true = refl
or-and false a true = refl
or-and true a false = refl
or-and false a false = refl

-- The permissions have places of their own.
abbrev pub IsDistinct : (PermBit → ℕ) → Type 0
IsDistinct bit = (a b : PermBit) → bit a ≡ bit b → a ≡ b

abbrev pub Listed : PermBit → List PermBit → Type 0
Listed b [] = ⊥
Listed b (c ∷ rest) = (c ≡ b) ⊎ Listed b rest

abbrev pub any : (PermBit → Bool) → List PermBit → Bool
any f [] = false
any f (b ∷ rest) = f b || any f rest

pub has_bit-with_bit : (k j n : ℕ) → has_bit k (with_bit j n) ≡ ((j == k) || has_bit k n)
has_bit-with_bit k j n = elim (Bool-cases (j == k)) [
  | inl e ↦
      let same : j ≡ k = ground arith in
      rw same (has_bit-with k n ∙ sym (ap (λ t. t || has_bit k n) (eq→== k k refl)))
  | inr e ↦
      let other : k ≢ j = λ h. true≢false (sym (eq→== j k (sym h)) ∙ e) in
      rw (e, has_bit-with_other k j n other) refl
]

copy_bits-bit :
    (source goal : PermBit → ℕ) (bits : List PermBit) (n acc k : ℕ)
    → has_bit k (copy_bits source goal bits n acc)
      ≡ (any (λ b. (goal b == k) && has_bit (source b) n) bits || has_bit k acc)
copy_bits-bit source goal [] n acc k = refl
copy_bits-bit source goal (b ∷ rest) n acc k = elim (Bool-cases (has_bit (source b) n)) [
  | inl e ↦ rw e (
      copy_bits-bit source goal rest n (with_bit (goal b) acc) k
      ∙ ap (λ t. any (λ c. (goal c == k) && has_bit (source c) n) rest || t)
          (has_bit-with_bit k (goal b) acc)
      ∙ or_step_set (any (λ c. (goal c == k) && has_bit (source c) n) rest) (goal b == k)
          (has_bit k acc))
  | inr e ↦ rw e (
      copy_bits-bit source goal rest n acc k
      ∙ or_step_clear (any (λ c. (goal c == k) && has_bit (source c) n) rest) (goal b == k)
          (has_bit k acc))
]

copy_bits-from_zero :
    (source goal : PermBit → ℕ) (bits : List PermBit) (n k : ℕ)
    → has_bit k (copy_bits source goal bits n 0)
      ≡ any (λ b. (goal b == k) && has_bit (source b) n) bits
copy_bits-from_zero source goal bits n k =
    let found = any (λ b. (goal b == k) && has_bit (source b) n) bits in
    copy_bits-bit source goal bits n 0 k ∙ ap (λ t. found || t) (has_bit-zero k) ∙ or-false found

and-same : (j k : ℕ) (f : ℕ → Bool) (c : Bool) → c ≡ f j → ((j == k) && c) ≡ ((j == k) && f k)
and-same j k f c h = elim (Bool-cases (j == k)) [
  | inl e ↦ let same : j ≡ k = ground (arith, e) in ap (λ t. (j == k) && t) (h ∙ ap f same)
  | inr e ↦ rw e refl
]

module _ (bit : PermBit → ℕ) (distinct : IsDistinct bit) (f : PermBit → Bool) (b : PermBit) where
  any-hit : (bits : List PermBit) → any (λ c. (bit c == bit b) && f c) bits ≡ true → f b ≡ true
  any-hit [] h = elim (true≢false (sym h)) [ ]
  any-hit (c ∷ rest) h = elim (Bool-cases ((bit c == bit b) && f c)) [
    | inl e ↦
        let same : c ≡ b = distinct c b (ground (arith, e)) in
        ap f (sym same) ∙ and_right (bit c == bit b) (f c) e
    | inr e ↦ any-hit rest (rw e at h)
  ]

  any-Listed :
      (bits : List PermBit)
      → Listed b bits
      → f b ≡ true
      → any (λ c. (bit c == bit b) && f c) bits ≡ true
  any-Listed [] l h = elim l [ ]
  any-Listed (c ∷ rest) (inl e) h = rw (e, h, eq→== (bit b) (bit b) refl) refl
  any-Listed (c ∷ rest) (inr l) h = rw (any-Listed rest l h) (or-true ((bit c == bit b) && f c))

  any-one : (bits : List PermBit) → Listed b bits → any (λ c. (bit c == bit b) && f c) bits ≡ f b
  any-one bits l = elim (Bool-cases (f b)) [
    | inl e ↦ any-Listed bits l e ∙ sym e
    | inr e ↦ elim (Bool-cases (any (λ c. (bit c == bit b) && f c) bits)) [
      | inl h ↦ h ∙ sym (any-hit bits h)
      | inr h ↦ h ∙ sym e
    ]
  ]

-- A permission has the bit at its new place that it had at its old one.
pub copied-bit :
    (source goal : PermBit → ℕ)
    → IsDistinct goal
    → (b : PermBit) (bits : List PermBit) (n : ℕ) → Listed b bits
    → has_bit (goal b) (copy_bits source goal bits n 0) ≡ has_bit (source b) n
copied-bit source goal distinct b bits n l =
    copy_bits-from_zero source goal bits n (goal b)
    ∙ any-one goal distinct (λ c. has_bit (source c) n) b bits l

any-same :
    (f g : PermBit → Bool) (bits : List PermBit)
    → ((b : PermBit) → Listed b bits → f b ≡ g b)
    → any f bits ≡ any g bits
any-same f g [] h = refl
any-same f g (b ∷ rest) h = rw (h b (inl refl), any-same f g rest (λ c l. h c (inr l))) refl

any-and :
    (f : PermBit → Bool) (c : Bool) (bits : List PermBit)
    → any (λ b. f b && c) bits ≡ (c && any f bits)
any-and f c [] = and_swap c false
any-and f c (b ∷ rest) = ap (λ t. (f b && c) || t) (any-and f c rest) ∙ or-and (f b) (any f rest) c

module _ (macros : StatMacros) (modes : IsDistinct macros.mode_bit)
    (perms : IsDistinct macros.perm_bit) where
  open macros use {mode_bit, perm_bit, has_svtx}

  pub lkl_unix_mode2perms-bit :
      (b : PermBit) (mode : ℕ)
      → Listed b (perm_bits has_svtx)
      → has_bit (perm_bit b) (lkl_unix_mode2perms macros mode) ≡ has_bit (mode_bit b) mode
  unfolding lkl_unix_mode2perms
  lkl_unix_mode2perms-bit b mode l =
      copied-bit mode_bit perm_bit perms b (perm_bits has_svtx) mode l

  pub lkl_unix_perms2mode-bit :
      (b : PermBit) (p : ℕ)
      → Listed b (perm_bits has_svtx)
      → has_bit (mode_bit b) (lkl_unix_perms2mode macros p) ≡ has_bit (perm_bit b) p
  unfolding lkl_unix_perms2mode
  lkl_unix_perms2mode-bit b p l = copied-bit perm_bit mode_bit modes b (perm_bits has_svtx) p l

  -- A mode that is turned into permissions and back has the bits of the permissions as they were,
  -- and no other bit. The bits of the mode are distinct, and so are those of the permissions.
  pub lkl_unix_perms2mode-mode2perms :
      (mode k : ℕ)
      → has_bit k (lkl_unix_perms2mode macros (lkl_unix_mode2perms macros mode))
        ≡ (has_bit k mode && any (λ b. mode_bit b == k) (perm_bits has_svtx))
  unfolding lkl_unix_perms2mode
  lkl_unix_perms2mode-mode2perms mode k =
      let p = lkl_unix_mode2perms macros mode in
      let bits = perm_bits has_svtx in
      copy_bits-from_zero perm_bit mode_bit bits p k
      ∙ any-same (λ b. (mode_bit b == k) && has_bit (perm_bit b) p)
          (λ b. (mode_bit b == k) && has_bit k mode) bits
          (λ b l.
            and-same (mode_bit b) k (λ j. has_bit j mode) (has_bit (perm_bit b) p)
              (lkl_unix_mode2perms-bit b mode l))
      ∙ any-and (λ b. mode_bit b == k) (has_bit k mode) bits
