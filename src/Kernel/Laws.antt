-- ===== src/Kernel/Laws.antt =====
-- What the code relies on of the kernel's regular files: one open file, its content and the offset of
-- its descriptor, as POSIX has them. No other process has the file open.
use lkl_lklftpd.Base.{ℕ, zero, suc, ◌∷◌, ◌+◌, ◌≤◌, ◌<◌, ◌≡◌, [], Bytes, length, take, drop}
use lkl_lklftpd.System.{ℤ}
use lkl_lklftpd.Kernel.{Kernel, Whence}

-- The byte at a place is set; behind the end zeros come before it.
abbrev pub put : Bytes → ℕ → ℕ → Bytes
put [] zero v = v ∷ []
put [] (suc i) v = 0 ∷ put [] i v
put (x ∷ xs) zero v = v ∷ xs
put (x ∷ xs) (suc i) v = x ∷ put xs i v

-- The content behind a write at a place.
abbrev pub overwrite : Bytes → ℕ → Bytes → Bytes
overwrite content at [] = content
overwrite content at (c ∷ b) = overwrite (put content at c) (at + 1) b

-- The content and the offset that a state of the kernel has for the file.
pub record FileView (K : Type 0) : Type 0 where
  pub content : K → Bytes
  pub offset : K → ℕ

-- A read gives bytes of the file from the offset on, none only at its end, and moves the offset; one that
-- fails changes nothing.
abbrev pub ReadAnswer : {K : Type 0} → FileView K → ℕ → K → ℤ × Bytes × K → Type 0
ReadAnswer view n k (ℤ.pos m, got, k') =
    (length got ≡ m)
    × (m ≤ n)
    × (got ≡ take m (drop (view.offset k) (view.content k)))
    × (m ≡ 0 → drop (view.offset k) (view.content k) ≡ [])
    × (view.content k' ≡ view.content k)
    × (view.offset k' ≡ view.offset k + m)
ReadAnswer view n k (ℤ.negsuc e, got, k') =
    (got ≡ []) × (view.content k' ≡ view.content k) × (view.offset k' ≡ view.offset k)

-- A write stores the first of its bytes at the offset, and moves it; one that fails changes nothing.
abbrev pub WriteAnswer : {K : Type 0} → FileView K → Bytes → K → ℤ × K → Type 0
WriteAnswer view b k (ℤ.pos m, k') =
    (m ≤ length b)
    × (view.content k' ≡ overwrite (view.content k) (view.offset k) (take m b))
    × (view.offset k' ≡ view.offset k + m)
WriteAnswer view b k (ℤ.negsuc e, k') =
    (view.content k' ≡ view.content k) × (view.offset k' ≡ view.offset k)

-- lseek to a place sets the offset and returns it; one that fails changes nothing.
abbrev pub SeekAnswer : {K : Type 0} → FileView K → ℤ → K → ℤ × K → Type 0
SeekAnswer view (ℤ.pos p) k (ℤ.pos q, k') =
    (q ≡ p) × (view.content k' ≡ view.content k) × (view.offset k' ≡ p)
SeekAnswer view (ℤ.negsuc p) k (ℤ.pos q, k') = ⊥
SeekAnswer view place k (ℤ.negsuc e, k') =
    (view.content k' ≡ view.content k) × (view.offset k' ≡ view.offset k)

pub record IsFile (kern : Kernel) (fd : ℤ) (view : FileView kern.K) : Type 0 where
  pub reads : (n : ℕ) (k : kern.K) → 0 < n → ReadAnswer view n k (kern.sys_read fd n k)
  pub writes : (b : Bytes) (k : kern.K) → WriteAnswer view b k (kern.sys_write fd b k)
  pub seeks : (p : ℤ) (k : kern.K) → SeekAnswer view p k (kern.sys_lseek fd p Whence.seek_set k)
