-- ===== src/Fileops/Buffered.antt =====
-- The operations of a buffered file refine those of a content and a place in it.
use lkl_lklftpd.Base.{
  ℕ, suc, ◌+◌, ◌-◌, ◌^◌, ◌<◌, ◌≡◌, refl, ◌∙◌, subst, true, ◌⊎◌, inl, inr, arith, ◌==◌, Bool-cases,
  if◌then◌else◌, Bytes, length, take,
}
use lkl_lklftpd.System.{ℤ}
use lkl_lklftpd.Kernel.{Kernel, Whence}
use lkl_lklftpd.Kernel.Laws.{FileView, SeekAnswer, IsFile, overwrite}
use lkl_lklftpd.Fileops.{LklFile, OpenFile, done, off_add, off_sub, ◌>>=◌}
use lkl_lklftpd.Fileops.Contents.{take-all}
use lkl_lklftpd.Fileops.View.{Holds, Holds-then, IsReading, IsWriting}
use lkl_lklftpd.Fileops.Writes.{WritesWhole}
use lkl_lklftpd.Fileops.WriteLoop.{Stored, write_blocks-Stored}
use lkl_lklftpd.Fileops.Write.{
  int_size, start_writing, write_blocks, file_write_buffered, lkl_file_write,
}

-- Every seek of the file to a place below 2 ^ 63 succeeds.
abbrev pub SeeksWork : (kern : Kernel) → ℤ → Type 0
SeeksWork kern fd =
    (p : ℕ) (k : kern.K) → p < 2 ^ 63 → (kern.sys_lseek fd (ℤ.pos p) Whence.seek_set k).0 ≡ ℤ.pos p

-- How far the file's own offset is ahead of the kernel's behind the change to writing.
abbrev pub drift_of : LklFile → ℕ
drift_of f = if f.writing then 0 else f.data_read - f.bufpos

module _ (kern : Kernel) (fd : ℤ) (view : FileView kern.K) where
  open kern use {K, errors}

  -- An open buffered file that is in order.
  abbrev pub IsOpen : Bytes → ℕ → OpenFile K → Type 0
  IsOpen content place s =
      IsReading kern fd view content place s ⊎ IsWriting kern fd view 0 content place s

  pub open_buffered :
      (content : Bytes) (place : ℕ) (s : OpenFile K)
      → IsOpen content place s
      → s.file.buffered ≡ true
  open_buffered content place s (inl r) = r.is_buffered
  open_buffered content place s (inr w) = w.is_buffered

  seek_answer :
      (p : ℕ) (k : K) (rv : ℤ) (k' : K)
      → rv ≡ ℤ.pos p
      → SeekAnswer view (ℤ.pos p) k (rv, k')
      → (view.content k' ≡ view.content k) × (view.offset k' ≡ p)
  seek_answer p k rv k' e law =
      let law' = subst (λ r. SeekAnswer view (ℤ.pos p) k (r, k')) e law in (law'.1, law'.2)

  module _ (content : Bytes) (place : ℕ) (s : OpenFile K)
      (r : IsReading kern fd view content place s) where
    -- The state behind the change to writing, with the kernel's offset at the place.
    turned :
        (k' : K)
        → view.content k' ≡ view.content s.kernel
        → view.offset k' ≡ place
        → IsWriting kern fd view (s.file.data_read - s.file.bufpos) content place (record {
          file = record s.file { bufpos = 0; data_read = 0; writing = true };
          kernel = k';
        })
    turned k' c o = record {
      same_file = r.same_file;
      is_buffered = r.is_buffered;
      is_writing = refl;
      no_unget = r.no_unget;
      nothing_read = refl;
      stored = c ∙ r.stored;
      offset = omega (arith, o, r.at, r.within);
      within = omega arith;
      at = omega (arith, o);
      small = omega (arith, r.at, r.within, r.small);
      size = r.size;
    }

  -- What lkl_file_write leaves: the bytes have been written at the place, and `*nbytes` stays as it is.
  abbrev pub WrittenAt : Bytes → ℕ → ℕ → Bytes → ℤ × ℕ → OpenFile K → Type 0
  WrittenAt content place drift buf (rv, n) s =
      (rv ≡ ℤ.pos 0)
      × (n ≡ length buf)
      × IsWriting kern fd view drift (overwrite content place buf) (place + length buf) s

  module _ (file : IsFile kern fd view) (seeks : SeeksWork kern fd) where
    pub sought :
        {fd' : ℤ}
        → fd' ≡ fd
        → (p : ℕ) (k : K) → p < 2 ^ 63
        → let k' = (kern.sys_lseek fd' (ℤ.pos p) Whence.seek_set k).1 in
          (view.content k' ≡ view.content k) × (view.offset k' ≡ p)
    sought same p k small =
        let answer = kern.sys_lseek fd (ℤ.pos p) Whence.seek_set k in
        rw same (seek_answer p k answer.0 answer.1 (seeks p k small) (file.seeks (ℤ.pos p) k))

    pub start_writing-IsWriting :
        (content : Bytes) (place : ℕ) (s : OpenFile K)
        → IsOpen content place s
        → Holds
            (λ _ t. IsWriting kern fd view (drift_of s.file) content place t)
            (start_writing kern s)
    unfolding start_writing
    start_writing-IsWriting content place s (inr w) = simp w.is_writing w
    start_writing-IsWriting content place s (inl r) =
        let offset : off_add (off_sub s.file.file_ptr s.file.data_read) s.file.bufpos ≡ place =
          omega (arith, r.at, r.start, r.small, r.within) in
        let answer = kern.sys_lseek s.file.filedes (ℤ.pos place) Whence.seek_set s.kernel in
        let (c, o) = sought r.same_file place s.kernel (omega (arith, r.at, r.within, r.small)) in
        elim (Bool-cases (place == s.file.file_ptr)) [
          | inl here ↦
              let at_place : view.offset s.kernel ≡ place = ground (arith, here, r.offset) in
              simp (r.not_writing, offset, here) (turned content place s r s.kernel refl at_place)
          | inr there ↦ simp (r.not_writing, offset, there) (turned content place s r answer.1 c o)
        ]

    module _ (whole : WritesWhole kern fd) where
      file_write_buffered-WrittenAt :
          (fuel : ℕ) (buf content : Bytes) (place : ℕ) (s : OpenFile K)
          → length buf < 2 ^ 31
          → place + drift_of s.file + length buf < 2 ^ 63
          → IsOpen content place s
          → Holds
              (WrittenAt content place (drift_of s.file) buf)
              (file_write_buffered kern (suc fuel) buf s)
      unfolding file_write_buffered
      file_write_buffered-WrittenAt fuel buf content place s size room o =
          let n = int_size (length buf) in
          let is_size : n ≡ length buf = ground (arith, size) in
          let all : take n buf ≡ buf = rw is_size (take-all buf) in
          Holds-then {B = ℤ × ℕ} (λ _ t. IsWriting kern fd view (drift_of s.file) content place t)
            (WrittenAt content place (drift_of s.file) buf) (start_writing kern s)
            (λ _. write_blocks kern (suc n) (suc fuel) (take n buf) >>= λ rv. done (rv, length buf))
            (start_writing-IsWriting content place s o)
            λ _ t w.
              rw (all, is_size)
                (Holds-then {B = ℤ × ℕ} (Stored kern fd view (drift_of s.file) content place buf)
                  (WrittenAt content place (drift_of s.file) buf)
                  (write_blocks kern (suc (length buf)) (suc fuel) buf t)
                  (λ rv. done (rv, length buf))
                  (write_blocks-Stored kern fd view (drift_of s.file) file whole (suc (length buf))
                    fuel buf content place t (omega arith) room w)
                  λ rv u (z, w'). (z, refl, w'))

      -- lkl_file_write to a buffered file in order returns APR_SUCCESS, and the content behind it
      -- is the old one with the bytes written over it at the place, part of them in the buffer; the
      -- place is behind them. The file's own offset is then ahead of the kernel's by the bytes of
      -- the buffer that had not been read. The bytes are fewer than 2 ^ 31, the offsets below 2 ^
      -- 63, and the kernel's seeks and whole writes succeed.
      pub lkl_file_write-WrittenAt :
          (fuel : ℕ) (buf content : Bytes) (place : ℕ) (s : OpenFile K)
          → length buf < 2 ^ 31
          → place + drift_of s.file + length buf < 2 ^ 63
          → IsOpen content place s
          → Holds
              (WrittenAt content place (drift_of s.file) buf)
              (lkl_file_write kern (suc fuel) buf s)
      unfolding lkl_file_write
      lkl_file_write-WrittenAt fuel buf content place s size room o =
          simp (open_buffered content place s o)
            (file_write_buffered-WrittenAt fuel buf content place s size room o)
