-- ===== src/Fileops/WriteLoop.antt =====
-- The writing of a buffered file against its content: the loop of lkl_file_write.
use lkl_lklftpd.Base.{
  ℕ, zero, suc, ◌+◌, ◌^◌, ◌≤◌, ◌<◌, ◌≡◌, refl, sym, ap, ◌∙◌, inl, inr, arith, [], ◌∷◌, ◌==◌,
  Bool-cases, ne→==, if◌then◌else◌, Bytes, length, take, drop,
}
use lkl_lklftpd.System.{ℤ}
use lkl_lklftpd.Transfer.Write.{length-drop_le, length-take_le}
use lkl_lklftpd.Kernel.{Kernel}
use lkl_lklftpd.Kernel.Word.{is_zero_int}
use lkl_lklftpd.Kernel.Laws.{FileView, IsFile, overwrite}
use lkl_lklftpd.Fileops.{OpenFile, done, apr_file_bufsize, flush_locked, ◌>>=◌}
use lkl_lklftpd.Fileops.Contents.{overwrite-append, take-drop_append}
use lkl_lklftpd.Fileops.Writes.{
  WritesWhole, Emptied, flush_locked-Emptied, BlockStored, store_block-IsWriting,
}
use lkl_lklftpd.Fileops.View.{Holds, Holds-then, Holds-weaken, IsWriting}
use lkl_lklftpd.Fileops.Write.{store_block, write_blocks}

module _ (kern : Kernel) (fd : ℤ) (view : FileView kern.K) (drift : ℕ) where
  open kern use {K, errors}

  -- What the loop leaves: the status is 0, and the rest has been written at the place.
  abbrev pub Stored : Bytes → ℕ → Bytes → ℤ → OpenFile K → Type 0
  Stored content place rest rv s =
      (rv ≡ ℤ.pos 0)
      × IsWriting kern fd view drift (overwrite content place rest) (place + length rest) s

  -- The buffer is not full behind the flush that a full one gets.
  abbrev pub Ready : Bytes → ℕ → ℤ → OpenFile K → Type 0
  Ready content place rv s =
      (rv ≡ ℤ.pos 0)
      × (s.file.bufpos < apr_file_bufsize)
      × IsWriting kern fd view drift content place s

  module _ (file : IsFile kern fd view) (whole : WritesWhole kern fd) where
    block-Ready :
        (fuel : ℕ) (content : Bytes) (place : ℕ) (s : OpenFile K)
        → IsWriting kern fd view drift content place s
        → Holds (Ready content place) (
            (if s.file.bufpos == apr_file_bufsize
                then flush_locked kern (suc fuel)
                else done (ℤ.pos 0))
              s)
    block-Ready fuel content place s w = elim (Bool-cases (s.file.bufpos == apr_file_bufsize)) [
      | inl full ↦ simp full (
          Holds-weaken (Emptied kern fd view drift content place) (Ready content place)
            (flush_locked kern (suc fuel) s)
            (flush_locked-Emptied kern fd view drift file whole fuel content place s w)
            λ rv t (z, empty, w'). (z, omega (arith, empty), w'))
      | inr more ↦ simp more (refl, ground (arith, more, w.within), w)
    ]

    -- What is written behind a block is what is written with it.
    block_and_rest :
        (content : Bytes) (place : ℕ) (rest : Bytes) (n : ℕ) (rv : ℤ) (s : OpenFile K)
        → n ≤ length rest
        → Stored (overwrite content place (take n rest)) (place + n) (drop n rest) rv s
        → Stored content place rest rv s
    block_and_rest content place rest n rv s le (z, w) =
        let len = length-take_le n rest le in
        let left = length-drop_le n rest in
        let there : place + length rest ≡ place + n + length (drop n rest) = omega (arith, left) in
        let whole_of : overwrite (overwrite content place (take n rest)) (place + n) (drop n rest)
            ≡ overwrite content place rest =
          let joined = simp len at (overwrite-append content place (take n rest) (drop n rest)) in
          sym joined ∙ ap (overwrite content place) (take-drop_append n rest) in
        (z, rw (there, sym whole_of) w)

    pub write_blocks-Stored :
        (rounds fuel : ℕ) (rest : Bytes) (content : Bytes) (place : ℕ) (s : OpenFile K)
        → length rest < rounds
        → place + drift + length rest < 2 ^ 63
        → IsWriting kern fd view drift content place s
        → Holds (Stored content place rest) (write_blocks kern rounds (suc fuel) rest s)
    unfolding write_blocks
    write_blocks-Stored zero fuel rest content place s enough room w = ground arith
    write_blocks-Stored (suc rounds) fuel [] content place s enough room w =
        let place0 : place + 0 ≡ place = omega arith in (refl, rw place0 w)
    write_blocks-Stored (suc rounds) fuel (c ∷ rest) content place s enough room w =
        let all : Bytes = c ∷ rest in
        rw (ne→== (suc (length rest)) 0 (omega arith)) (
          Holds-then {B = ℤ} (Ready content place) (Stored content place all)
            ((if s.file.bufpos == apr_file_bufsize
                then flush_locked kern (suc fuel)
                else done (ℤ.pos 0))
              s)
            (λ rv. store_block kern all >>= λ n.
              if is_zero_int rv then write_blocks kern rounds (suc fuel) (drop n all) else done rv)
            (block-Ready fuel content place s w)
            λ rv t (z, room_left, w'). rw z (
              Holds-then {B = ℤ} (BlockStored kern fd view drift content place all t)
                (Stored content place all) (store_block kern all t)
                (λ n. write_blocks kern rounds (suc fuel) (drop n all))
                (store_block-IsWriting kern fd view drift content place all t w' room)
                λ n u (is_n, w'').
                  let positive : 0 < n = ground (arith, is_n, room_left) in
                  let le : n ≤ length all = ground (arith, is_n) in
                  let left = length-drop_le n all in
                  Holds-weaken
                    (Stored (overwrite content place (take n all)) (place + n) (drop n all))
                    (Stored content place all) (write_blocks kern rounds (suc fuel) (drop n all) u)
                    (write_blocks-Stored rounds fuel (drop n all)
                      (overwrite content place (take n all)) (place + n) u
                      (omega (arith, left, enough, positive)) (omega (arith, left, room, le)) w'')
                    λ rv' v. block_and_rest content place all n rv' v le))
