-- ===== src/Fileops/Direct.antt =====
-- lkl_file_write without a buffer, where the kernel's call fails.
use lkl_lklftpd.Base.{ℕ, suc, ◌-◌, ◌^◌, ◌<◌, ◌≡◌, ◌≢◌, refl, false, ne→==, arith, Bytes}
use lkl_lklftpd.System.{ℤ}
use lkl_lklftpd.Kernel.{Kernel}
use lkl_lklftpd.Kernel.Word.{size_of_int}
use lkl_lklftpd.Fileops.{OpenFile, gives, write_retry}
use lkl_lklftpd.Fileops.Write.{lkl_file_write}

-- Without a buffer a write that fails with an errno other than EINTR, EAGAIN and EWOULDBLOCK is
-- reported as APR_SUCCESS with 2 ^ 64 less the errno as the number of bytes.
pub lkl_file_write-failed :
    (kern : Kernel) (fuel : ℕ) (buf : Bytes) (s : OpenFile kern.K) (e : ℕ)
    → s.file.buffered ≡ false
    → (kern.sys_write s.file.filedes buf s.kernel).0 ≡ ℤ.negsuc e
    → e < 2 ^ 31
    → suc e ≢ kern.errors.eintr
    → suc e ≢ kern.errors.eagain
    → suc e ≢ kern.errors.ewouldblock
    → lkl_file_write kern (suc fuel) buf s
      ≡ gives
          (ℤ.pos 0, 2 ^ 64 - suc e)
          (record s { kernel = (kern.sys_write s.file.filedes buf s.kernel).1 })
unfolding lkl_file_write write_retry
lkl_file_write-failed kern fuel buf s e direct fails small eintr eagain ewouldblock =
    let size : size_of_int (ℤ.negsuc e) ≡ 2 ^ 64 - suc e = omega (arith, small) in
    simp
      (
        direct,
        fails,
        ne→== (suc e) kern.errors.eintr eintr,
        ne→== (suc e) kern.errors.eagain eagain,
        ne→== (suc e) kern.errors.ewouldblock ewouldblock,
        size,
      )
      refl
