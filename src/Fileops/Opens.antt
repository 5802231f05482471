-- ===== src/Fileops/Opens.antt =====
-- lkl_file_open: what it refuses, and that the file it gives is in order at its start.
use lkl_lklftpd.Base.{ℕ, ◌^◌, ◌<◌, ◌≡◌, Bool, true, false, Option, none, some, List, Bytes, length}
use lkl_lklftpd.System.{ℤ, OpenFlag}
use lkl_lklftpd.Kernel.{Kernel, OFlag}
use lkl_lklftpd.Kernel.Word.{is_negative, is_zero_int}
use lkl_lklftpd.Kernel.Laws.{FileView}
use lkl_lklftpd.Fileops.{has_flag, LklFile}
use lkl_lklftpd.Fileops.View.{IsReading}
use lkl_lklftpd.Fileops.Plain.{IsPlain}

-- An open that the kernel grants starts at the offset 0, of a file below 2 ^ 63 bytes.
abbrev pub OpensAtStart : (kern : Kernel) → FileView kern.K → Type 0
OpensAtStart kern view =
    (fname : Bytes) (oflags : List OFlag) (mode : ℕ) (k : kern.K)
    → is_negative (kern.sys_open fname oflags mode k).0 ≡ false
    → (view.offset (kern.sys_open fname oflags mode k).1 ≡ 0)
      × (length (view.content (kern.sys_open fname oflags mode k).1) < 2 ^ 63)

module _ (kern : Kernel) (view : FileView kern.K) where
  open kern use {K, errors}

  -- The file in order at its start, with or without a buffer.
  abbrev pub InOrder : Bool → LklFile → K → Type 0
  InOrder true f k =
      IsReading kern f.filedes view (view.content k) 0 (record { file = f; kernel = k })
  InOrder false f k =
      IsPlain kern f.filedes view (view.content k) 0 (record { file = f; kernel = k })

  -- A failure gives no file, and a success one that is in order.
  abbrev pub Opened : List OpenFlag → ℤ × Option LklFile × K → Type 0
  Opened flag (rc, none, k) = is_zero_int rc ≡ false
  Opened flag (rc, some f, k) = (rc ≡ ℤ.pos 0) × InOrder (has_flag OpenFlag.buffered flag) f k
