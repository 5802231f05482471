-- ===== src/Transfer.antt =====
-- The loops of cmdhandler.c that move file data: lfd_socket_write_full, do_file_send_rwloop and
-- do_file_recv. A loop over the runtime's answers runs on fuel.
pub mod Write
pub mod Files
pub mod Ends
pub mod Receive
pub mod Truncated
pub mod RoundTrip
use lkl_lklftpd.Base.{
  ℕ, zero, suc, ◌+◌, ◌-◌, ◌%◌, ◌^◌, Bool, true, false, not, ◌&&◌, ◌||◌, Option, none, some, List,
  [], ◌∷◌, ◌==◌, if◌then◌else◌, Bytes, text, length, take, drop,
}
use lkl_lklftpd.Ascii.{Buffer, bin_to_ascii, ascii_to_bin}
use lkl_lklftpd.Ascii.InPlace.{bytes}
use lkl_lklftpd.Paths.{char_at}
use lkl_lklftpd.System.{
  Status, is_success, is_eof, ℤ, Apr, Sess, DataSess, Socket, File, Run, Halt, ◌>>=◌, ◌>>◌, pure,
  halt, get_sess, modify_data, ⊤, socket_send, socket_recv, lkl_file_read, lkl_file_write_full,
}
use lkl_lklftpd.Cmdio.{lfd_cmdio_write}
use lkl_lklftpd.Ftpcodes.{ftp_aborok}

-- An apr_size_t has 64 bits.
abbrev pub size_add : ℕ → ℕ → ℕ
size_add a b = (a + b) % 2 ^ 64

abbrev pub size_sub : ℕ → ℕ → ℕ
size_sub a b = (a + 2 ^ 64 - b) % 2 ^ 64

-- VSFTP_DATA_BUFSIZE, and the chunk_size of the sending loop.
abbrev pub vsftp_data_bufsize : ℕ
vsftp_data_bufsize = 65536

abbrev pub send_chunk_size : ℕ
send_chunk_size = 4096

-- struct lfd_transfer_ret
pub record TransferRet : Type 0 where
  pub retval : ℤ
  pub transferred : ℕ

abbrev pub transfer_ret : ℤ → ℕ → TransferRet
transfer_ret r n = record { retval = r; transferred = n }

-- The buffer of do_file_recv with the received bytes at offset 1. What stands at offset 0 is not read
-- before it is written.
abbrev pub received : Bytes → Buffer
received got zero = 0
received got (suc i) = char_at got i

module _ (apr : Apr) where
  -- `rest` is the buffer from p_buf + *psize on, `size` what is left to write, `done` is *psize.
  unfoldable pub write_full_loop : ℕ → Socket → Bytes → ℕ → ℕ → Run (Status × ℕ)
  write_full_loop zero fd rest size done = halt Halt.out_of_fuel
  write_full_loop (suc fuel) fd rest size done = do
    (rc, num_written) ← socket_send apr fd (take size rest)
    if not (is_success rc)
        then pure (rc, done)
        else if num_written == 0
        then pure (Status.success, done)
        else if size_sub size num_written == 0
        then pure (Status.success, size_add done num_written)
        else write_full_loop fuel fd (drop num_written rest) (size_sub size num_written)
            (size_add done num_written)

  -- Every round but the last writes a byte.
  unfoldable pub lfd_socket_write_full : Socket → Bytes → ℕ → Run (Status × ℕ)
  unfolding write_full_loop
  lfd_socket_write_full fd p_buf size = write_full_loop (suc size) fd p_buf size 0

  -- What stands at p_writefrom_buf after a read.
  abbrev pub send_buffer : Bool → Bytes → Bytes
  send_buffer is_ascii got = if is_ascii then (bin_to_ascii got).0 else got

  -- What follows the write of a round: `again` is the loop, from the new count on.
  abbrev pub after_write : Bytes → ℕ → (ℕ → Run TransferRet) → Status × ℕ → Run TransferRet
  after_write got transferred again (rc, bytes_written) =
      if not (is_success rc) || not (bytes_written == length got)
      then pure (transfer_ret (ℤ.negsuc 1) transferred)
      else again (size_add transferred bytes_written)

  unfoldable pub file_send_loop : ℕ → File → Socket → Bool → ℕ → Run TransferRet
  file_send_loop zero file sock is_ascii transferred = halt Halt.out_of_fuel
  file_send_loop (suc fuel) file sock is_ascii transferred = do
    (rc, got) ← lkl_file_read apr file send_chunk_size
    if not (is_success rc) && not (is_eof rc)
        then pure (transfer_ret (ℤ.negsuc 0) transferred)
        else if length got == 0
        then pure (transfer_ret (ℤ.pos 0) transferred)
        else (do
          wrote ← lfd_socket_write_full sock (send_buffer is_ascii got) (length got)
          after_write got transferred (λ n. file_send_loop fuel file sock is_ascii n) wrote)

  unfoldable pub do_file_send_rwloop : ℕ → File → Bool → Run TransferRet
  do_file_send_rwloop fuel file is_ascii = do
    s ← get_sess
    elim s.data_conn.data_sock [
      | none ↦ halt Halt.null_deref
      | some sock ↦ file_send_loop fuel file sock is_ascii 0
    ]

  -- What is written for the received bytes, and the new prev_cr.
  abbrev pub recv_convert : Bool → Bytes → Bool → Bytes × Bool
  recv_convert is_ascii got prev_cr =
      if is_ascii
      then (let (buf, r) = ascii_to_bin (received got) (length got) prev_cr in
          (bytes buf r.p_buf r.stored, r.last_was_cr))
      else (got, prev_cr)

  unfoldable pub file_recv_loop : ℕ → File → Socket → Bool → Bool → ℕ → Run TransferRet
  file_recv_loop zero file sock is_ascii prev_cr transferred = halt Halt.out_of_fuel
  file_recv_loop (suc fuel) file sock is_ascii prev_cr transferred = do
    (rc, got) ← socket_recv apr sock vsftp_data_bufsize
    if not (is_success rc) && not (is_eof rc)
        then pure (transfer_ret (ℤ.negsuc 1) transferred)
        else if length got == 0 && not prev_cr && is_eof rc
        then pure (transfer_ret (ℤ.pos 0) transferred)
        else (do
          let total = size_add transferred (length got)
          let converted = recv_convert is_ascii got prev_cr
          (rc, bytes_written) ← lkl_file_write_full apr file converted.0
          if not (is_success rc) || not (length converted.0 == bytes_written)
              then pure (transfer_ret (ℤ.negsuc 0) total)
              else file_recv_loop fuel file sock is_ascii converted.1 total)

  unfoldable pub do_file_recv : ℕ → File → Bool → Run TransferRet
  do_file_recv fuel file is_ascii = do
    s ← get_sess
    elim s.data_conn.data_sock [
      | none ↦ halt Halt.null_deref
      | some sock ↦ file_recv_loop fuel file sock is_ascii false 0
    ]

  unfoldable pub check_abor : Run ⊤
  check_abor = do
    s ← get_sess
    if s.data_conn.abor_received
        then (do
          modify_data (λ d. record d { abor_received = false })
          lfd_cmdio_write apr ftp_aborok (text "ABOR successful.") []
          pure tt)
        else pure tt
