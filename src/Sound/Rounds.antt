-- ===== src/Sound/Rounds.antt =====
-- The loops of a transfer change the count and the calls of a session only.
use lkl_lklftpd.Base.{ℕ, zero, suc, Bool, arith, Bytes, take, drop, length, ◌∷◌}
use lkl_lklftpd.System.{Apr, State, Socket, Call, File}
use lkl_lklftpd.Transfer.{
  send_chunk_size, write_full_loop, lfd_socket_write_full, file_send_loop, do_file_send_rwloop,
  file_recv_loop, do_file_recv, send_buffer, vsftp_data_bufsize, recv_convert, after_write,
  size_add, size_sub,
}
use lkl_lklftpd.Sound.Defs.{IsSteady, Ends, Steady, Ends-and_then}

-- A call leaves the session alone.
abbrev pub after : Call → State → State
after c st = record st { history = c ∷ st.history }

module _ (apr : Apr) where
  write_full_loop-IsSteady :
      (fuel : ℕ) (fd : Socket) (rest : Bytes) (size done : ℕ) (st : State)
      → IsSteady st.sess
      → Ends Steady (write_full_loop apr fuel fd rest size done st)
  unfolding write_full_loop
  write_full_loop-IsSteady zero fd rest size done st h = tt
  write_full_loop-IsSteady (suc fuel) fd rest size done st h =
      let n = (apr.send st.history fd (take size rest)).1 in
      ground (
        arith,
        write_full_loop-IsSteady fuel fd (drop n rest) (size_sub size n) (size_add done n)
            (after (Call.send fd (take size rest)) st) h,
      )

  file_send_loop-IsSteady :
      (fuel : ℕ) (file : File) (sock : Socket) (is_ascii : Bool) (n : ℕ) (st : State)
      → IsSteady st.sess
      → Ends Steady (file_send_loop apr fuel file sock is_ascii n st)
  unfolding file_send_loop lfd_socket_write_full
  file_send_loop-IsSteady zero file sock is_ascii n st h = tt
  file_send_loop-IsSteady (suc fuel) file sock is_ascii n st h =
      let st' = after (Call.file_read file send_chunk_size) st in
      let got = (apr.file_read st.history file send_chunk_size).1 in
      let write =
        Ends-and_then Steady Steady
          (write_full_loop apr (suc (length got)) sock (send_buffer apr is_ascii got) (length got) 0
            st')
          (after_write apr got n (λ k. file_send_loop apr fuel file sock is_ascii k))
          (write_full_loop-IsSteady (suc (length got)) sock (send_buffer apr is_ascii got)
            (length got) 0 st' h)
          (λ (rc, m) st'' h''.
            ground
              (arith, file_send_loop-IsSteady fuel file sock is_ascii (size_add n m) st'' h'')) in
      ground (arith, write)

  file_recv_loop-IsSteady :
      (fuel : ℕ) (file : File) (sock : Socket) (is_ascii prev : Bool) (n : ℕ) (st : State)
      → IsSteady st.sess
      → Ends Steady (file_recv_loop apr fuel file sock is_ascii prev n st)
  unfolding file_recv_loop
  file_recv_loop-IsSteady zero file sock is_ascii prev n st h = tt
  file_recv_loop-IsSteady (suc fuel) file sock is_ascii prev n st h =
      let got = (apr.recv st.history sock vsftp_data_bufsize).1 in
      let out = recv_convert apr is_ascii got prev in
      let st' = after (Call.recv sock vsftp_data_bufsize) st in
      let st'' = after (Call.file_write_full file out.0) st' in
      ground (
        arith,
        file_recv_loop-IsSteady fuel file sock is_ascii out.1 (size_add n (length got)) st'' h,
      )

  pub do_file_send_rwloop-IsSteady :
      (fuel : ℕ) (file : File) (is_ascii : Bool) (st : State)
      → IsSteady st.sess
      → Ends Steady (do_file_send_rwloop apr fuel file is_ascii st)
  unfolding do_file_send_rwloop
  do_file_send_rwloop-IsSteady fuel file is_ascii st h = grind (arith, file_send_loop-IsSteady)

  pub do_file_recv-IsSteady :
      (fuel : ℕ) (file : File) (is_ascii : Bool) (st : State)
      → IsSteady st.sess
      → Ends Steady (do_file_recv apr fuel file is_ascii st)
  unfolding do_file_recv
  do_file_recv-IsSteady fuel file is_ascii st h = grind (arith, file_recv_loop-IsSteady)
