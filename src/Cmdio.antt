-- ===== src/Cmdio.antt =====
-- cmdio.c: replies on the command socket, and the reading of command lines.
pub mod Codes
use lkl_lklftpd.Base.{
  ℕ, ◌+◌, ◌-◌, ◌/◌, ◌%◌, Bool, true, false, not, ◌&&◌, ◌||◌, Option, none, some, List, [], ◌∷◌,
  ◌==◌, ltb, if◌then◌else◌, Bytes, text, drop, length,
}
use lkl_lklftpd.System.{
  Status, is_success, Call, Apr, Arg, Sess, Run, Halt, ◌>>=◌, ◌>>◌, pure, halt, get_sess, modify, ⊤,
  socket_send, socket_recv,
}
use lkl_lklftpd.Ftpcodes.{ftp_more}

-- FTP_ENDCOMMAND_SEQUENCE
abbrev pub crlf : Bytes
crlf = 13 ∷ 10 ∷ []

-- The code's three digits and a separator, over the first four bytes of `buff`.
unfoldable pub cmd_to_str : ℕ → Bytes → Bytes
cmd_to_str cmd buff =
    let more = ltb ftp_more cmd in
    let n = if more then cmd - ftp_more else cmd in
    (b'0' + n / 10 / 10 % 10)
    ∷ (b'0' + n / 10 % 10)
    ∷ (b'0' + n % 10)
    ∷ (if more then b'-' else b' ')
    ∷ drop 4 buff

-- A C string in a buffer ends before the first 0.
abbrev pub has_nul : Bytes → Bool
has_nul [] = false
has_nul (c ∷ rest) = c == 0 || has_nul rest

abbrev pub c_string : Bytes → Bytes
c_string [] = []
c_string (c ∷ rest) = if c == 0 then [] else c ∷ c_string rest

abbrev pub cmd_input_buffer_len : ℕ
cmd_input_buffer_len = 100

module _ (apr : Apr) where
  -- The bytes of a reply. The message is used as a format.
  unfoldable pub reply : ℕ → Bytes → List Arg → Bytes
  reply cmd msg args =
      apr.vsprintf (cmd_to_str cmd (apr.pstrcat (text "AAAA") (apr.pstrcat msg crlf))) args

  unfoldable pub lfd_cmdio_write : ℕ → Bytes → List Arg → Run Status
  unfolding reply
  lfd_cmdio_write cmd msg args = do
    s ← get_sess
    (rc, _) ← socket_send apr s.comm_sock (reply cmd msg args)
    pure rc

  -- The two calls of apr_strtok: the command ends at a blank, its argument at the end of the line.
  unfoldable pub split_line : Bytes → Option Bytes × Option Bytes
  split_line buffer = elim (apr.strtok buffer (b' ' ∷ [])) [
    | none ↦ (none, none)
    | some first ↦ (
      some first.token,
      elim (apr.strtok first.rest crlf) [ none ↦ none | some second ↦ some second.token ],
    )
  ]

  -- The pointers to fill are always &sess->ftp_cmd_str and &sess->ftp_arg_str. A line that fills the
  -- buffer leaves no terminator, and the search for one leaves the buffer.
  unfoldable pub lfd_cmdio_get_cmd_and_arg : Run Status
  unfolding split_line
  lfd_cmdio_get_cmd_and_arg = do
    s ← get_sess
    (rc, got) ← socket_recv apr s.comm_sock cmd_input_buffer_len
    if length got == 0
        then pure Status.eof
        else if not (is_success rc)
        then pure rc
        else if not (has_nul got) && not (ltb (length got) cmd_input_buffer_len)
        then halt Halt.out_of_bounds
        else do
          let words = split_line (c_string got)
          modify (λ t. record t { ftp_cmd_str = words.0; ftp_arg_str = words.1 })
          pure (elim words.0 [ none ↦ Status.incomplete | some _ ↦ rc ])
