-- ===== src/Cmdio/Codes.antt =====
-- The code of a reply, as cmd_to_str of cmdio.c writes it and a client reads it.
use lkl_lklftpd.Base.{ℕ, ◌+◌, ◌-◌, ◌*◌, ◌<◌, ◌≡◌, ◌∷◌, arith, Bytes}
use lkl_lklftpd.Ftpcodes.{ftp_more}
use lkl_lklftpd.Cmdio.{cmd_to_str}

-- The first four bytes of a reply as a client reads them: three digits, and whether more lines follow.
abbrev pub read_code : Bytes → ℕ × ℕ
read_code (a ∷ b ∷ c ∷ d ∷ rest) = ((a - b'0') * 100 + (b - b'0') * 10 + (c - b'0'), d)
read_code _ = (0, 0)

-- The first four bytes of a reply give back a code below 1000, with a blank behind it.
cmd_to_str-read_code :
    (cmd : ℕ) (buff : Bytes) → cmd < 1000 → read_code (cmd_to_str cmd buff) ≡ (cmd, b' ')
unfolding cmd_to_str
cmd_to_str-read_code cmd buff small = ground arith

-- A code from 1 to 999 with FTP_MORE added is given back too, with a '-' behind it.
cmd_to_str-more :
    (cmd : ℕ) (buff : Bytes)
    → 0 < cmd
    → cmd < 1000
    → read_code (cmd_to_str (cmd + ftp_more) buff) ≡ (cmd, b'-')
unfolding cmd_to_str
cmd_to_str-more cmd buff some_code small = ground arith
