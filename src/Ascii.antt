-- ===== src/Ascii.antt =====
-- The line-ending conversions of utils.c: lfd_ascii_bin_to_ascii, which copies from one buffer to
-- another, and lfd_ascii_ascii_to_bin, which works in place on one buffer.
pub mod Spec
pub mod Expand
pub mod InPlace
pub mod Stream
use lkl_lklftpd.Base.{
  ℕ, zero, suc, ◌+◌, ◌-◌, Bool, true, false, not, ◌&&◌, ◌||◌, List, [], ◌∷◌, ◌++◌, ◌==◌,
  if◌then◌else◌, Bytes,
}

-- '\r' and '\n'
abbrev pub cr : ℕ
cr = 13

abbrev pub lf : ℕ
lf = 10

-- The loop of lfd_ascii_bin_to_ascii over what is left of `p_in`; `out` is what stands at the start
-- of `p_out`, `written` the count kept beside it.
unfoldable pub bin_to_ascii_loop : Bytes → Bytes → ℕ → Bytes × ℕ
bin_to_ascii_loop [] out written = (out, written)
bin_to_ascii_loop (c ∷ rest) out written =
    bin_to_ascii_loop rest (if c == lf then (out ++ (cr ∷ [])) ++ (c ∷ []) else out ++ (c ∷ []))
      (if c == lf then written + 1 + 1 else written + 1)

unfoldable pub bin_to_ascii : Bytes → Bytes × ℕ
unfolding bin_to_ascii_loop
bin_to_ascii p_in = bin_to_ascii_loop p_in [] 0

-- A buffer, by offset from its first byte.
abbrev pub Buffer : Type 0
Buffer = ℕ → ℕ

abbrev pub store : Buffer → ℕ → ℕ → Buffer
store b p v i = if i == p then v else b i

-- struct ascii_to_bin_ret; `p_buf` is an offset into the buffer.
pub record AsciiToBinRet : Type 0 where
  pub stored : ℕ
  pub last_was_cr : Bool
  pub p_buf : ℕ

-- The locals of the loop of lfd_ascii_ascii_to_bin.
pub record AsciiToBinLoop : Type 0 where
  pub buf : Buffer
  pub indexx : ℕ
  pub p_out : ℕ
  pub written : ℕ
  pub last_was_cr : Bool

-- *p_out++ = the_char; written++;
abbrev pub put_char : ℕ → AsciiToBinLoop → AsciiToBinLoop
put_char the_char s = record s {
  buf = store s.buf s.p_out the_char;
  p_out = s.p_out + 1;
  written = s.written + 1;
}

unfoldable pub ascii_to_bin_body : ℕ → AsciiToBinLoop → AsciiToBinLoop
ascii_to_bin_body in_len s =
    let the_char = s.buf (s.indexx + 1) in
    if not (the_char == cr)
    then put_char the_char s
    else if s.indexx == in_len - 1
    then record s { last_was_cr = true }
    else if not (s.buf (s.indexx + 2) == lf)
    then put_char the_char s
    else s

-- while (indexx < in_len), by the rounds left.
unfoldable pub ascii_to_bin_loop : ℕ → ℕ → AsciiToBinLoop → AsciiToBinLoop
ascii_to_bin_loop zero in_len s = s
ascii_to_bin_loop (suc n) in_len s =
    let s' = ascii_to_bin_body in_len s in
    ascii_to_bin_loop n in_len (record s' { indexx = s'.indexx + 1 })

-- Whether a '\r' held back from the last fragment has to be stored before this one.
abbrev pub flush_cr : Buffer → ℕ → Bool → Bool
flush_cr buf in_len prev_cr = prev_cr && (in_len == 0 || not (buf 1 == lf))

unfoldable pub ascii_to_bin : Buffer → ℕ → Bool → Buffer × AsciiToBinRet
unfolding ascii_to_bin_loop ascii_to_bin_body
ascii_to_bin buf in_len prev_cr =
    let flush = flush_cr buf in_len prev_cr in
    let start : AsciiToBinLoop = record {
      buf = if flush then store buf 0 cr else buf;
      indexx = 0;
      p_out = 1;
      written = if flush then 1 else 0;
      last_was_cr = false;
    } in
    let s = ascii_to_bin_loop in_len in_len start in
    (
      s.buf,
      record { stored = s.written; last_was_cr = s.last_was_cr; p_buf = if flush then 0 else 1 },
    )
