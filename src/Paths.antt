-- ===== src/Paths.antt =====
-- The handling of paths in cmdhandler.c, apart from the session: get_abs_path, the trailing slash of
-- handle_cwd and the walk of handle_cdup.
pub mod Laws
use lkl_lklftpd.Base.{
  ℕ, zero, suc, ◌+◌, ◌-◌, Bool, true, false, Option, none, some, List, [], ◌∷◌, ◌==◌, ◌&&◌,
  if◌then◌else◌, Bytes, length, take,
}
use lkl_lklftpd.System.{Apr}

abbrev pub slash : ℕ
slash = b'/'

-- strcmp(a, b) == 0
abbrev pub same_string : Bytes → Bytes → Bool
same_string [] [] = true
same_string [] (_ ∷ _) = false
same_string (_ ∷ _) [] = false
same_string (c ∷ xs) (d ∷ ys) = (c == d) && same_string xs ys

-- path[i]
abbrev pub char_at : Bytes → ℕ → ℕ
char_at [] i = 0
char_at (c ∷ rest) zero = c
char_at (c ∷ rest) (suc i) = char_at rest i

-- The loop of handle_cdup: from `pos` back to a slash, or to the start.
unfoldable pub cdup_scan : Bytes → ℕ → ℕ
cdup_scan path zero = zero
cdup_scan path (suc p) =
    let back = cdup_scan path p in if char_at path (suc p) == slash then suc p else back

-- The working directory after handle_cdup, which writes a terminator behind `pos`.
unfoldable pub cdup_path : Bytes → Bytes
unfolding cdup_scan
cdup_path path = take (cdup_scan path (length path - 2) + 1) path

module _ (apr : Apr) where
  unfoldable pub get_abs_path : Bytes → Bytes → Option Bytes
  get_abs_path [] cwd = none
  get_abs_path (c ∷ rest) cwd =
      if c == slash then some (apr.pstrdup (c ∷ rest)) else some (apr.pstrcat cwd (c ∷ rest))

  -- "assure that the last character is a slash"
  unfoldable pub with_slash : Bytes → Bytes
  with_slash path =
      if char_at path (length path - 1) == slash then path else apr.pstrcat path (slash ∷ [])
