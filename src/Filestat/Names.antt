-- ===== src/Filestat/Names.antt =====
-- The permissions by numbers, to tell them apart.
use lkl_lklftpd.Base.{ℕ, zero, suc, ◌≡◌, refl, Bool, List, [], ◌∷◌, ◌==◌}
use lkl_lklftpd.Filestat.{PermBit}
use lkl_lklftpd.Filestat.Perms.{any}

abbrev pub number_of : PermBit → ℕ
number_of PermBit.usetid = 0
number_of PermBit.uread = 1
number_of PermBit.uwrite = 2
number_of PermBit.uexecute = 3
number_of PermBit.gsetid = 4
number_of PermBit.gread = 5
number_of PermBit.gwrite = 6
number_of PermBit.gexecute = 7
number_of PermBit.wsticky = 8
number_of PermBit.wread = 9
number_of PermBit.wwrite = 10
number_of PermBit.wexecute = 11

-- The permission at a place of a list.
abbrev pub nth : ℕ → List PermBit → PermBit
nth i [] = PermBit.wexecute
nth zero (b ∷ rest) = b
nth (suc i) (b ∷ rest) = nth i rest

abbrev pub named : ℕ → PermBit
named i = nth i (
    PermBit.usetid ∷ PermBit.uread ∷ PermBit.uwrite ∷ PermBit.uexecute ∷ PermBit.gsetid
    ∷ PermBit.gread ∷ PermBit.gwrite ∷ PermBit.gexecute ∷ PermBit.wsticky ∷ PermBit.wread
    ∷ PermBit.wwrite ∷ PermBit.wexecute ∷ [])

pub named-number_of : (b : PermBit) → named (number_of b) ≡ b
named-number_of PermBit.usetid = refl
named-number_of PermBit.uread = refl
named-number_of PermBit.uwrite = refl
named-number_of PermBit.uexecute = refl
named-number_of PermBit.gsetid = refl
named-number_of PermBit.gread = refl
named-number_of PermBit.gwrite = refl
named-number_of PermBit.gexecute = refl
named-number_of PermBit.wsticky = refl
named-number_of PermBit.wread = refl
named-number_of PermBit.wwrite = refl
named-number_of PermBit.wexecute = refl

-- Whether a permission is one of a list.
abbrev pub is_one_of : List PermBit → PermBit → Bool
is_one_of bits b = any (λ c. number_of c == number_of b) bits
