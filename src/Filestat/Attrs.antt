-- ===== src/Filestat/Attrs.antt =====
-- lkl_file_attrs_set: the mode that it gives to chmod, permission by permission.
use lkl_lklftpd.Base.{Bool, not, ◌&&◌, List, [], ◌∷◌, if◌then◌else◌}
use lkl_lklftpd.Kernel.{Kernel}
use lkl_lklftpd.Filestat.{PermBit}
use lkl_lklftpd.Filestat.Calls.{FileAttrs, write_bits, execute_bits}
use lkl_lklftpd.Filestat.Names.{is_one_of}

-- A permission behind a change of the attributes, by what it was.
abbrev pub new_bit : FileAttrs → FileAttrs → PermBit → Bool → Bool
new_bit attributes attr_mask b old =
    if attr_mask.executable && is_one_of execute_bits b
    then attributes.executable
    else if attr_mask.readonly && is_one_of write_bits b
    then not attributes.readonly
    else old

-- A property of each permission of a list.
abbrev pub Each : (PermBit → Type 0) → List PermBit → Type 0
Each P [] = Unit {0}
Each P (b ∷ rest) = P b × Each P rest
