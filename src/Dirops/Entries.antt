-- ===== src/Dirops/Entries.antt =====
-- lkl_readdir gives every entry that the kernel has read once, in order.
use lkl_lklftpd.Base.{
  ℕ, zero, suc, ◌+◌, ◌-◌, ◌<◌, ◌≡◌, ◌⊎◌, refl, true, false, Option, none, some, List, [], ◌∷◌, ◌++◌,
  ltb, arith, if◌then◌else◌, ◌∙◌, ap, sym, append_assoc, length, inl, inr,
}
use lkl_lklftpd.Dirops.{
  Dirent, bytes_of, DirBuffer, entry_at, next_entry, refilled, lkl_readdir, read_on, read_all,
  dir_opened,
}

-- Every entry takes some bytes.
abbrev pub AllPositive : List Dirent → Type 0
AllPositive [] = Unit {0}
AllPositive (de ∷ rest) = (0 < de.d_reclen) × AllPositive rest

bytes_of-append : (xs ys : List Dirent) → bytes_of (xs ++ ys) ≡ bytes_of xs + bytes_of ys
bytes_of-append [] ys = omega arith
bytes_of-append (x ∷ xs) ys = omega (arith, bytes_of-append xs ys)

entry_at-append :
    (before : List Dirent) (de : Dirent) (rest : List Dirent)
    → 0 < de.d_reclen
    → (n : ℕ) → n ≡ bytes_of before
    → entry_at (before ++ (de ∷ rest)) n ≡ some de
entry_at-append [] de rest h n e = ground (arith)
entry_at-append (x ∷ xs) de rest h n e =
    let further = entry_at-append xs de rest h (n - x.d_reclen) (omega arith) in
    ground (arith, further)

-- The entries `rest` of the buffer have not been given yet.
pub record IsAt (dir : DirBuffer) (rest : List Dirent) : Type 0 where
  pub before : List Dirent
  pub held : dir.data_entries ≡ before ++ rest
  pub position : dir.offset ≡ bytes_of before
  pub whole : dir.size ≡ bytes_of dir.data_entries
  pub positive : AllPositive rest

-- The kernel reads `batches`, none of them empty and each entry of some bytes, from its call `n` on, and then
-- no more.
abbrev pub Reads : (ℕ → Option (List Dirent)) → ℕ → List (List Dirent) → Type 0
Reads getdents n [] = (getdents n ≡ none) ⊎ (getdents n ≡ some [])
Reads getdents n ([] ∷ batches) = ⊥
Reads getdents n ((de ∷ rest) ∷ batches) =
    (getdents n ≡ some (de ∷ rest)) × AllPositive (de ∷ rest) × Reads getdents (n + 1) batches

abbrev pub all_entries : List (List Dirent) → List Dirent
all_entries [] = []
all_entries (b ∷ batches) = b ++ all_entries batches

module _ (getdents : ℕ → Option (List Dirent)) where
  step_held :
      (dir : DirBuffer) (de : Dirent) (rest : List Dirent)
      → IsAt dir (de ∷ rest)
      → lkl_readdir getdents dir ≡ (some de, record dir { offset = dir.offset + de.d_reclen })
  unfolding lkl_readdir
  step_held dir de rest at =
      let total = bytes_of-append at.before (de ∷ rest) in
      let all : dir.size ≡ bytes_of (at.before ++ (de ∷ rest)) = at.whole ∙ ap bytes_of at.held in
      let some_bytes = at.positive.0 in
      let more : ltb dir.offset dir.size ≡ true =
        ground (arith, at.position, all, total, some_bytes) in
      let found : entry_at dir.data_entries dir.offset ≡ some de =
        ap (λ l. entry_at l dir.offset) at.held
        ∙ entry_at-append at.before de rest some_bytes dir.offset at.position in
      ap
        (λ b.
          if b
          then next_entry dir (entry_at dir.data_entries dir.offset)
          else refilled (record dir { calls = dir.calls + 1 }) (getdents dir.calls))
        more
      ∙ ap (next_entry dir) found

  step_empty :
      (dir : DirBuffer)
      → IsAt dir []
      → lkl_readdir getdents dir
        ≡ refilled (record dir { calls = dir.calls + 1 }) (getdents dir.calls)
  unfolding lkl_readdir
  step_empty dir at =
      let total = bytes_of-append at.before [] in
      let all : dir.size ≡ bytes_of (at.before ++ []) = at.whole ∙ ap bytes_of at.held in
      let over : ltb dir.offset dir.size ≡ false = ground (arith, at.position, all, total) in
      ap
        (λ b.
          if b
          then next_entry dir (entry_at dir.data_entries dir.offset)
          else refilled (record dir { calls = dir.calls + 1 }) (getdents dir.calls))
        over

  first_entry :
      (de : Dirent) (rest : List Dirent) → 0 < de.d_reclen → entry_at (de ∷ rest) 0 ≡ some de
  first_entry de rest h = entry_at-append [] de rest h 0 refl

  no_more :
      (fuel : ℕ) (dir : DirBuffer)
      → (getdents dir.calls ≡ none) ⊎ (getdents dir.calls ≡ some [])
      → read_on getdents
          (read_all getdents fuel)
          (refilled (record dir { calls = dir.calls + 1 }) (getdents dir.calls))
        ≡ []
  no_more fuel dir (inl e) =
      ap
        (λ r.
          read_on getdents (read_all getdents fuel)
            (refilled (record dir { calls = dir.calls + 1 }) r))
        e
  no_more fuel dir (inr e) =
      ap
        (λ r.
          read_on getdents (read_all getdents fuel)
            (refilled (record dir { calls = dir.calls + 1 }) r))
        e

  read_all-rest :
      (batches : List (List Dirent)) (rest : List Dirent) (fuel : ℕ) (dir : DirBuffer)
      → IsAt dir rest
      → Reads getdents dir.calls batches
      → length (rest ++ all_entries batches) < fuel
      → read_all getdents fuel dir ≡ rest ++ all_entries batches
  read_all-rest batches rest zero dir at reads enough = absurd (omega arith)
  read_all-rest batches (de ∷ rest) (suc fuel) dir at reads enough =
      let dir' = record dir { offset = dir.offset + de.d_reclen } in
      let at' : IsAt dir' rest = record {
        before = at.before ++ (de ∷ []);
        held = at.held ∙ sym (append_assoc at.before (de ∷ []) rest);
        position = omega (arith, at.position, bytes_of-append at.before (de ∷ []));
        whole = at.whole;
        positive = at.positive.1;
      } in
      ap (read_on getdents (read_all getdents fuel)) (step_held dir de rest at)
      ∙ ap (λ l. de ∷ l) (read_all-rest batches rest fuel dir' at' reads (omega arith))
  read_all-rest [] [] (suc fuel) dir at reads enough =
      ap (read_on getdents (read_all getdents fuel)) (step_empty dir at) ∙ no_more fuel dir reads
  read_all-rest ([] ∷ batches) [] (suc fuel) dir at reads enough = absurd reads
  read_all-rest ((de ∷ rest) ∷ batches) [] (suc fuel) dir at reads enough =
      let entries = de ∷ rest in
      let full : DirBuffer = record {
        data_entries = entries;
        size = bytes_of entries;
        offset = 0;
        calls = dir.calls + 1;
      } in
      let dir' : DirBuffer = record full { offset = full.offset + de.d_reclen } in
      let at' : IsAt dir' rest = record {
        before = de ∷ [];
        held = refl;
        position = omega arith;
        whole = refl;
        positive = reads.1.1;
      } in
      ap (read_on getdents (read_all getdents fuel)) (
        step_empty dir at
        ∙ ap (refilled (record dir { calls = dir.calls + 1 })) reads.0
        ∙ ap (next_entry full) (first_entry de rest reads.1.0))
      ∙ ap (λ l. de ∷ l) (read_all-rest batches rest fuel dir' at' reads.2 (omega arith))

  -- Calling lkl_readdir on a directory that has just been opened, until it gives NULL, gives every
  -- entry that the kernel's getdents has read, once and in order, where the calls of getdents give
  -- `batches`, none of them empty and each entry of some bytes, and then no entry or a failure.
  -- Fuel above the number of entries is enough.
  pub read_all-all_entries :
      (batches : List (List Dirent)) (fuel : ℕ)
      → Reads getdents 0 batches
      → length (all_entries batches) < fuel
      → read_all getdents fuel dir_opened ≡ all_entries batches
  read_all-all_entries batches fuel reads enough =
      read_all-rest batches [] fuel dir_opened
        (record { before = []; held = refl; position = refl; whole = refl; positive = tt }) reads
        enough
