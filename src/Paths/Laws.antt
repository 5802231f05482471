-- ===== src/Paths/Laws.antt =====
-- The path functions of cmdhandler.c keep a path of a directory such, and entering a directory and
-- leaving it leads back.
use lkl_lklftpd.Base.{
  ℕ, zero, suc, ◌+◌, ◌-◌, ◌≤◌, ◌<◌, ◌≡◌, refl, ◌≢◌, Bool, true, not, ◌&&◌, some, [], ◌∷◌, ◌++◌,
  arith, ◌==◌, inl, inr, Bool-cases, Bytes, length, take, ap, length-append, ◌∙◌, sym, append_assoc,
}
use lkl_lklftpd.System.{Apr, CopiesStrings}
use lkl_lklftpd.Paths.{slash, char_at, cdup_scan, cdup_path, get_abs_path, with_slash}

-- A path from the root that ends in a slash.
pub record IsDirPath (path : Bytes) : Type 0 where
  pub from_root : char_at path 0 ≡ slash
  pub to_slash : char_at path (length path - 1) ≡ slash

char_at-append_left : (xs ys : Bytes) (i : ℕ) → i < length xs → char_at (xs ++ ys) i ≡ char_at xs i
char_at-append_left [] ys i h = absurd (omega arith)
char_at-append_left (x ∷ xs) ys zero h = refl
char_at-append_left (x ∷ xs) ys (suc i) h = char_at-append_left xs ys i (omega arith)

char_at-append_right :
    (xs ys : Bytes) (i j : ℕ) → j ≡ length xs + i → char_at (xs ++ ys) j ≡ char_at ys i
char_at-append_right [] ys i j h = let e : j ≡ i = omega arith in rw e
char_at-append_right (x ∷ xs) ys i zero h = absurd (omega arith)
char_at-append_right (x ∷ xs) ys i (suc j) h = char_at-append_right xs ys i j (omega arith)

char_at-take : (n : ℕ) (xs : Bytes) (i : ℕ) → i < n → char_at (take n xs) i ≡ char_at xs i
char_at-take zero xs i h = absurd (omega arith)
char_at-take (suc n) [] i h = refl
char_at-take (suc n) (x ∷ xs) zero h = refl
char_at-take (suc n) (x ∷ xs) (suc i) h = char_at-take n xs i (omega arith)

length-take_le : (n : ℕ) (xs : Bytes) → n ≤ length xs → length (take n xs) ≡ n
length-take_le zero xs h = refl
length-take_le (suc n) [] h = absurd (omega arith)
length-take_le (suc n) (x ∷ xs) h = ap suc (length-take_le n xs (omega arith))

take-length_append : (xs ys : Bytes) (n : ℕ) → n ≡ length xs → take n (xs ++ ys) ≡ xs
take-length_append [] ys zero h = refl
take-length_append [] ys (suc n) h = absurd (omega arith)
take-length_append (x ∷ xs) ys zero h = absurd (omega arith)
take-length_append (x ∷ xs) ys (suc n) h =
    ap (λ t. x ∷ t) (take-length_append xs ys n (omega arith))

pub IsDirPath-nonempty : {path : Bytes} → IsDirPath path → 0 < length path
IsDirPath-nonempty {path = []} h = absurd (omega (arith, h.from_root))
IsDirPath-nonempty {path = x ∷ xs} h = omega arith

-- The walk ends at a slash, no further than where it began.
scan_slash :
    (path : Bytes) (p : ℕ)
    → char_at path 0 ≡ slash
    → (char_at path (cdup_scan path p) ≡ slash) × (cdup_scan path p ≤ p)
unfolding cdup_scan
scan_slash path zero h = (h, omega arith)
scan_slash path (suc p) h = ground (arith, scan_slash path p h)

-- The walk passes over what is no slash.
scan_stops :
    (path : Bytes) (k p : ℕ)
    → char_at path k ≡ slash
    → k ≤ p
    → ((j : ℕ) → k < j → j ≤ p → char_at path j ≢ slash)
    → cdup_scan path p ≡ k
unfolding cdup_scan
scan_stops path k zero at le other = omega arith
scan_stops path k (suc p) at le other = elim (Bool-cases (k == suc p)) [
  | inl e ↦ let same : k ≡ suc p = ground arith in rw (← same) (ground arith)
  | inr e ↦
      let lt : k < suc p = ground arith in
      let ne = other (suc p) lt (omega arith) in
      let back = scan_stops path k p at (omega arith) (λ j lo hi. other j lo (omega arith)) in
      ground arith
]

-- CDUP leads from the path of a directory to one.
pub cdup_path-IsDirPath : (path : Bytes) → IsDirPath path → IsDirPath (cdup_path path)
unfolding cdup_path
cdup_path-IsDirPath path h =
    let k = cdup_scan path (length path - 2) in
    let (at, le) = scan_slash path (length path - 2) h.from_root in
    let nonempty = IsDirPath-nonempty h in
    let len = length-take_le (k + 1) path (omega arith) in
    let last : length (take (k + 1) path) - 1 ≡ k = omega arith in
    record {
      from_root = char_at-take (k + 1) path 0 (omega arith) ∙ h.from_root;
      to_slash = rw last (char_at-take (k + 1) path k (omega arith) ∙ at);
    }

-- No byte of the name is a slash.
abbrev pub no_slash : Bytes → Bool
no_slash [] = true
no_slash (c ∷ rest) = not (c == slash) && no_slash rest

no_slash-char_at : (xs : Bytes) (i : ℕ) → no_slash xs ≡ true → i < length xs → char_at xs i ≢ slash
no_slash-char_at [] i h lt = absurd (omega arith)
no_slash-char_at (x ∷ xs) zero h lt = ground arith
no_slash-char_at (x ∷ xs) (suc i) h lt = no_slash-char_at xs i (ground arith) (omega arith)

-- The path of a name without a slash does not end in one.
pub char_at-child :
    (base name : Bytes)
    → no_slash name ≡ true
    → 0 < length name
    → char_at (base ++ name) (length (base ++ name) - 1) ≢ slash
char_at-child base name plain some_name e =
    let i = length name - 1 in
    let last : length (base ++ name) - 1 ≡ length base + i =
      omega (arith, length-append base name) in
    no_slash-char_at name i plain (omega arith)
      (sym (char_at-append_right base name i (length (base ++ name) - 1) last) ∙ e)

-- There is nothing above the root.
pub cdup_path-root : (path : Bytes) → length path ≡ 1 → cdup_path path ≡ path
unfolding cdup_path cdup_scan
cdup_path-root [] h = absurd (omega arith)
cdup_path-root (c ∷ []) h = refl
cdup_path-root (c ∷ d ∷ rest) h = absurd (omega arith)

-- The parent of a directory named in `base` is `base`.
pub cdup_path-child :
    (base name : Bytes)
    → IsDirPath base
    → no_slash name ≡ true
    → 0 < length name
    → cdup_path (base ++ (name ++ (slash ∷ []))) ≡ base
unfolding cdup_path
cdup_path-child base name h plain some_name =
    let rest = name ++ (slash ∷ []) in
    let path = base ++ rest in
    let len : length path ≡ length base + length name + 1 =
      omega (arith, length-append base rest, length-append name (slash ∷ [])) in
    let nonempty = IsDirPath-nonempty h in
    let k = length base - 1 in
    let at : char_at path k ≡ slash = char_at-append_left base rest k (omega arith) ∙ h.to_slash in
    let other : (j : ℕ) → k < j → j ≤ length path - 2 → char_at path j ≢ slash = λ j lo hi e.
      no_slash-char_at name (j - length base) plain (omega arith) (
        sym (char_at-append_left name (slash ∷ []) (j - length base) (omega arith))
        ∙ sym (char_at-append_right base rest (j - length base) j (omega arith))
        ∙ e) in
    let stop = scan_stops path k (length path - 2) at (omega arith) other in
    rw stop (take-length_append base rest (k + 1) (omega arith))

last-append : (xs : Bytes) (v : ℕ) → char_at (xs ++ (v ∷ [])) (length (xs ++ (v ∷ [])) - 1) ≡ v
last-append xs v =
    char_at-append_right xs (v ∷ []) 0 (length (xs ++ (v ∷ [])) - 1)
      (omega (arith, length-append xs (v ∷ [])))

-- The path of a name in a directory, with its slash.
pub child-IsDirPath :
    (base name : Bytes)
    → IsDirPath base
    → 0 < length name
    → IsDirPath (base ++ (name ++ (slash ∷ [])))
child-IsDirPath base name h some_name = record {
  from_root =
      char_at-append_left base (name ++ (slash ∷ [])) 0 (IsDirPath-nonempty h) ∙ h.from_root;
  to_slash = rw (← append_assoc base name (slash ∷ [])) (last-append (base ++ name) slash);
}

module _ (apr : Apr) (copies : CopiesStrings apr) where
  open copies use {pstrdup_same, pstrcat_append}

  -- An argument becomes a path from the root.
  pub get_abs_path-from_root :
      (arg cwd : Bytes) {abs : Bytes}
      → IsDirPath cwd
      → get_abs_path apr arg cwd ≡ some abs
      → char_at abs 0 ≡ slash
  unfolding get_abs_path
  get_abs_path-from_root [] cwd h e = cc
  get_abs_path-from_root (c ∷ rest) cwd h e = ground (
    arith,
    pstrdup_same (c ∷ rest),
    pstrcat_append cwd (c ∷ rest),
    char_at-append_left cwd (c ∷ rest) 0 (IsDirPath-nonempty h),
  )

  -- With its slash such a path is the path of a directory.
  pub with_slash-IsDirPath :
      (path : Bytes) → char_at path 0 ≡ slash → IsDirPath (with_slash apr path)
  unfolding with_slash
  with_slash-IsDirPath [] h = absurd (omega (arith, h))
  with_slash-IsDirPath (c ∷ rest) h =
      elim (Bool-cases (char_at (c ∷ rest) (length (c ∷ rest) - 1) == slash)) [
        | inl e ↦ rw e (record { from_root = h; to_slash = ground arith })
        | inr e ↦
            rw (e, pstrcat_append (c ∷ rest) (slash ∷ []))
              (record { from_root = h; to_slash = last-append (c ∷ rest) slash })
      ]
