-- ===== src/Fileops/Contents.antt =====
-- Lemmas on the bytes of a file and of its buffer.
use lkl_lklftpd.Base.{
  ℕ, zero, suc, ◌+◌, ◌-◌, ◌≤◌, ◌<◌, ◌≡◌, refl, sym, ap, ◌∙◌, true, false, [], ◌∷◌, ◌++◌, ltb, arith,
  Bytes, length, take, drop, length-append,
}
use lkl_lklftpd.Transfer.Write.{take-add}
use lkl_lklftpd.Ascii.{Buffer}
use lkl_lklftpd.Ascii.InPlace.{bytes}
use lkl_lklftpd.Paths.{char_at}
use lkl_lklftpd.Kernel.Laws.{put, overwrite}
use lkl_lklftpd.Fileops.{copy_in}

pub drop-cons : (k : ℕ) (c : Bytes) → k < length c → drop k c ≡ char_at c k ∷ drop (k + 1) c
drop-cons k [] h = ground arith
drop-cons zero (x ∷ c) h = refl
drop-cons (suc k) (x ∷ c) h =
    let e : suc k + 1 ≡ suc (k + 1) = omega arith in rw e (drop-cons k c (omega arith))

pub drop-add : (k m : ℕ) (c : Bytes) → drop m (drop k c) ≡ drop (k + m) c
drop-add zero m c = let e : 0 + m ≡ m = omega arith in rw e refl
drop-add (suc k) zero [] = let e : suc k + 0 ≡ suc k = omega arith in rw e refl
drop-add (suc k) (suc m) [] = let e : suc k + suc m ≡ suc (k + suc m) = omega arith in rw e refl
drop-add (suc k) m (x ∷ c) = let e : suc k + m ≡ suc (k + m) = omega arith in rw e (drop-add k m c)

pub char_at-take : (i m : ℕ) (xs : Bytes) → i < m → char_at (take m xs) i ≡ char_at xs i
char_at-take i zero xs h = ground arith
char_at-take i (suc m) [] h = refl
char_at-take zero (suc m) (x ∷ xs) h = refl
char_at-take (suc i) (suc m) (x ∷ xs) h = char_at-take i m xs (omega arith)

pub char_at-drop : (k i : ℕ) (xs : Bytes) → char_at (drop k xs) i ≡ char_at xs (k + i)
char_at-drop zero i xs = let e : 0 + i ≡ i = omega arith in rw e refl
char_at-drop (suc k) i [] = refl
char_at-drop (suc k) i (x ∷ xs) =
    let e : suc k + i ≡ suc (k + i) = omega arith in rw e (char_at-drop k i xs)

pub length-take_fits : (m : ℕ) (xs : Bytes) → m ≤ length xs → length (take m xs) ≡ m
length-take_fits zero xs h = refl
length-take_fits (suc m) [] h = ground arith
length-take_fits (suc m) (x ∷ xs) h = ground (arith, length-take_fits m xs)

-- A window of `m` bytes that is not empty lies within the content.
pub window-fits : (k m : ℕ) (c : Bytes) → length (take m (drop k c)) ≡ m → 0 < m → k + m ≤ length c
window-fits k zero c e h = ground arith
window-fits zero (suc m) [] e h = ground arith
window-fits (suc k) (suc m) [] e h = ground arith
window-fits zero (suc zero) (x ∷ c) e h = omega arith
window-fits zero (suc (suc m)) (x ∷ c) e h =
    let r = window-fits zero (suc m) c (omega (arith, e)) (omega arith) in omega (arith, r)
window-fits (suc k) (suc m) (x ∷ c) e h = let r = window-fits k (suc m) c e h in omega (arith, r)

pub bytes-window :
    (b : Buffer) (c : Bytes) (p q n : ℕ)
    → ((i : ℕ) → i < n → b (p + i) ≡ char_at c (q + i))
    → q + n ≤ length c
    → bytes b p n ≡ take n (drop q c)
bytes-window b c p q zero h fits = refl
bytes-window b c p q (suc n) h fits =
    let p0 : p + 0 ≡ p = omega arith in
    let q0 : q + 0 ≡ q = omega arith in
    let first : b p ≡ char_at c q = simp (p0, q0) at (h 0 (omega arith)) in
    let next : (i : ℕ) → i < n → b (p + 1 + i) ≡ char_at c (q + 1 + i) = λ i l.
      let p1 : p + 1 + i ≡ p + suc i = omega arith in
      let q1 : q + 1 + i ≡ q + suc i = omega arith in rw (p1, q1) (h (suc i) (omega arith)) in
    rw (drop-cons q c (omega arith), first, bytes-window b c (p + 1) (q + 1) n next (omega arith))
      refl

pub bytes-same :
    (b b' : Buffer) (p n : ℕ) → ((i : ℕ) → i < p + n → b i ≡ b' i) → bytes b p n ≡ bytes b' p n
bytes-same b b' p zero h = refl
bytes-same b b' p (suc n) h =
    rw (h p (omega arith), bytes-same b b' (p + 1) n (λ i l. h i (omega arith))) refl

pub bytes-add : (b : Buffer) (i m n : ℕ) → bytes b i (m + n) ≡ bytes b i m ++ bytes b (i + m) n
bytes-add b i zero n =
    let m0 : 0 + n ≡ n = omega arith in let i0 : i + 0 ≡ i = omega arith in rw (m0, i0) refl
bytes-add b i (suc m) n =
    let m1 : suc m + n ≡ suc (m + n) = omega arith in
    let i1 : i + suc m ≡ i + 1 + m = omega arith in rw (m1, i1, bytes-add b (i + 1) m n) refl

pub take-all : (xs : Bytes) → take (length xs) xs ≡ xs
take-all [] = refl
take-all (x ∷ xs) = ap (λ t. x ∷ t) (take-all xs)

copy_in-at :
    (b : Buffer) (p : ℕ) (xs : Bytes) (i : ℕ)
    → i < length xs
    → copy_in b p xs (0 + p + i) ≡ char_at xs (0 + i)
copy_in-at b p xs i l =
    let below : ltb (0 + p + i) p ≡ false = ground arith in
    let inside : ltb (0 + p + i) (p + length xs) ≡ true = ground arith in
    let back : 0 + p + i - p ≡ 0 + i = omega arith in rw (below, inside, back) refl

-- A copy behind the first bytes of a buffer makes them longer.
pub bytes-copy_in :
    (b : Buffer) (p : ℕ) (xs : Bytes) → bytes (copy_in b p xs) 0 (p + length xs) ≡ bytes b 0 p ++ xs
bytes-copy_in b p xs =
    bytes-add (copy_in b p xs) 0 p (length xs)
    ∙ ap (λ t. t ++ bytes (copy_in b p xs) (0 + p) (length xs))
        (bytes-same (copy_in b p xs) b 0 p (λ i l. ground arith))
    ∙ ap (λ t. bytes b 0 p ++ t)
        (bytes-window (copy_in b p xs) xs (0 + p) 0 (length xs) (λ i l. copy_in-at b p xs i l)
            (omega arith)
          ∙ take-all xs)

pub overwrite-append :
    (c : Bytes) (at : ℕ) (a b : Bytes)
    → overwrite c at (a ++ b) ≡ overwrite (overwrite c at a) (at + length a) b
overwrite-append c at [] b = ap (λ t. overwrite c t b) (omega arith)
overwrite-append c at (x ∷ a) b =
    overwrite-append (put c at x) (at + 1) a b
    ∙ ap (λ t. overwrite (overwrite (put c at x) (at + 1) a) t b) (omega arith)

pub length-put : (c : Bytes) (at v : ℕ) → at < length (put c at v)
length-put [] zero v = omega arith
length-put [] (suc at) v = let r = length-put [] at v in omega (arith, r)
length-put (x ∷ c) zero v = omega arith
length-put (x ∷ c) (suc at) v = let r = length-put c at v in omega (arith, r)

pub length-put_more : (c : Bytes) (at v : ℕ) → length c ≤ length (put c at v)
length-put_more [] at v = omega arith
length-put_more (x ∷ c) zero v = omega arith
length-put_more (x ∷ c) (suc at) v = let r = length-put_more c at v in omega (arith, r)

char_at-put : (c : Bytes) (at v : ℕ) → char_at (put c at v) at ≡ v
char_at-put [] zero v = refl
char_at-put [] (suc at) v = char_at-put [] at v
char_at-put (x ∷ c) zero v = refl
char_at-put (x ∷ c) (suc at) v = char_at-put c at v

char_at-put_other : (c : Bytes) (at v i : ℕ) → i < at → char_at (put c at v) i ≡ char_at c i
char_at-put_other [] zero v i h = ground arith
char_at-put_other [] (suc at) v zero h = refl
char_at-put_other [] (suc at) v (suc i) h = char_at-put_other [] at v i (omega arith)
char_at-put_other (x ∷ c) zero v i h = ground arith
char_at-put_other (x ∷ c) (suc at) v zero h = refl
char_at-put_other (x ∷ c) (suc at) v (suc i) h = char_at-put_other c at v i (omega arith)

pub char_at-overwrite_below :
    (c : Bytes) (at : ℕ) (b : Bytes) (i : ℕ) → i < at → char_at (overwrite c at b) i ≡ char_at c i
char_at-overwrite_below c at [] i h = refl
char_at-overwrite_below c at (x ∷ b) i h =
    char_at-overwrite_below (put c at x) (at + 1) b i (omega arith) ∙ char_at-put_other c at x i h

pub length-overwrite : (c : Bytes) (at : ℕ) (b : Bytes) → length c ≤ length (overwrite c at b)
length-overwrite c at [] = omega arith
length-overwrite c at (x ∷ b) =
    omega (arith, length-put_more c at x, length-overwrite (put c at x) (at + 1) b)

-- What has been written stands where it has been written.
pub take-overwrite :
    (c : Bytes) (at : ℕ) (b : Bytes) → take (length b) (drop at (overwrite c at b)) ≡ b
take-overwrite c at [] = refl
take-overwrite c at (x ∷ b) =
    let c' = put c at x in
    let in_reach : at < length (overwrite c' (at + 1) b) =
      omega (arith, length-put c at x, length-overwrite c' (at + 1) b) in
    let head : char_at (overwrite c' (at + 1) b) at ≡ x =
      char_at-overwrite_below c' (at + 1) b at (omega arith) ∙ char_at-put c at x in
    rw (drop-cons at (overwrite c' (at + 1) b) in_reach, head, take-overwrite c' (at + 1) b) refl

pub length-bytes : (b : Buffer) (p n : ℕ) → length (bytes b p n) ≡ n
length-bytes b p zero = refl
length-bytes b p (suc n) = omega (arith, length-bytes b (p + 1) n)

pub take-drop_append : (n : ℕ) (xs : Bytes) → take n xs ++ drop n xs ≡ xs
take-drop_append zero xs = refl
take-drop_append (suc n) [] = refl
take-drop_append (suc n) (x ∷ xs) = ap (λ t. x ∷ t) (take-drop_append n xs)

length-put_fits : (c : Bytes) (at v n : ℕ) → length c < n → at + 1 < n → length (put c at v) < n
length-put_fits [] zero v n h l = omega arith
length-put_fits [] (suc at) v zero h l = ground arith
length-put_fits [] (suc at) v (suc n) h l =
    let r = length-put_fits [] at v n (omega arith) (omega arith) in omega (arith, r)
length-put_fits (x ∷ c) zero v n h l = omega arith
length-put_fits (x ∷ c) (suc at) v zero h l = ground arith
length-put_fits (x ∷ c) (suc at) v (suc n) h l =
    let r = length-put_fits c at v n (omega arith) (omega arith) in omega (arith, r)

pub length-overwrite_fits :
    (c : Bytes) (at : ℕ) (b : Bytes) (n : ℕ)
    → length c < n
    → at + length b < n
    → length (overwrite c at b) < n
length-overwrite_fits c at [] n h l = h
length-overwrite_fits c at (x ∷ b) n h l =
    length-overwrite_fits (put c at x) (at + 1) b n (length-put_fits c at x n h (omega arith))
      (omega arith)

-- Two windows of a content that follow each other are one.
pub windows-join :
    (c a b : Bytes) (p : ℕ)
    → a ≡ take (length a) (drop p c)
    → b ≡ take (length b) (drop (p + length a) c)
    → a ++ b ≡ take (length (a ++ b)) (drop p c)
windows-join c a b p is_a is_b =
    ap (λ t. t ++ b) is_a
    ∙ ap (λ t. take (length a) (drop p c) ++ t)
        (is_b ∙ ap (take (length b)) (sym (drop-add p (length a) c)))
    ∙ take-add (length a) (length b) (drop p c)
    ∙ ap (λ t. take t (drop p c)) (sym (length-append a b))
