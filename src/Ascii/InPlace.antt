-- ===== src/Ascii/InPlace.antt =====
-- lfd_ascii_ascii_to_bin against its meaning: reading and writing the same buffer is safe, since
-- the writes never pass the reads.
use lkl_lklftpd.Base.{
  ℕ, zero, suc, ◌+◌, ◌-◌, ◌≤◌, ◌<◌, ◌≡◌, refl, Bool, true, false, ◌||◌, [], ◌∷◌, ◌++◌, arith, ◌==◌,
  append_assoc, append-nil, inl, inr, Bool-cases, Bytes, ◌∙◌, sym, ap, ◌⊎◌, ne→==,
}
use lkl_lklftpd.Ascii.{
  cr, Buffer, store, AsciiToBinLoop, ascii_to_bin_body, ascii_to_bin_loop, ascii_to_bin,
}
use lkl_lklftpd.Ascii.Spec.{fragment, ends_in_cr, converted}

-- The `n` bytes of a buffer from offset `i` on.
abbrev pub bytes : Buffer → ℕ → ℕ → Bytes
bytes b i zero = []
bytes b i (suc n) = b i ∷ bytes b (i + 1) n

bytes-store_below : (b : Buffer) (p v i n : ℕ) → p < i → bytes (store b p v) i n ≡ bytes b i n
bytes-store_below b p v i zero h = refl
bytes-store_below b p v i (suc n) h = ground (arith, bytes-store_below b p v (i + 1) n)

-- A store just behind a run of bytes makes the run longer.
bytes-store_end :
    (b : Buffer) (p v i n : ℕ) → p ≡ i + n → bytes (store b p v) i (suc n) ≡ bytes b i n ++ (v ∷ [])
bytes-store_end b p v i zero h = ground arith
bytes-store_end b p v i (suc n) h = ground (arith, bytes-store_end b p v (i + 1) n)

abbrev locals : Buffer → ℕ → ℕ → ℕ → Bool → AsciiToBinLoop
locals b i p w l = record { buf = b; indexx = i; p_out = p; written = w; last_was_cr = l }

-- What the loop has stored from offset `a` on, given what it had stored and what it has to read.
abbrev Extends : ℕ → Bytes → Bytes → Bool → AsciiToBinLoop → Type 0
Extends a done rest l s =
    (bytes s.buf a s.written ≡ done ++ fragment rest) × (s.last_was_cr ≡ (l || ends_in_cr rest))

one_more : (c : ℕ) (done rest : Bytes) → (done ++ (c ∷ [])) ++ rest ≡ done ++ (c ∷ rest)
one_more c done rest = append_assoc done (c ∷ []) rest

-- The three things that a round does with the byte at `i + 1`.
module _ (in_len : ℕ) (b : Buffer) (i p w : ℕ) (l : Bool) where
  body-put :
      (((b (i + 1) == 13) ≡ false) ⊎ (((i == in_len - 1) ≡ false) × ((b (i + 2) == 10) ≡ false)))
      → ascii_to_bin_body in_len (locals b i p w l)
        ≡ locals (store b p (b (i + 1))) i (p + 1) (w + 1) l
  unfolding ascii_to_bin_body
  body-put (inl e) = rw e
  body-put (inr (e, f)) = elim (Bool-cases (b (i + 1) == 13)) [
    | inl h ↦ rw (h, e, f)
    | inr h ↦ rw h
  ]

  body-hold :
      (b (i + 1) == 13) ≡ true
      → (i == in_len - 1) ≡ true
      → ascii_to_bin_body in_len (locals b i p w l) ≡ locals b i p w true
  unfolding ascii_to_bin_body
  body-hold e f = rw (e, f)

  body-skip :
      (b (i + 1) == 13) ≡ true
      → (i == in_len - 1) ≡ false
      → (b (i + 2) == 10) ≡ true
      → ascii_to_bin_body in_len (locals b i p w l) ≡ locals b i p w l
  unfolding ascii_to_bin_body
  body-skip e f g = rw (e, f, g)

abbrev next : AsciiToBinLoop → AsciiToBinLoop
next s = record s { indexx = s.indexx + 1 }

loop-body :
    (n in_len : ℕ) (s t : AsciiToBinLoop)
    → ascii_to_bin_body in_len s ≡ t
    → ascii_to_bin_loop (suc n) in_len s ≡ ascii_to_bin_loop n in_len (next t)
unfolding ascii_to_bin_loop
loop-body n in_len s t e = ap (λ u. ascii_to_bin_loop n in_len (next u)) e

-- After a byte has been stored the rest of the loop extends what is stored by then.
put-Extends :
    (n in_len : ℕ) (b : Buffer) (i p w a : ℕ) (l : Bool)
    → p ≡ a + w
    → p ≤ i + 1
    → Extends a
        (bytes (store b p (b (i + 1))) a (w + 1))
        (bytes (store b p (b (i + 1))) (i + 1 + 1) n)
        l
        (ascii_to_bin_loop n in_len (locals (store b p (b (i + 1))) (i + 1) (p + 1) (w + 1) l))
    → let s =
        ascii_to_bin_loop n in_len (locals (store b p (b (i + 1))) (i + 1) (p + 1) (w + 1) l) in
      (bytes s.buf a s.written ≡ bytes b a w ++ (b (i + 1) ∷ fragment (bytes b (i + 1 + 1) n)))
      × (s.last_was_cr ≡ (l || ends_in_cr (bytes b (i + 1 + 1) n)))
put-Extends n in_len b i p w a l hp hi (e, f) =
    let same = bytes-store_below b p (b (i + 1)) (i + 1 + 1) n (omega arith) in
    let longer = bytes-store_end b p (b (i + 1)) a w hp in
    let count : w + 1 ≡ suc w = omega arith in
    (
      e
          ∙ ap
              (λ t.
                bytes (store b p (b (i + 1))) a t
                ++ fragment (bytes (store b p (b (i + 1))) (i + 1 + 1) n))
              count
          ∙ ap (λ t. t ++ fragment (bytes (store b p (b (i + 1))) (i + 1 + 1) n)) longer
          ∙ ap (λ t. (bytes b a w ++ (b (i + 1) ∷ [])) ++ fragment t) same
          ∙ one_more (b (i + 1)) (bytes b a w) (fragment (bytes b (i + 1 + 1) n)),
      f ∙ rw same,
    )

done-Extends :
    (in_len : ℕ) (b : Buffer) (i p w a : ℕ) (l : Bool)
    → Extends a (bytes b a w) [] l (ascii_to_bin_loop 0 in_len (locals b i p w l))
unfolding ascii_to_bin_loop
done-Extends in_len b i p w a l = (sym (append-nil _), ground arith)

loop-Extends :
    (n in_len : ℕ) (b : Buffer) (i p w a : ℕ) (l : Bool)
    → p ≡ a + w
    → p ≤ i + 1
    → i + n ≡ in_len
    → Extends a (bytes b a w) (bytes b (i + 1) n) l (ascii_to_bin_loop n in_len (locals b i p w l))
loop-Extends zero in_len b i p w a l hp hi hn = done-Extends in_len b i p w a l
loop-Extends (suc zero) in_len b i p w a l hp hi hn = elim (Bool-cases (b (i + 1) == 13)) [
  | inl e ↦
      rw (loop-body 0 in_len _ _ (body-hold in_len b i p w l e (ground arith)), e)
        (unfold ascii_to_bin_loop in (sym (append-nil _), ground arith))
  | inr e ↦
      rw (loop-body 0 in_len _ _ (body-put in_len b i p w l (inl e)), e)
        (put-Extends 0 in_len b i p w a l hp hi (done-Extends in_len _ (i + 1) (p + 1) (w + 1) a l))
]
loop-Extends (suc (suc n)) in_len b i p w a l hp hi hn =
    let put = put-Extends (suc n) in_len b i p w a l hp hi (
      loop-Extends (suc n) in_len (store b p (b (i + 1))) (i + 1) (p + 1) (w + 1) a l (omega arith)
        (omega arith) (omega arith)) in
    let skip = loop-Extends (suc n) in_len b (i + 1) p w a l hp (omega arith) (omega arith) in
    let after : b (i + 2) ≡ b (i + 1 + 1) = ap b (omega arith) in
    let more : (i == in_len - 1) ≡ false = ground arith in
    elim (Bool-cases (b (i + 1) == 13)) [
      | inl e ↦ elim (Bool-cases (b (i + 1 + 1) == 10)) [
        | inl f ↦
            rw (loop-body (suc n) in_len _ _ (body-skip in_len b i p w l e more (rw after f)), e, f)
              skip
        | inr f ↦
            rw
              (
                loop-body (suc n) in_len _ _ (body-put in_len b i p w l (inr (more, rw after f))),
                e,
                f,
              )
              put
      ]
      | inr e ↦ rw (loop-body (suc n) in_len _ _ (body-put in_len b i p w l (inl e)), e) put
    ]

-- The conversion in place of a buffer gives, from the returned pointer on, what the conversion of
-- the bytes as a value gives, and reports a held back '\r' as that does, with and without a '\r'
-- from the last call.
pub ascii_to_bin-converted :
    (buf : Buffer) (in_len : ℕ) (prev_cr : Bool)
    → let (buf', ret) = ascii_to_bin buf in_len prev_cr in
      (bytes buf' ret.p_buf ret.stored ≡ (converted prev_cr (bytes buf 1 in_len)).0)
      × (ret.last_was_cr ≡ (converted prev_cr (bytes buf 1 in_len)).1)
unfolding ascii_to_bin
ascii_to_bin-converted buf in_len false =
    loop-Extends in_len in_len buf 0 1 0 1 false (omega arith) (omega arith) (omega arith)
ascii_to_bin-converted buf zero true = (refl, refl)
ascii_to_bin-converted buf (suc n) true =
    let some_left = ne→== (suc n) 0 (omega arith) in
    elim (Bool-cases (buf 1 == 10)) [
      | inl e ↦
          rw (some_left, e)
            (loop-Extends (suc n) (suc n) buf 0 1 0 1 false (omega arith) (omega arith)
              (omega arith))
      | inr e ↦
          let same = bytes-store_below buf 0 cr 1 (suc n) (omega arith) in
          let (out, last) =
            loop-Extends (suc n) (suc n) (store buf 0 cr) 0 1 1 0 false (omega arith) (omega arith)
              (omega arith) in
          rw (some_left, e) (out ∙ ap (λ t. 13 ∷ fragment t) same, last ∙ ap ends_in_cr same)
    ]
