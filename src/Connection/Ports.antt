-- ===== src/Connection/Ports.antt =====
-- The passive ports that connection.c draws, and the numbers of a PORT command.
use lkl_lklftpd.Base.{
  ℕ, zero, suc, ◌+◌, ◌-◌, ◌*◌, ◌/◌, ◌%◌, ◌^◌, ◌≤◌, ◌<◌, ◌≡◌, Bool, true, false, arith, inl, inr,
  Bool-cases, Option-cases, Bytes, ltb, not, ◌||◌, ◌++◌, is_nil, if◌then◌else◌,
}
use native.Mathlib.Nat.{mul-lt-mul_of_pos_left, mul-le-mul, mod-eq_of_lt, div-lt_iff_lt-mul}
use lkl_lklftpd.System.{Apr, ℤ, Status, is_success}
use lkl_lklftpd.Connection.{scale_port, Vals, set_val, parse_items, parse_number}

-- A number drawn below the maximum gives a passive port from the minimum to the maximum, which are
-- ports with 0 < minimum, in the 64 and 16 bits of the computation.
pub scale_port_bounds :
    (min_port max_port drawn : ℕ)
    → 0 < min_port
    → min_port ≤ max_port
    → max_port < 65536
    → drawn < max_port
    → (min_port ≤ scale_port min_port max_port drawn)
      × (scale_port min_port max_port drawn ≤ max_port)
unfolding scale_port
scale_port_bounds min_port max_port drawn some_port le small below =
    let span = max_port - min_port + 1 in
    let wide : (max_port + 2 ^ 64 - min_port + 1) % 2 ^ 64 ≡ span = omega arith in
    let product : span * drawn < span * max_port =
      mul-lt-mul_of_pos_left {m = drawn} {n = max_port} {k = span} below (omega arith) in
    let room : span * max_port ≤ 65536 * 65536 =
      mul-le-mul {n₂ = 65536} {m₂ = 65536} (omega arith) (omega arith) in
    let fits : span * drawn % 2 ^ 64 ≡ span * drawn = mod-eq_of_lt (omega arith) in
    let scaled : span * drawn / max_port < span = (div-lt_iff_lt-mul (omega arith)).1 product in
    rw (wide, fits) (omega arith)

-- A number drawn equal to the maximum 65535 gives port 0, whatever the minimum.
scale_port_last :
    (min_port : ℕ) → 0 < min_port → min_port ≤ 65535 → scale_port min_port 65535 65535 ≡ 0
unfolding scale_port
scale_port_last min_port some_port le = omega arith

-- The values of an array up to an index are bytes.
abbrev pub BytesBelow : ℕ → Vals → Type 0
BytesBelow n vals = (i : ℕ) → i < n → vals i < 256

abbrev pub AllBytes : ℕ → Bool × Vals → Type 0
AllBytes n (true, vals) = BytesBelow n vals
AllBytes n (false, vals) = Unit {0}

unless-AllBytes :
    (m : ℕ) (failed : Bool) (vals : Vals) (o : Bool × Vals)
    → AllBytes m o
    → AllBytes m (if failed then (false, vals) else o)
unless-AllBytes m true vals o h = tt
unless-AllBytes m false vals o h = h

module _ (apr : Apr) where
  set_val-BytesBelow :
      (vals : Vals) (i v : ℕ) → BytesBelow i vals → v < 256 → BytesBelow (i + 1) (set_val vals i v)
  set_val-BytesBelow vals i v h small j lt = ground (arith, h j)

  parse_number-AllBytes :
      (m : ℕ) (r : Status × ℤ) (vals : Vals) (go_on : ℕ → Bool × Vals)
      → ((n : ℕ) → n < 256 → AllBytes m (go_on n))
      → AllBytes m (parse_number r vals go_on)
  parse_number-AllBytes m (rc, ℤ.negsuc k) vals go_on h = tt
  parse_number-AllBytes m (rc, ℤ.pos n) vals go_on h =
      elim (Bool-cases (not (is_success rc) || ltb 255 n)) [
        | inl e ↦ rw e tt
        | inr e ↦ rw e (h n (ground arith))
      ]

  parse_items-AllBytes :
      (sep : Bytes) (left i : ℕ) (input : Bytes) (vals : Vals)
      → BytesBelow i vals
      → AllBytes (i + left) (parse_items apr sep left i input vals)
  unfolding parse_items
  parse_items-AllBytes sep zero i input vals h = let e : i + 0 ≡ i = omega arith in rw e h
  parse_items-AllBytes sep (suc left) i input vals h =
      let e : i + suc left ≡ i + 1 + left = omega arith in
      elim (Option-cases (apr.strtok input sep)) [
        | inl none_left ↦ rw (none_left, parse_items) tt
        | inr (cut, found) ↦
            let number =
              parse_number-AllBytes (i + 1 + left) (apr.strtoff (cut.lead ++ cut.token)) vals
                (λ v. parse_items apr sep left (i + 1) cut.rest (set_val vals i v))
                (λ n lt.
                  parse_items-AllBytes sep left (i + 1) cut.rest (set_val vals i n)
                    (set_val-BytesBelow vals i n h lt)) in
            rw (found, parse_items, e)
              (unless-AllBytes (i + 1 + left) (is_nil cut.token) vals _
                (unless-AllBytes (i + 1 + left) _ vals _ number))
      ]

  -- Where the parser of the lists of numbers in PORT and PASV accepts its input, each of the
  -- numbers that it has stored is below 256.
  pub parse_items_bounds :
      (sep : Bytes) (items : ℕ) (input : Bytes) (vals : Vals)
      → AllBytes items (parse_items apr sep items 0 input vals)
  parse_items_bounds sep items input vals =
      let e : 0 + items ≡ items = omega arith in
      rw e at (parse_items-AllBytes sep items 0 input vals (λ i lt. absurd (omega arith)))

-- A port number goes into two bytes of a PASV reply, and comes back out of two bytes as in PORT.
pub port_bytes : (port : ℕ) → port < 65536 → (port / 256 % 256) * 256 + port % 256 ≡ port
port_bytes port h = omega arith
