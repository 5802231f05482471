-- ===== src/FileCommands/Unique.antt =====
-- get_unique_filename of cmdhandler.c, which STOU uses.
use lkl_lklftpd.Base.{
  ℕ, zero, suc, ◌+◌, ◌%◌, ◌^◌, ◌≤◌, ◌<◌, ◌≡◌, refl, false, not, [], ◌∷◌, arith, Bytes, text,
  Bool-cases, inl, inr, subst, ◌-◌,
}
use lkl_lklftpd.System.{Apr, Arg, State, is_success, Call, History, Outcome, ret, halted, Halt}
use lkl_lklftpd.Transfer.Ends.{IsReturned}
use lkl_lklftpd.FileCommands.{unique_loop, get_unique_filename}

module _ (apr : Apr) where
  -- The run has returned a name, and its last call has looked for that name and not found it. There is no
  -- other end than a lack of fuel.
  abbrev pub IsFresh : Outcome Bytes → Type 0
  IsFresh (ret name st) =
      (h : History) × (st.history ≡ Call.stat name ∷ h) × (is_success (apr.stat h name).0 ≡ false)
  IsFresh (halted why st) = why ≡ Halt.out_of_fuel

  unique_loop-IsFresh :
      (fuel : ℕ) (base : Bytes) (suffix : ℕ) (st : State)
      → IsFresh (unique_loop apr fuel base suffix st)
  unfolding unique_loop
  unique_loop-IsFresh zero base suffix st = refl
  unique_loop-IsFresh (suc fuel) base suffix st =
      let name = apr.vsprintf (text "%s.%u") (Arg.str base ∷ Arg.num suffix ∷ []) in
      elim (Bool-cases (not (is_success (apr.stat st.history name).0))) [
        | inl free ↦ rw free (st.history, refl, ground arith)
        | inr taken ↦ rw taken (unique_loop-IsFresh fuel base ((suffix + 1) % 2 ^ 32) _)
      ]

  -- Where the search of STOU returns a name, its last call has looked for that name and not found
  -- it. It does not end otherwise but for lack of fuel.
  pub get_unique_filename-IsFresh :
      (fuel : ℕ) (base : Bytes) (st : State) → IsFresh (get_unique_filename apr fuel base st)
  unfolding get_unique_filename
  get_unique_filename-IsFresh fuel base st =
      elim (Bool-cases (not (is_success (apr.stat st.history base).0))) [
        | inl free ↦ rw free (st.history, refl, ground arith)
        | inr taken ↦ rw taken (unique_loop-IsFresh fuel base _ _)
      ]

-- The name with a number behind it.
abbrev pub numbered : Apr → Bytes → ℕ → Bytes
numbered apr base n = apr.vsprintf (text "%s.%u") (Arg.str base ∷ Arg.num n ∷ [])

-- No file ever has this name.
abbrev pub IsFree : Apr → Bytes → Type 0
IsFree apr name = (h : History) → is_success (apr.stat h name).0 ≡ false

module _ (apr : Apr) (base : Bytes) where
  unique_loop-IsReturned :
      (k fuel suffix : ℕ) (st : State)
      → IsFree apr (numbered apr base (suffix + k))
      → suffix + k < 2 ^ 32
      → k < fuel
      → IsReturned (unique_loop apr fuel base suffix st)
  unfolding unique_loop
  unique_loop-IsReturned k zero suffix st free small enough = absurd (omega arith)
  unique_loop-IsReturned zero (suc fuel) suffix st free small enough =
      let here : suffix + 0 ≡ suffix = omega arith in
      let none_there : IsFree apr (numbered apr base suffix) =
        subst (λ n. IsFree apr (numbered apr base n)) here free in
      rw (none_there st.history) tt
  unique_loop-IsReturned (suc k) (suc fuel) suffix st free small enough =
      let next : (suffix + 1) % 2 ^ 32 ≡ suffix + 1 = omega arith in
      let further : suffix + suc k ≡ (suffix + 1) % 2 ^ 32 + k = omega arith in
      elim (Bool-cases (not (is_success (apr.stat st.history (numbered apr base suffix)).0))) [
        | inl nothing ↦ rw nothing tt
        | inr taken ↦ rw taken (
            unique_loop-IsReturned k fuel ((suffix + 1) % 2 ^ 32) _
              (subst (λ n. IsFree apr (numbered apr base n)) further free) (omega arith)
              (omega arith))
      ]

  -- The search of STOU returns, with fuel for `k` rounds, if no file ever has the name with the
  -- number `k` behind it, for a `k` from 1 to below 2 ^ 32.
  pub get_unique_filename-IsReturned :
      (k fuel : ℕ) (st : State)
      → IsFree apr (numbered apr base k)
      → 0 < k
      → k < 2 ^ 32
      → k ≤ fuel
      → IsReturned (get_unique_filename apr fuel base st)
  unfolding get_unique_filename
  get_unique_filename-IsReturned k fuel st free some_k small enough =
      let from_one : k ≡ 1 + (k - 1) = omega arith in
      elim (Bool-cases (not (is_success (apr.stat st.history base).0))) [
        | inl nothing ↦ rw nothing tt
        | inr taken ↦ rw taken (
            unique_loop-IsReturned (k - 1) fuel 1 _
              (subst (λ n. IsFree apr (numbered apr base n)) from_one free) (omega arith)
              (omega arith))
      ]
