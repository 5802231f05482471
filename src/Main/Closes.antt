-- ===== src/Main/Closes.antt =====
-- How often main closes the disk file.
use lkl_lklftpd.Base.{
  ℕ, ◌+◌, ◌*◌, ◌≡◌, refl, Bool, true, false, not, ◌&&◌, inl, inr, Option, none, some, List, [], ◌∷◌,
  ◌++◌, ◌==◌, arith, Bool-cases, if◌then◌else◌,
}
use lkl_lklftpd.System.{ℤ, is_success, is_eof}
use lkl_lklftpd.Kernel.Word.{is_zero_int, is_negative}
use lkl_lklftpd.Main.{
  MainCall, Settings, Startup, set_options, Steps, after, lkl_add_disk, root_steps, mount_disk,
  failed, prepare, start_env, start, start_pool, parsed, main,
}
use lkl_lklftpd.Main.Order.{if_both, end_of}

abbrev pub is_open : MainCall → Bool
is_open (MainCall.open_disk name writable) = true
is_open _ = false

abbrev pub is_close : MainCall → Bool
is_close MainCall.close_disk = true
is_close _ = false

abbrev pub count_calls : (MainCall → Bool) → List MainCall → ℕ
count_calls p [] = 0
count_calls p (c ∷ rest) = (if p c then 1 else 0) + count_calls p rest

count_calls-append :
    (p : MainCall → Bool) (a b : List MainCall)
    → count_calls p (a ++ b) ≡ count_calls p a + count_calls p b
count_calls-append p [] b = omega arith
count_calls-append p (c ∷ a) b = omega (arith, count_calls-append p a b)

-- Every open of the disk file has `m` closes.
abbrev Closes : ℕ → Steps → Type 0
Closes m steps = count_calls is_close steps.0 ≡ count_calls is_open steps.0 * m

after-Closes :
    (m : ℕ) (calls : List MainCall) (rest : Steps)
    → count_calls is_close calls ≡ 0
    → count_calls is_open calls ≡ 0
    → Closes m rest
    → Closes m (after calls rest)
after-Closes m calls rest c o h =
    let closes : count_calls is_close (calls ++ rest.0) ≡ count_calls is_close rest.0 =
      omega (arith, count_calls-append is_close calls rest.0, c) in
    let opens : count_calls is_open (calls ++ rest.0) ≡ count_calls is_open rest.0 =
      omega (arith, count_calls-append is_open calls rest.0, o) in
    rw (closes, opens) h

none_opened : (m : ℕ) → 0 ≡ 0 * m
none_opened m = omega arith

-- How often the disk file is closed once it is open.
abbrev pub closes_of : Startup → ℕ
closes_of a = if is_success a.sought && a.devno == 0 then 2 else 1

root_steps-quiet :
    (a : Startup) (s : Settings)
    → (count_calls is_close (root_steps a s).0 ≡ 0) × (count_calls is_open (root_steps a s).0 ≡ 0)
root_steps-quiet a s = elim (Bool-cases (is_negative a.mounted)) [
  | inl e ↦ rw e (refl, refl)
  | inr e ↦ elim (Bool-cases (is_negative a.changed)) [
    | inl f ↦ rw (e, f) (refl, refl)
    | inr f ↦ rw (e, f) (refl, refl)
  ]
]

end_of-counts :
    (rooted : Bool)
    → (count_calls is_close (end_of rooted true).0 ≡ 1)
      × (count_calls is_open (end_of rooted true).0 ≡ 0)
end_of-counts true = (refl, refl)
end_of-counts false = (refl, refl)

mount_disk-Closes :
    (a : Startup) (s : Settings)
    → is_success a.opened ≡ true
    → Closes (closes_of a) (mount_disk a s)
unfolding lkl_add_disk
mount_disk-Closes a s opened = elim (Bool-cases (is_success a.sought)) [
  | inr e ↦ rw (opened, e) refl
  | inl e ↦ elim (Bool-cases (a.devno == 0)) [
    | inl z ↦ rw (opened, e, z) refl
    | inr nz ↦
        let (c, o) = root_steps-quiet a s in
        let rooted = (root_steps a s).1 in
        let (fc, fo) = end_of-counts rooted in
        rw (opened, e, nz)
          (omega (
            arith,
            c,
            o,
            fc,
            fo,
            count_calls-append is_close (root_steps a s).0 (end_of rooted true).0,
            count_calls-append is_open (root_steps a s).0 (end_of rooted true).0,
          ))
  ]
]

start-Closes :
    (a : Startup) (s : Settings) → is_success a.opened ≡ true → Closes (closes_of a) (start a s)
start-Closes a s opened =
    let m = closes_of a in
    if_both (Closes m) (not (is_success (a.configured s)))
      (failed (MainCall.config ∷ MainCall.log ∷ []) (ℤ.pos 4)) (after prepare (start_env a s))
      (none_opened m)
      (after-Closes m prepare (start_env a s) refl refl (
        if_both (Closes m) (not (is_zero_int a.env)) (failed [] (ℤ.negsuc 0)) (mount_disk a s)
          (none_opened m) (mount_disk-Closes a s opened)))

parsed-Closes :
    (a : Startup) (o : Option Settings)
    → is_success a.opened ≡ true
    → Closes (closes_of a) (parsed a o)
parsed-Closes a none opened = none_opened (closes_of a)
parsed-Closes a (some s) opened =
    if_both (Closes (closes_of a)) (not (is_eof a.options_end)) (failed [] (ℤ.pos 3)) (start a s)
      (none_opened (closes_of a)) (start-Closes a s opened)

-- Where apr_file_open succeeds, main closes the disk file once for each time that it has opened it,
-- but twice where the disk cannot be added.
pub main-closes :
    (a : Startup) (s : Settings)
    → is_success a.opened ≡ true
    → count_calls is_close (main a s).0 ≡ count_calls is_open (main a s).0 * closes_of a
unfolding main
main-closes a s opened =
    let m = closes_of a in
    let options = set_options a.atoi a.options s in
    let wrong = failed (MainCall.log ∷ []) (ℤ.pos 1) in
    let rest = after (MainCall.pool_create ∷ []) (start_pool a s) in
    after-Closes m (MainCall.app_initialize ∷ [])
      (if not (is_success a.initialized) then wrong else rest) refl refl
      (if_both (Closes m) (not (is_success a.initialized)) wrong rest (none_opened m) (
        after-Closes m (MainCall.pool_create ∷ []) (start_pool a s) refl refl (
          if_both (Closes m) (not (is_success a.pool)) (failed (MainCall.log ∷ []) (ℤ.pos 2))
            (parsed a options) (none_opened m) (parsed-Closes a options opened))))
