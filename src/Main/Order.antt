-- ===== src/Main/Order.antt =====
-- The order of main's steps: the last calls of a start that succeeds.
use lkl_lklftpd.Base.{
  ℕ, ◌≡◌, refl, sym, ap, ◌∙◌, subst, Bool, true, false, not, some, Option, Bytes, List, [],
  Bool-cases, inl, inr, ◌∷◌, ◌++◌, append_assoc, if◌then◌else◌,
}
use mathlib.Core.Bool.{true≢false}
use lkl_lklftpd.System.{ℤ, is_success, is_eof}
use lkl_lklftpd.Kernel.Word.{is_zero_int, is_negative}
use lkl_lklftpd.Main.{
  MainCall, Settings, Startup, set_options, Steps, after, lkl_add_disk, root_steps, mount_failed,
  serve, mount_disk, failed, prepare, start_env, start, start_pool, parsed, main,
}

-- The calls that a disk is mounted and served by, up to the end of main.
abbrev pub served_disk : ℕ → Option Bytes → List MainCall
served_disk devno fs_type =
    MainCall.mount devno fs_type
    ∷ MainCall.chdir
    ∷ MainCall.chroot
    ∷ MainCall.listen
    ∷ MainCall.umount
    ∷ MainCall.halt
    ∷ MainCall.close_disk
    ∷ []

-- A success is a run whose last calls are these.
abbrev EndsServed : Startup → Settings → Steps → Type 0
EndsServed a s steps =
    is_zero_int steps.1 ≡ true
    → (calls : List MainCall) × (steps.0 ≡ calls ++ served_disk a.devno s.fs_type)

pub if_both : (P : Steps → Type 0) (b : Bool) (x y : Steps) → P x → P y → P (if b then x else y)
if_both P true x y h l = h
if_both P false x y h l = l

-- The end of a run, behind the steps that mount the disk.
abbrev pub end_of : Bool → Bool → Steps
end_of rooted file_set = if rooted then serve else mount_failed file_set

module _ (a : Startup) (s : Settings) where
  after-EndsServed :
      (calls : List MainCall) (rest : Steps)
      → EndsServed a s rest
      → EndsServed a s (after calls rest)
  after-EndsServed calls rest h ok =
      let (before, e) = h ok in
      (
        calls ++ before,
        ap (λ t. calls ++ t) e ∙ sym (append_assoc calls before (served_disk a.devno s.fs_type)),
      )

  not_served : (steps : Steps) → is_zero_int steps.1 ≡ false → EndsServed a s steps
  not_served steps e ok = elim (true≢false (sym ok ∙ e)) [ ]

  -- What follows the adding of the disk.
  abbrev mounted : Bool → List MainCall × Bool → Steps
  mounted file_set (root_calls, rooted) = after root_calls (end_of rooted file_set)

  fails-EndsServed :
      (calls : List MainCall) (file_set : Bool) → EndsServed a s (mounted file_set (calls, false))
  fails-EndsServed calls file_set =
      after-EndsServed calls (mount_failed file_set) (not_served (mount_failed file_set) refl)

  mounted-EndsServed : (file_set : Bool) → EndsServed a s (mounted file_set (root_steps a s))
  mounted-EndsServed file_set =
      let mount_call = MainCall.mount a.devno s.fs_type in
      elim (Bool-cases (is_negative a.mounted)) [
        | inl e ↦ rw e (fails-EndsServed (mount_call ∷ []) file_set)
        | inr e ↦ elim (Bool-cases (is_negative a.changed)) [
          | inl e' ↦ rw (e, e') (fails-EndsServed (mount_call ∷ MainCall.chdir ∷ []) file_set)
          | inr e' ↦ elim (Bool-cases (is_negative a.rooted)) [
            | inl e'' ↦
                rw (e, e', e'')
                  (fails-EndsServed (mount_call ∷ MainCall.chdir ∷ MainCall.chroot ∷ []) file_set)
            | inr e'' ↦ rw (e, e', e'') (λ ok. ([], refl))
          ]
        ]
      ]

  mount_disk-EndsServed : EndsServed a s (mount_disk a s)
  mount_disk-EndsServed =
      let (disk_calls, rc, file_set) = lkl_add_disk a s in
      if_both (EndsServed a s) (is_negative rc) (after disk_calls (mount_failed file_set))
        (after disk_calls (mounted file_set (root_steps a s)))
        (after-EndsServed disk_calls (mount_failed file_set)
          (not_served (mount_failed file_set) refl))
        (after-EndsServed disk_calls (mounted file_set (root_steps a s))
          (mounted-EndsServed file_set))

  start-EndsServed : EndsServed a s (start a s)
  start-EndsServed =
      let stopped = failed [] (ℤ.negsuc 0) in
      let wrong = failed (MainCall.config ∷ MainCall.log ∷ []) (ℤ.pos 4) in
      if_both (EndsServed a s) (not (is_success (a.configured s))) wrong
        (after prepare (start_env a s)) (not_served wrong refl)
        (after-EndsServed prepare (start_env a s) (
          if_both (EndsServed a s) (not (is_zero_int a.env)) stopped (mount_disk a s)
            (not_served stopped refl) mount_disk-EndsServed))

start_pool-EndsServed :
    (a : Startup) (s s' : Settings)
    → set_options a.atoi a.options s ≡ some s'
    → EndsServed a s' (start_pool a s)
start_pool-EndsServed a s s' e =
    let wrong = failed [] (ℤ.pos 3) in
    let no_pool = failed (MainCall.log ∷ []) (ℤ.pos 2) in
    if_both (EndsServed a s') (not (is_success a.pool)) no_pool
      (parsed a (set_options a.atoi a.options s)) (not_served a s' no_pool refl)
      (subst (λ o. EndsServed a s' (parsed a o)) (sym e)
        (if_both (EndsServed a s') (not (is_eof a.options_end)) wrong (start a s')
          (not_served a s' wrong refl) (start-EndsServed a s')))

main-EndsServed :
    (a : Startup) (s s' : Settings)
    → set_options a.atoi a.options s ≡ some s'
    → EndsServed a s' (main a s)
unfolding main
main-EndsServed a s s' e =
    let wrong = failed (MainCall.log ∷ []) (ℤ.pos 1) in
    let rest = after (MainCall.pool_create ∷ []) (start_pool a s) in
    after-EndsServed a s' (MainCall.app_initialize ∷ [])
      (if not (is_success a.initialized) then wrong else rest)
      (if_both (EndsServed a s') (not (is_success a.initialized)) wrong rest
        (not_served a s' wrong refl)
        (after-EndsServed a s' (MainCall.pool_create ∷ []) (start_pool a s)
          (start_pool-EndsServed a s s' e)))

-- Where main returns 0, and not from show_help, its last seven calls are, in this order: the mount
-- of the disk, by the number that it has been added under and with the file system of the command
-- line, chdir, chroot, the service of the clients, the unmounting, the halt of the kernel, and the
-- closing of the disk file.
pub main-serves :
    (a : Startup) (s s' : Settings)
    → set_options a.atoi a.options s ≡ some s'
    → is_zero_int (main a s).1 ≡ true
    → (calls : List MainCall) × ((main a s).0 ≡ calls ++ served_disk a.devno s'.fs_type)
main-serves a s s' e ok = main-EndsServed a s s' e ok
