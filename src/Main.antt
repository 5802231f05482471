-- ===== src/Main.antt =====
-- main.c, as it is built with LKL_FILE_APIS: the command line, the disk, and the order of main's steps.
-- The libraries' and the kernel's answers are parameters.
pub mod Order
pub mod Closes
use lkl_lklftpd.Base.{
  ℕ, zero, suc, ◌+◌, ◌*◌, ◌/◌, Bool, true, false, not, ◌&&◌, ◌||◌, Option, none, some, List, [],
  ◌∷◌, ◌++◌, ◌==◌, if◌then◌else◌, Bytes, text,
}
use lkl_lklftpd.System.{ℤ, Status, is_success, is_eof}
use lkl_lklftpd.Kernel.Word.{is_zero_int, is_negative}

-- What main and lkl_add_disk call, with the arguments that they have made.
pub data MainCall : Type 0 where
  app_initialize pool_create config atomic_init clear_must_exit handle_signals : MainCall
  env_init : ℕ → MainCall
  open_disk : Bytes → Bool → MainCall
  seek_disk close_disk halt log listen : MainCall
  add_disk : ℕ → MainCall
  mount : ℕ → Option Bytes → MainCall
  chdir chroot umount : MainCall

-- The variables that the command line sets.
pub record Settings : Type 0 where
  pub ro : Bool
  pub fs_type : Option Bytes
  pub disk_image : Bytes
  pub listen_port : ℕ
  pub data_port : ℕ
  pub debug : ℕ

-- The answers that main gets.
pub record Startup : Type 0 where
  pub initialized : Status
  pub pool : Status
  -- The options that apr_getopt_long gives, each with its argument, and what it ends with.
  pub options : List (ℕ × Bytes)
  pub options_end : Status
  pub configured : Settings → Status
  pub atoi : Bytes → ℕ
  pub env : ℤ
  pub opened : Status
  -- Whether apr_file_open has set disk_file where it fails.
  pub file_set : Bool
  pub sought : Status
  pub off : ℕ
  pub devno : ℕ
  pub mounted : ℤ
  pub changed : ℤ
  pub rooted : ℤ

-- One option, by its letter: `none` where show_help has called exit(0).
abbrev pub set_option : (Bytes → ℕ) → ℕ → Bytes → Settings → Option Settings
set_option atoi optch optarg s =
    if optch == 114
    then some (record s { ro = true })
    else if optch == 116
    then some (record s { fs_type = some optarg })
    else if optch == 102
    then some (record s { disk_image = optarg })
    else if optch == 112
    then some (record s { listen_port = atoi optarg; data_port = 0 })
    else if optch == 100
    then some (record s { debug = atoi optarg })
    else if optch == 104
    then none
    else some s

-- parse_command_line's loop.
abbrev pub set_options : (Bytes → ℕ) → List (ℕ × Bytes) → Settings → Option Settings
set_options atoi [] s = some s
set_options atoi ((optch, optarg) ∷ rest) s = elim (set_option atoi optch optarg s) [
  | none ↦ none
  | some s' ↦ set_options atoi rest s'
]

-- What has been called, and the exit code.
abbrev pub Steps : Type 0
Steps = List MainCall × ℤ

abbrev pub after : List MainCall → Steps → Steps
after calls (rest, code) = (calls ++ rest, code)

-- lkl_add_disk: what it calls, its result, and whether disk_file is set.
unfoldable pub lkl_add_disk : Startup → Settings → List MainCall × ℤ × Bool
lkl_add_disk a s =
    let open_call = MainCall.open_disk s.disk_image (not s.ro) in
    if not (is_success a.opened)
    then (open_call ∷ MainCall.log ∷ [], ℤ.negsuc 0, a.file_set)
    else if not (is_success a.sought)
    then (open_call ∷ MainCall.seek_disk ∷ MainCall.log ∷ [], ℤ.negsuc 0, true)
    else (let added = open_call ∷ MainCall.seek_disk ∷ MainCall.add_disk (a.off / 512) ∷ [] in
        if a.devno == 0
        then (added ++ (MainCall.close_disk ∷ []), ℤ.negsuc 0, true)
        else (added, ℤ.pos 0, true))

-- The mount and the steps behind it, one after the other until one fails: what is called, and whether
-- all have succeeded.
abbrev pub root_steps : Startup → Settings → List MainCall × Bool
root_steps a s =
    let mount_call = MainCall.mount a.devno s.fs_type in
    if is_negative a.mounted
    then (mount_call ∷ [], false)
    else if is_negative a.changed
    then (mount_call ∷ MainCall.chdir ∷ [], false)
    else (mount_call ∷ MainCall.chdir ∷ MainCall.chroot ∷ [], not (is_negative a.rooted))

-- What main does where the disk cannot be mounted.
abbrev pub mount_failed : Bool → Steps
mount_failed file_set = (
  (MainCall.halt ∷ [])
      ++ (if file_set then MainCall.close_disk ∷ [] else [])
      ++ (MainCall.log ∷ []),
  ℤ.negsuc 0,
)

-- The service, and what follows it.
abbrev pub serve : Steps
serve = (MainCall.listen ∷ MainCall.umount ∷ MainCall.halt ∷ MainCall.close_disk ∷ [], ℤ.pos 0)

abbrev pub mount_disk : Startup → Settings → Steps
mount_disk a s =
    let (disk_calls, rc, file_set) = lkl_add_disk a s in
    let (root_calls, rooted) = root_steps a s in
    if is_negative rc
    then after disk_calls (mount_failed file_set)
    else after disk_calls (after root_calls (if rooted then serve else mount_failed file_set))

-- The steps of main, the last first: each with what it does where it fails.
abbrev pub failed : List MainCall → ℤ → Steps
failed calls code = (calls, code)

abbrev pub start_env : Startup → Settings → Steps
start_env a s = if not (is_zero_int a.env) then failed [] (ℤ.negsuc 0) else mount_disk a s

abbrev pub prepare : List MainCall
prepare =
    MainCall.config
    ∷ MainCall.atomic_init
    ∷ MainCall.clear_must_exit
    ∷ MainCall.handle_signals
    ∷ MainCall.env_init (16 * 1024 * 1024)
    ∷ []

abbrev pub start : Startup → Settings → Steps
start a s =
    if not (is_success (a.configured s))
    then failed (MainCall.config ∷ MainCall.log ∷ []) (ℤ.pos 4)
    else after prepare (start_env a s)

-- Behind parse_command_line: show_help exits.
abbrev pub parsed : Startup → Option Settings → Steps
parsed a none = failed [] (ℤ.pos 0)
parsed a (some s) = if not (is_eof a.options_end) then failed [] (ℤ.pos 3) else start a s

abbrev pub start_pool : Startup → Settings → Steps
start_pool a s =
    if not (is_success a.pool)
    then failed (MainCall.log ∷ []) (ℤ.pos 2)
    else parsed a (set_options a.atoi a.options s)

-- `s` is the values that the variables start with.
unfoldable pub main : Startup → Settings → Steps
unfolding lkl_add_disk
main a s = after (MainCall.app_initialize ∷ []) (
    if not (is_success a.initialized)
    then failed (MainCall.log ∷ []) (ℤ.pos 1)
    else after (MainCall.pool_create ∷ []) (start_pool a s))
