-- ===== src/Tests/Starts.antt =====
-- A start of the daemon with the options -r and -p 2121, with a disk that can be added and with one that cannot.
use lkl_lklftpd.Base.{ℕ, ◌*◌, ◌≡◌, refl, true, false, none, List, [], ◌∷◌, ◌++◌, text}
use lkl_lklftpd.System.{ℤ, Status}
use lkl_lklftpd.Kernel.Word.{is_zero_int}
use lkl_lklftpd.Main.{MainCall, Settings, Startup, main, lkl_add_disk}
use lkl_lklftpd.Main.Order.{served_disk, main-serves}
use lkl_lklftpd.Main.Closes.{is_open, is_close, count_calls, closes_of, main-closes}

abbrev settings : Settings
settings = record {
  ro = false;
  fs_type = none;
  disk_image = text "disk";
  listen_port = 21;
  data_port = 20;
  debug = 0;
}

abbrev startup : ℕ → Startup
startup devno = record {
  initialized = Status.success;
  pool = Status.success;
  options = (114, []) ∷ (112, text "2121") ∷ [];
  options_end = Status.eof;
  configured = λ s. Status.success;
  atoi = λ s. 2121;
  env = ℤ.pos 0;
  opened = Status.success;
  file_set = false;
  sought = Status.success;
  off = 1048576;
  devno = devno;
  mounted = ℤ.pos 0;
  changed = ℤ.pos 0;
  rooted = ℤ.pos 0;
}

served_well : is_zero_int (main (startup 3) settings).1 ≡ true
unfolding main lkl_add_disk
served_well = refl

main-serves_example :
    (calls : List MainCall) × ((main (startup 3) settings).0 ≡ calls ++ served_disk 3 none)
main-serves_example =
    main-serves (startup 3) settings
      (record settings { ro = true; listen_port = 2121; data_port = 0 }) refl served_well

main-closes_example :
    count_calls is_close (main (startup 0) settings).0
    ≡ count_calls is_open (main (startup 0) settings).0 * closes_of (startup 0)
main-closes_example = main-closes (startup 0) settings refl

closed_twice : count_calls is_close (main (startup 0) settings).0 ≡ 2
unfolding main lkl_add_disk
closed_twice = refl
