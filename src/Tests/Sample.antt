-- ===== src/Tests/Sample.antt =====
-- A runtime for the tests: one client that sends a list of fragments, one file that can be read once,
-- and a file system in which only the names that end in a slash are directories.
use lkl_lklftpd.Base.{
  ℕ, zero, suc, ◌+◌, ◌-◌, ◌*◌, ◌≤◌, refl, Bool, true, false, ◌||◌, Option, none, some, List, [],
  ◌∷◌, ◌++◌, ◌==◌, arith, if◌then◌else◌, Bytes, text, length, take, is_nil,
}
use lkl_lklftpd.System.{
  Status, ℤ, Call, History, FileType, FileInfo, Protection, Apr, CopiesStrings, KeepsCounts, Split,
  default_config,
}
use lkl_lklftpd.Paths.{slash, char_at, same_string}
use lkl_lklftpd.Transfer.Ends.{IsFinite}

abbrev pub member : ℕ → Bytes → Bool
member c [] = false
member c (d ∷ rest) = c == d || member c rest

abbrev pub skipped : Bytes → Bytes → Bytes
skipped sep [] = []
skipped sep (c ∷ rest) = if member c sep then skipped sep rest else c ∷ rest

abbrev pub lead_of : Bytes → Bytes → Bytes
lead_of sep [] = []
lead_of sep (c ∷ rest) = if member c sep then c ∷ lead_of sep rest else []

abbrev pub token_of : Bytes → Bytes → Bytes
token_of sep [] = []
token_of sep (c ∷ rest) = if member c sep then [] else c ∷ token_of sep rest

abbrev pub rest_of : Bytes → Bytes → Bytes
rest_of sep [] = []
rest_of sep (c ∷ rest) = if member c sep then rest else rest_of sep rest

abbrev pub cut : Bytes → Bytes → Option Split
cut input sep =
    let body = skipped sep input in
    if is_nil body
    then none
    else some
        (record { lead = lead_of sep input; token = token_of sep body; rest = rest_of sep body })

abbrev pub decimal : ℕ → Bytes → ℕ
decimal n [] = n
decimal n (c ∷ rest) = decimal (n * 10 + (c - b'0')) rest

abbrev pub nth : ℕ → List Bytes → Bytes
nth n [] = []
nth zero (x ∷ xs) = x
nth (suc n) (x ∷ xs) = nth n xs

abbrev pub recvs : History → ℕ
recvs [] = 0
recvs (Call.recv _ _ ∷ h) = suc (recvs h)
recvs (_ ∷ h) = recvs h

-- Whether the file has been read.
abbrev pub was_read : History → Bool
was_read [] = false
was_read (Call.file_read _ _ ∷ h) = true
was_read (_ ∷ h) = was_read h

abbrev pub content : Bytes
content = b'a' ∷ 10 ∷ b'b' ∷ []

abbrev pub file_left : History → ℕ
file_left h = if was_read h then 0 else 3

abbrev pub no_protection : Protection
no_protection = record {
  uread = true;
  uwrite = true;
  uexecute = false;
  gread = true;
  gwrite = false;
  gexecute = false;
  wread = false;
  wwrite = false;
  wexecute = false;
}

abbrev pub info : FileType → FileInfo
info kind = record {
  filetype = kind;
  size = 3;
  mtime = 0;
  name = text "f";
  protection = no_protection;
}

abbrev pub stat_answer : Bytes → Status × FileInfo
stat_answer path =
    if char_at path (length path - 1) == slash
    then (Status.success, info FileType.dir)
    else (Status.code 2, info FileType.reg)

abbrev pub read_answer : Bool → ℕ → Status × Bytes
read_answer true n = (Status.eof, [])
read_answer false n = (Status.success, take n content)

abbrev pub runtime : List Bytes → Apr
runtime script = record {
  config = default_config;
  stack_room = 0;
  indeterminate = λ h i. 0;
  pstrdup = λ s. s;
  pstrcat = λ s t. s ++ t;
  vsprintf = λ format args. format;
  snprintf = λ n format args. take n format;
  strtok = cut;
  strtoff = λ s. (Status.success, ℤ.pos (decimal 0 s));
  strnatcasecmp = λ s t. if same_string s t then ℤ.pos 0 else ℤ.pos 1;
  send = λ h s b. (Status.success, length b);
  recv = λ h s n.
      let got = take n (nth (recvs h) script) in
      (if is_nil got then Status.eof else Status.success, got);
  create_socket = λ h a. (Status.success, 5);
  bind = λ h s a. Status.success;
  listen = λ h s n. Status.success;
  accept = λ h s. (Status.success, some 6);
  connect = λ h s a. Status.success;
  opt_set = λ h s o v. Status.success;
  random_bytes = λ h n. (Status.success, 1, 2);
  sockaddr_info_get = λ h host port. (Status.success, some port);
  next_addrs = λ a. [];
  sockaddr_ip_get = λ h a. (Status.success, text "127.0.0.1");
  stat = λ h path. stat_answer path;
  dir_make = λ h path. Status.success;
  dir_remove = λ h path. Status.success;
  file_remove = λ h path. Status.success;
  file_rename = λ h from to. Status.success;
  file_open = λ h path flags. (Status.success, 9);
  file_read = λ h f n. read_answer (was_read h) n;
  file_write_full = λ h f b. (Status.success, length b);
  file_seek = λ h f n. Status.success;
  dir_open = λ h path. (Status.success, 8);
  dir_read = λ h d. (Status.code 1, info FileType.reg);
  time_now = λ h. 0;
  time_exp_lt = λ t. record { tm_year = 70; rest = 0 };
  strftime = λ n format t. format;
  thread_join = λ h t. Status.success;
}

pub runtime-CopiesStrings : (script : List Bytes) → CopiesStrings (runtime script)
runtime-CopiesStrings script = record { pstrdup_same = λ s. refl; pstrcat_append = λ s t. refl }

length-take_bound : (n : ℕ) (xs : Bytes) → length (take n xs) ≤ n
length-take_bound zero xs = omega arith
length-take_bound (suc n) [] = omega arith
length-take_bound (suc n) (x ∷ xs) = omega (arith, length-take_bound n xs)

read_once : (b : Bool) (n : ℕ) → length (read_answer b n).1 ≤ n
read_once true n = omega arith
read_once false n = length-take_bound n content

pub runtime-KeepsCounts : (script : List Bytes) → KeepsCounts (runtime script)
runtime-KeepsCounts script = record {
  send-le = λ h s b. omega arith;
  read-le = λ h f n. read_once (was_read h) n;
  recv-le = λ h s n. length-take_bound n (nth (recvs h) script);
}

length-take_le_length : (n : ℕ) (xs : Bytes) → length (take n xs) ≤ length xs
length-take_le_length zero xs = omega arith
length-take_le_length (suc n) [] = omega arith
length-take_le_length (suc n) (x ∷ xs) = omega (arith, length-take_le_length n xs)

pub runtime-IsFinite : (script : List Bytes) → IsFinite (runtime script) 9 6 file_left
runtime-IsFinite script = record {
  read-left = λ h n. read_left (was_read h) n;
  send-left = λ h b. omega arith;
}
  where
    read_left : (b : Bool) (n : ℕ) → 0 + length (read_answer b n).1 ≤ (if b then 0 else 3)
    read_left true n = omega arith
    read_left false n = omega (arith, length-take_le_length n content)
