-- ===== src/Tests/Sessions.antt =====
-- Sessions of a client, from the greeting on.
use lkl_lklftpd.Base.{
  ◌<◌, length, is_some, ◌||◌, ◌≡◌, ◌≢◌, refl, true, false, Option, none, some, List, [], ◌∷◌, ◌++◌,
  Bytes, text, arith,
}
use lkl_lklftpd.System.{
  Apr, State, Status, Call, Outcome, ret, halted, is_success, is_dir, and_then, Halt, sess_create,
}
use lkl_lklftpd.Cmdio.{lfd_cmdio_write, lfd_cmdio_get_cmd_and_arg, split_line, reply, cmd_to_str}
use lkl_lklftpd.Directory.{handle_bad_rnto, handle_rnfr, handle_cwd, handle_cdup}
use lkl_lklftpd.DataChannel.{lfd_get_remote_transfer_fd}
use lkl_lklftpd.Sound.Channel.{IsReady, Connected, lfd_get_remote_transfer_fd-Connected}
use lkl_lklftpd.Listing.{ListFlags, handle_list, list_request, list_dir, list_loop}
use lkl_lklftpd.Paths.{slash, same_string, get_abs_path, with_slash}
use lkl_lklftpd.Paths.Laws.{IsDirPath, no_slash}
use lkl_lklftpd.Worker.{
  no_pending, Verdict, goes_on, Command, dispatch, handle_command, protocol_pass,
  lfd_cmdio_cmd_equals, emit_greeting, lfd_worker_protocol_main_impl, initial, command_of,
}
use lkl_lklftpd.Worker.Renamed.{argument_path, Renames, rnfr-Renames}
use lkl_lklftpd.Worker.Rename.{waiting, HasPath}
use lkl_lklftpd.Worker.Refused.{Refused, rnto-Refused}
use lkl_lklftpd.Base.{inl}
use lkl_lklftpd.Directory.Moves.{EndsIn, handle_cwd-handle_cdup}
use lkl_lklftpd.Sound.{IsSound, Sound, Ends, EndsExit}
use lkl_lklftpd.Sound.Loop.{dispatch-IsSound, sess_create-IsSound}
use lkl_lklftpd.Sound.Listing.{handle_list_exits, handle_list-IsSound}
use lkl_lklftpd.Sound.Reached.{
  Reached, greeted, passed, Reached-IsSound, lfd_worker_protocol_main_impl-IsSound,
}
use lkl_lklftpd.Tests.Sample.{runtime, runtime-CopiesStrings}

-- The client asks for "CWD pub/", and then leaves.
abbrev script : List Bytes
script = text "CWD pub\r\n" ∷ text "QUIT\r\n" ∷ []

abbrev apr : Apr
apr = runtime script

abbrev greeted_state : State
greeted_state = record {
  sess = sess_create 7;
  history = Call.send 7 (text "220 Welcome to LklFtp Server.\r\r\n") ∷ [];
}

greeting : emit_greeting apr (initial 7) ≡ ret Status.success greeted_state
unfolding emit_greeting lfd_cmdio_write reply cmd_to_str sess_create text
greeting = refl

-- The working directory behind the first command.
abbrev cwd_of : Outcome Verdict → Bytes
cwd_of (ret v st) = st.sess.cwd_path
cwd_of (halted why st) = []

first_pass : cwd_of (protocol_pass apr 9 no_pending greeted_state) ≡ text "/pub/"
unfolding protocol_pass handle_command dispatch lfd_cmdio_get_cmd_and_arg split_line
    lfd_cmdio_cmd_equals handle_cwd lfd_cmdio_write reply cmd_to_str sess_create text command_of
    get_abs_path with_slash
first_pass = refl

abbrev state_of : Outcome Verdict → State
state_of (ret v st) = st
state_of (halted why st) = st

-- Where the first command has led.
first_pass-Reached :
    Reached apr 9 no_pending (state_of (protocol_pass apr 9 no_pending greeted_state))
unfolding protocol_pass handle_command dispatch lfd_cmdio_get_cmd_and_arg split_line
    lfd_cmdio_cmd_equals handle_cwd lfd_cmdio_write reply cmd_to_str sess_create text command_of
    get_abs_path with_slash
first_pass-Reached =
    passed no_pending no_pending greeted_state
      (state_of (protocol_pass apr 9 no_pending greeted_state)) (greeted 7 greeted_state greeting)
      refl

Reached-IsSound_example :
    IsSound (state_of (protocol_pass apr 9 no_pending greeted_state)).sess × HasPath no_pending
Reached-IsSound_example = Reached-IsSound apr (runtime-CopiesStrings script) 9 first_pass-Reached

lfd_worker_protocol_main_impl-IsSound_example :
    EndsExit Sound (lfd_worker_protocol_main_impl apr 5 9 (initial 7))
lfd_worker_protocol_main_impl-IsSound_example =
    lfd_worker_protocol_main_impl-IsSound apr (runtime-CopiesStrings script) 5 9 7

greeted-IsSound : IsSound greeted_state.sess
greeted-IsSound = sess_create-IsSound apr (runtime-CopiesStrings script) 7

user_other : Command.user ≢ Command.list
user_other = ground arith

dispatch-IsSound_example : Ends Sound (dispatch apr 9 no_pending Command.user greeted_state)
dispatch-IsSound_example =
    dispatch-IsSound apr (runtime-CopiesStrings script) 9 no_pending Command.user greeted_state
      greeted-IsSound user_other

-- A session in a directory, with a command line that has been read.
abbrev reading : Bytes → Option Bytes → Bytes → State
reading cmd arg cwd =
    let s = greeted_state.sess in
    record greeted_state {
      sess = record s { ftp_cmd_str = some cmd; ftp_arg_str = arg; cwd_path = cwd };
    }

abbrev entering : State
entering = reading (text "CWD") (some (text "src")) (text "/pub/")

pub_path : IsDirPath (text "/pub/")
unfolding text
pub_path = record { from_root = refl; to_slash = refl }

plain_src : no_slash (text "src") ≡ true
unfolding text
plain_src = refl

some_src : 0 < length (text "src")
unfolding text
some_src = omega arith

src_no_dot : same_string (text "src") (b'.' ∷ []) ≡ false
unfolding text
src_no_dot = refl

src_no_dots : same_string (text "src") (b'.' ∷ b'.' ∷ []) ≡ false
unfolding text
src_no_dots = refl

src_found :
    (is_success (apr.stat entering.history (text "/pub/" ++ (text "src" ++ (slash ∷ [])))).0 ≡ true)
    × (is_dir (apr.stat entering.history (text "/pub/" ++ (text "src" ++ (slash ∷ [])))).1.filetype
        ≡ true)
unfolding text
src_found = (refl, refl)

handle_cwd-handle_cdup_example :
    EndsIn (text "/pub/") (and_then (handle_cwd apr entering) (λ _. handle_cdup apr))
handle_cwd-handle_cdup_example =
    handle_cwd-handle_cdup apr (runtime-CopiesStrings script) entering (text "src") pub_path refl
      plain_src some_src src_no_dot src_no_dots src_found.0 src_found.1

abbrev listing : State
listing = reading (text "LIST") none (text "/")

listing-IsSound : IsSound listing.sess
unfolding text sess_create
listing-IsSound = record {
  steady = record {
    idle = refl;
    one_mode = refl;
    binary = refl;
    from_start = refl;
    in_dir = record { from_root = refl; to_slash = refl };
  };
  closed = refl;
}

abbrev listed_state : State
listed_state = record listing {
  history = Call.dir_close 8 ∷ Call.dir_read 8 ∷ Call.dir_open (text "/") ∷ listing.history;
}

abbrev list_flags : ListFlags
list_flags = record { flag_a = false; flag_l = true }

list_asked : list_request apr none (text "/") ≡ (some (text "/"), list_flags)
unfolding list_request text
list_asked = refl

list_read : list_dir apr 9 (text "/") list_flags listing ≡ ret (Status.success, []) listed_state
unfolding list_dir list_loop text
list_read = refl

none_active : (is_some listing.sess.pasv_listen_fd || is_some listing.sess.p_port_sockaddr) ≡ false
unfolding sess_create
none_active = refl

handle_list_exits_example : handle_list apr 9 listing ≡ halted Halt.process_exit listed_state
handle_list_exits_example =
    handle_list_exits apr 9 listing listed_state listing-IsSound none_active list_asked list_read

-- The same behind PASV.
abbrev passive : State
passive = let s = listing.sess in record listing { sess = record s { pasv_listen_fd = some 3 } }

passive-IsReady : IsReady passive.sess
unfolding text sess_create
passive-IsReady = record {
  sound = record {
    steady = record {
      idle = refl;
      one_mode = refl;
      binary = refl;
      from_start = refl;
      in_dir = record { from_root = refl; to_slash = refl };
    };
    closed = refl;
  };
  active = refl;
}

handle_list-IsSound_example : Ends Sound (handle_list apr 9 passive)
handle_list-IsSound_example = handle_list-IsSound apr 9 passive passive-IsReady

lfd_get_remote_transfer_fd-Connected_example :
    Ends Connected (lfd_get_remote_transfer_fd apr (text "Opening") passive)
lfd_get_remote_transfer_fd-Connected_example =
    lfd_get_remote_transfer_fd-Connected apr (text "Opening") passive passive-IsReady

-- RNFR and RNTO.
abbrev renaming : State
renaming = reading (text "RNFR") (some (text "/pub/")) (text "/")

abbrev renamed_to : State
renamed_to = reading (text "RNTO") (some (text "/b")) (text "/")

rnfr_found :
    handle_command apr 9 no_pending renaming
    ≡ ret
        (goes_on Status.success (waiting (text "/pub/")))
        (state_of (handle_command apr 9 no_pending renaming))
unfolding handle_command dispatch handle_rnfr lfd_cmdio_cmd_equals command_of lfd_cmdio_write
    get_abs_path text
rnfr_found = refl

is_rnto : lfd_cmdio_cmd_equals apr renamed_to.sess (text "RNTO") ≡ true
unfolding lfd_cmdio_cmd_equals text
is_rnto = refl

rnfr-Renames_example :
    Renames apr
      (argument_path apr renaming.sess)
      renamed_to
      (handle_command apr 9 (waiting (text "/pub/")) renamed_to)
rnfr-Renames_example =
    rnfr-Renames apr 9 no_pending (waiting (text "/pub/")) Status.success renaming
      (state_of (handle_command apr 9 no_pending renaming)) renamed_to (text "/b") refl rnfr_found
      refl is_rnto refl

-- A second RNFR is dropped, so that the RNTO behind it is refused.
rnfr_dropped :
    handle_command apr 9 (waiting (text "/pub/")) renaming
    ≡ ret
        (goes_on Status.success (record { rnfrto = false; temp_name = some (text "/pub/") }))
        (state_of (handle_command apr 9 (waiting (text "/pub/")) renaming))
unfolding handle_command handle_bad_rnto lfd_cmdio_cmd_equals lfd_cmdio_write text
rnfr_dropped = refl

rnto-Refused_example :
    Refused apr renamed_to
      (handle_command apr 9 (record { rnfrto = false; temp_name = some (text "/pub/") }) renamed_to)
rnto-Refused_example =
    rnto-Refused apr 9 (waiting (text "/pub/"))
      (record { rnfrto = false; temp_name = some (text "/pub/") }) Status.success renaming
      (state_of (handle_command apr 9 (waiting (text "/pub/")) renaming)) renamed_to (inl refl)
      rnfr_dropped is_rnto
