-- ===== src/Tests/Transfers.antt =====
-- Transfers of files and of text.
use lkl_lklftpd.Base.{◌≡◌, refl, true, false, some, List, [], ◌∷◌, Bytes, text, arith, length}
use lkl_lklftpd.Ascii.{Buffer, bin_to_ascii, ascii_to_bin, ascii_to_bin_loop, bin_to_ascii_loop}
use lkl_lklftpd.Ascii.Spec.{lf_to_crlf, crlf_to_lf, converted}
use lkl_lklftpd.Ascii.Expand.{bin_to_ascii-expands}
use lkl_lklftpd.Ascii.InPlace.{bytes, ascii_to_bin-converted}
use lkl_lklftpd.Ascii.Stream.{concat, NonEmpty}
use lkl_lklftpd.System.{Apr, Status, State, Outcome, ret, halted, ℤ}
use lkl_lklftpd.Transfer.{
  lfd_socket_write_full, do_file_send_rwloop, do_file_recv, transfer_ret, TransferRet,
  write_full_loop, file_send_loop, file_recv_loop, received,
}
use lkl_lklftpd.Transfer.Write.{Wrote, lfd_socket_write_full-Wrote}
use lkl_lklftpd.Transfer.Files.{Sent, do_file_send_rwloop-Sent}
use lkl_lklftpd.Transfer.Ends.{IsReturned, do_file_send_rwloop-IsReturned}
use lkl_lklftpd.Transfer.Receive.{Got, do_file_recv-Got}
use lkl_lklftpd.Transfer.Truncated.{CutShort, ascii_round-CutShort}
use lkl_lklftpd.Transfer.RoundTrip.{recv_stream, recv_stream-concat, recv_stream-bin_to_ascii}
use lkl_lklftpd.FileCommands.{get_unique_filename}
use lkl_lklftpd.FileCommands.Unique.{
  IsFresh, IsFree, numbered, get_unique_filename-IsFresh, get_unique_filename-IsReturned,
}
use lkl_lklftpd.Worker.{initial}
use lkl_lklftpd.Tests.Sample.{runtime, runtime-KeepsCounts, runtime-IsFinite, file_left, content}

-- The peer sends a line whose end is cut in two.
abbrev script : List Bytes
script = (b'a' ∷ 13 ∷ []) ∷ (10 ∷ b'b' ∷ []) ∷ []

abbrev apr : Apr
apr = runtime script

abbrev connected : State
connected =
    let start = initial 7 in
    let s = start.sess in
    let d = s.data_conn in
    record start { sess = record s { data_conn = record d { data_sock = some 6 } } }

abbrev result_of : Outcome TransferRet → TransferRet
result_of (ret r st) = r
result_of (halted why st) = transfer_ret (ℤ.negsuc 9) 0

sent_three : result_of (do_file_send_rwloop apr 4 9 false connected) ≡ transfer_ret (ℤ.pos 0) 3
unfolding do_file_send_rwloop file_send_loop lfd_socket_write_full write_full_loop
sent_three = refl

received_four : result_of (do_file_recv apr 9 9 true connected) ≡ transfer_ret (ℤ.pos 0) 4
unfolding do_file_recv file_recv_loop ascii_to_bin ascii_to_bin_loop
received_four = refl

lfd_socket_write_full-Wrote_example :
    Wrote apr 6 content 3 0 connected (lfd_socket_write_full apr 6 content 3 connected)
lfd_socket_write_full-Wrote_example =
    lfd_socket_write_full-Wrote apr (runtime-KeepsCounts script) 6 content 3 connected (omega arith)
      (omega arith)

do_file_send_rwloop-Sent_example :
    Sent apr 9 6 0 connected (do_file_send_rwloop apr 4 9 false connected)
do_file_send_rwloop-Sent_example =
    do_file_send_rwloop-Sent apr 9 6 (runtime-KeepsCounts script) 4 connected refl

do_file_send_rwloop-IsReturned_example : IsReturned (do_file_send_rwloop apr 4 9 true connected)
do_file_send_rwloop-IsReturned_example =
    do_file_send_rwloop-IsReturned apr (runtime-KeepsCounts script) 9 6 file_left
      (runtime-IsFinite script) 4 true connected refl (omega arith)

do_file_recv-Got_example : Got apr 9 6 true false 0 connected (do_file_recv apr 9 9 true connected)
do_file_recv-Got_example = do_file_recv-Got apr 9 6 9 true connected refl

ascii_round-CutShort_example :
    CutShort apr 3 9 6 content 0 connected (file_send_loop apr 4 9 6 true 0 connected)
ascii_round-CutShort_example =
    ascii_round-CutShort apr (runtime-KeepsCounts script) 9 6 3 0 connected Status.success content
      refl refl refl

some_fragments : NonEmpty script
some_fragments = ground arith

recv_stream-concat_example : recv_stream apr false script ≡ crlf_to_lf (concat script)
recv_stream-concat_example = recv_stream-concat apr script some_fragments

cut_content : concat script ≡ (bin_to_ascii content).0
unfolding bin_to_ascii bin_to_ascii_loop
cut_content = refl

recv_stream-bin_to_ascii_example : recv_stream apr false script ≡ content
recv_stream-bin_to_ascii_example =
    recv_stream-bin_to_ascii apr content script cut_content some_fragments

bin_to_ascii-expands_example :
    ((bin_to_ascii content).0 ≡ lf_to_crlf content)
    × ((bin_to_ascii content).1 ≡ length (bin_to_ascii content).0)
bin_to_ascii-expands_example = bin_to_ascii-expands content

abbrev line : Buffer
line = received (b'a' ∷ 13 ∷ 10 ∷ [])

ascii_to_bin-converted_example :
    let (buf', r) = ascii_to_bin line 3 true in
    (bytes buf' r.p_buf r.stored ≡ (converted true (bytes line 1 3)).0)
    × (r.last_was_cr ≡ (converted true (bytes line 1 3)).1)
ascii_to_bin-converted_example = ascii_to_bin-converted line 3 true

get_unique_filename-IsFresh_example : IsFresh apr (get_unique_filename apr 3 (text "/") connected)
get_unique_filename-IsFresh_example = get_unique_filename-IsFresh apr 3 (text "/") connected

numbered-IsFree : IsFree apr (numbered apr (text "/") 2)
unfolding text
numbered-IsFree h = refl

get_unique_filename-IsReturned_example : IsReturned (get_unique_filename apr 3 (text "/") connected)
get_unique_filename-IsReturned_example =
    get_unique_filename-IsReturned apr (text "/") 2 3 connected numbered-IsFree (omega arith)
      (omega arith) (omega arith)
