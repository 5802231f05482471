-- ===== src/Transfer/RoundTrip.antt =====
-- The conversions of utils.c as the transfers call them, over a whole file.
use lkl_lklftpd.Base.{
  ◌≡◌, refl, Bool, true, false, List, [], ◌∷◌, ◌++◌, Bytes, if◌then◌else◌, ◌∙◌, ap,
}
use lkl_lklftpd.Ascii.{bin_to_ascii}
use lkl_lklftpd.Ascii.Spec.{crlf_to_lf, converted}
use lkl_lklftpd.Ascii.Expand.{bin_to_ascii-expands}
use lkl_lklftpd.Ascii.Stream.{
  convert_all, concat, NonEmpty, convert_all-concat, crlf_to_lf-lf_to_crlf,
}
use lkl_lklftpd.System.{Apr}
use lkl_lklftpd.Transfer.{recv_convert}
use lkl_lklftpd.Transfer.Receive.{recv_convert-written}

module _ (apr : Apr) where
  -- What the upload loop writes for a list of fragments, with a last call for a '\r' that is held back.
  abbrev pub recv_stream : Bool → List Bytes → Bytes
  recv_stream prev_cr [] = if prev_cr then (recv_convert apr true [] true).0 else []
  recv_stream prev_cr (got ∷ rest) =
      let (out, last) = recv_convert apr true got prev_cr in out ++ recv_stream last rest

  recv_stream-convert_all :
      (prev_cr : Bool) (chunks : List Bytes)
      → recv_stream prev_cr chunks ≡ convert_all prev_cr chunks
  recv_stream-convert_all true [] = ap (λ w. w.0) (recv_convert-written apr true [] true)
  recv_stream-convert_all false [] = refl
  recv_stream-convert_all prev_cr (got ∷ rest) =
      ap (λ w. w.0 ++ recv_stream w.1 rest) (recv_convert-written apr true got prev_cr)
      ∙ ap (λ t. (converted prev_cr got).0 ++ t)
          (recv_stream-convert_all (converted prev_cr got).1 rest)

  -- However the network cuts an upload into fragments, none of them empty, the in-place conversion
  -- of each in turn gives the whole text with every "\r\n" turned into '\n'.
  pub recv_stream-concat :
      (chunks : List Bytes)
      → NonEmpty chunks
      → recv_stream false chunks ≡ crlf_to_lf (concat chunks)
  recv_stream-concat chunks h = recv_stream-convert_all false chunks ∙ convert_all-concat chunks h

  -- A text that is converted for sending, cut into any fragments that are not empty, and converted
  -- as it is received, is the same text.
  pub recv_stream-bin_to_ascii :
      (text : Bytes) (chunks : List Bytes)
      → concat chunks ≡ (bin_to_ascii text).0
      → NonEmpty chunks
      → recv_stream false chunks ≡ text
  recv_stream-bin_to_ascii text chunks cut h =
      recv_stream-concat chunks h
      ∙ ap crlf_to_lf (cut ∙ (bin_to_ascii-expands text).0)
      ∙ crlf_to_lf-lf_to_crlf text
