-- ===== src/Ftpcodes.antt =====
-- The reply codes of ftpcodes.h that the daemon sends.
use lkl_lklftpd.Base.{ℕ}

abbrev pub ftp_dataconn : ℕ
ftp_dataconn = 150

abbrev pub ftp_typeok : ℕ
ftp_typeok = 200

abbrev pub ftp_portok : ℕ
ftp_portok = 200

abbrev pub ftp_umaskok : ℕ
ftp_umaskok = 200

abbrev pub ftp_chmodok : ℕ
ftp_chmodok = 200

abbrev pub ftp_allook : ℕ
ftp_allook = 202

abbrev pub ftp_feat : ℕ
ftp_feat = 211

abbrev pub ftp_sitehelp : ℕ
ftp_sitehelp = 214

abbrev pub ftp_systok : ℕ
ftp_systok = 215

abbrev pub ftp_greet : ℕ
ftp_greet = 220

abbrev pub ftp_goodbye : ℕ
ftp_goodbye = 221

abbrev pub ftp_abor_noconn : ℕ
ftp_abor_noconn = 225

abbrev pub ftp_transferok : ℕ
ftp_transferok = 226

abbrev pub ftp_aborok : ℕ
ftp_aborok = 226

abbrev pub ftp_pasvok : ℕ
ftp_pasvok = 227

abbrev pub ftp_loginok : ℕ
ftp_loginok = 230

abbrev pub ftp_cwdok : ℕ
ftp_cwdok = 250

abbrev pub ftp_rmdirok : ℕ
ftp_rmdirok = 250

abbrev pub ftp_deleok : ℕ
ftp_deleok = 250

abbrev pub ftp_renameok : ℕ
ftp_renameok = 250

abbrev pub ftp_pwdok : ℕ
ftp_pwdok = 257

abbrev pub ftp_mkdirok : ℕ
ftp_mkdirok = 257

abbrev pub ftp_rnfrok : ℕ
ftp_rnfrok = 350

abbrev pub ftp_badsendconn : ℕ
ftp_badsendconn = 425

abbrev pub ftp_badsendnet : ℕ
ftp_badsendnet = 426

abbrev pub ftp_badsendfile : ℕ
ftp_badsendfile = 451

abbrev pub ftp_badcmd : ℕ
ftp_badcmd = 500

abbrev pub ftp_badopts : ℕ
ftp_badopts = 501

abbrev pub ftp_commandnotimpl : ℕ
ftp_commandnotimpl = 502

abbrev pub ftp_badprot : ℕ
ftp_badprot = 503

abbrev pub ftp_filefail : ℕ
ftp_filefail = 550

abbrev pub ftp_noperm : ℕ
ftp_noperm = 550

abbrev pub ftp_uploadfail : ℕ
ftp_uploadfail = 553

abbrev pub ftp_more : ℕ
ftp_more = 100000
