-- ===== src/System/Monad.antt =====
-- Runs of the daemon's functions: a function of the session and of the calls made so far, which
-- returns, or ends the thread or the process.
use lkl_lklftpd.Base.{◌∷◌}
use lkl_lklftpd.System.Types.{Call, History}
use lkl_lklftpd.System.Session.{Sess, DataSess}

-- Why a run does not return: `bug` calls exit, apr_thread_exit ends the calling thread, NULL is
-- followed, a buffer is read past its end, a recursion has no end, a number is divided by 0, or the fuel of a loop is used up.
pub data Halt : Type 0 where
  process_exit thread_ended null_deref out_of_bounds : Halt
  stack_overflow division_by_zero out_of_fuel : Halt

pub record State : Type 0 where
  pub sess : Sess
  pub history : History

pub data Outcome (A : Type 0) : Type 0 where
  ret : A → State → Outcome A
  halted : Halt → State → Outcome A

abbrev pub Run : Type 0 → Type 0
Run A = State → Outcome A

abbrev pub ⊤ : Type 0
⊤ = Unit {0}

module _ {A : Type 0} where
  abbrev pub pure : A → Run A
  pure a s = ret a s

  abbrev pub halt : Halt → Run A
  halt why s = halted why s

  abbrev pub and_then : {B : Type 0} → Outcome A → (A → Run B) → Outcome B
  and_then (ret a s) f = f a s
  and_then (halted why s) f = halted why s

  -- A call of the runtime, recorded.
  abbrev pub perform : Call → (History → A) → Run A
  perform c answer s = ret (answer s.history) (record s { history = c ∷ s.history })

infixl 5 ◌>>=◌ ◌>>◌
abbrev pub ◌>>=◌ : {A B : Type 0} → Run A → (A → Run B) → Run B
◌>>=◌ m f s = and_then (m s) f

abbrev pub ◌>>◌ : {A B : Type 0} → Run A → Run B → Run B
m >> k = m >>= λ _. k

abbrev pub get_sess : Run Sess
get_sess s = ret s.sess s

abbrev pub modify : (Sess → Sess) → Run ⊤
modify f s = ret tt (record s { sess = f s.sess })

-- An assignment to a field of `sess->data_conn`.
abbrev pub modify_data : (DataSess → DataSess) → Run ⊤
modify_data f s =
    let x = s.sess in ret tt (record s { sess = record x { data_conn = f s.sess.data_conn } })
