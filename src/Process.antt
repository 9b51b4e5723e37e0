-- ===== src/Process.antt =====
-- crates/outboard-core/src/process.rs: a run of a plugin's executable whose output is captured.
-- The two readers and the writer are threads that drain the pipes from the start, so what they
-- hold when they are joined is given with the child. A thread that never ends is not modelled.
pub mod Waiting
use outboard.Prelude.{
  ℕ, zero, suc, Text, ◌≡◌, Bool, true, false, List, [], Option, none, some, Result, ok, err, ◌>>=◌,
  ◌>>◌, map_err, leb, if◌then◌else◌,
}
use outboard.FileSystem.{ErrorKind}

-- ExitStatus is the exit code.
pub record CapturedOutput : Type 0 where
  pub status : ℕ
  pub stdout : Text
  pub stderr : Text

pub data ProcessError : Type 0 where
  spawn : ErrorKind → ProcessError
  wait : ErrorKind → ProcessError
  timeout : (duration : ℕ) (stdout stderr : Text) → ProcessError
  reader_panicked : ProcessError
  stdin : ErrorKind → ProcessError

-- ProcessError::captured_stdout
unfoldable pub captured_stdout : ProcessError → Option Text
captured_stdout (timeout duration out errors) = some out
captured_stdout _ = none

-- ProcessError::captured_stderr
unfoldable pub captured_stderr : ProcessError → Option Text
captured_stderr (timeout duration out errors) = some errors
captured_stderr _ = none

-- What the join of a thread gives: `none` where the thread panicked.
abbrev pub Joined : Type 0 → Type 0
Joined A = Option (Result A ErrorKind)

-- A child as the parent sees it: the answer of the n-th `try_wait`, the milliseconds since
-- `started` at that call, and what its threads give.
pub record Child : Type 0 where
  pub try_wait : ℕ → Result (Option ℕ) ErrorKind
  pub elapsed : ℕ → ℕ
  pub stdin_thread : Joined (Unit {0})
  pub stdout_thread : Joined Text
  pub stderr_thread : Joined Text

-- `join().map_err(ReaderPanicked)?.map_err(e)?`
abbrev pub joined : {A : Type 0} → (ErrorKind → ProcessError) → Joined A → Result A ProcessError
joined e none = err reader_panicked
joined e (some r) = map_err e r

-- How the wait ended: with a status, past the limit, or not within the fuel.
pub data Ending : Type 0 where
  exited : ℕ → Ending
  expired running : Ending

module _ (child : Child) (limit : ℕ) where
  -- The loop of `run_capture` from its n-th round.
  unfoldable pub wait_loop : ℕ → ℕ → Result Ending ProcessError
  wait_loop zero n = ok running
  wait_loop (suc fuel) n =
      let rest = wait_loop fuel (suc n) in
      elim (child.try_wait n) [
        | err e ↦ err (wait e)
        | ok (some status) ↦ ok (exited status)
        | ok none ↦ if leb limit (child.elapsed n) then ok expired else rest
      ]

  abbrev pub collect_timeout : Result CapturedOutput ProcessError
  collect_timeout = do
    out ← joined wait child.stdout_thread
    errors ← joined wait child.stderr_thread
    err (timeout limit out errors)

  abbrev pub join_stdin : Option Text → Result (Unit {0}) ProcessError
  join_stdin none = ok tt
  join_stdin (some bytes) = joined stdin child.stdin_thread

  abbrev pub collect_output : Option Text → ℕ → Result CapturedOutput ProcessError
  collect_output input status = do
    join_stdin input
    out ← joined wait child.stdout_thread
    errors ← joined wait child.stderr_thread
    ok (record { status = status; stdout = out; stderr = errors })

  -- `none` where the fuel runs out.
  abbrev pub finish : Option Text → Ending → Option (Result CapturedOutput ProcessError)
  finish input (exited status) = some (collect_output input status)
  finish input expired = some collect_timeout
  finish input running = none

  abbrev pub after :
      Option Text → Result Ending ProcessError → Option (Result CapturedOutput ProcessError)
  after input (err e) = some (err e)
  after input (ok ending) = finish input ending

-- `run_capture`: `child` is what `spawn` gives.
unfoldable pub run_capture :
    ℕ → Result Child ErrorKind → Option Text → ℕ → Option (Result CapturedOutput ProcessError)
run_capture fuel (err e) input limit = some (err (spawn e))
run_capture fuel (ok child) input limit = after child limit input (wait_loop child limit fuel 0)

abbrev pub given :
    ℕ → Option (Result CapturedOutput ProcessError) → Result CapturedOutput ProcessError
given limit none = err (timeout limit [] [])
given limit (some r) = r

-- `run_capture_args`, with `spawned` what the start of the program with its arguments gives. The
-- fuel is one round for each millisecond of the limit and one more.
unfoldable pub run_capture_args :
    (Text → List Text → Result Child ErrorKind)
    → Text
    → List Text
    → Option Text
    → ℕ
    → Result CapturedOutput ProcessError
run_capture_args spawned program args input limit =
    given limit (run_capture (suc limit) (spawned program args) input limit)
