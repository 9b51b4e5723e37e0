-- ===== src/Process/Waiting.antt =====
-- How long `run_capture` waits, and what it answers.
use outboard.Prelude.{
  ℕ, zero, suc, ◌≡◌, ◌≢◌, ◌≤◌, ◌+◌, ◌*◌, Option, none, some, Text, Result, ok, err, arith, List,
  refl, Result-cases, inl, inr, Bool-cases, leb,
}
use outboard.FileSystem.{ErrorKind}
use outboard.Process.{
  wait, Child, CapturedOutput, ProcessError, run_capture, run_capture_args, wait_loop, running,
  exited, expired, timeout, collect_output, collect_timeout,
}

module _ (child : Child) (limit : ℕ) where
  wait_loop-ends :
      (fuel n : ℕ)
      → ((k : ℕ) → 5 * k ≤ child.elapsed k)
      → limit ≤ 5 * (fuel + n)
      → wait_loop child limit (suc fuel) n ≢ ok running
  unfolding wait_loop
  wait_loop-ends zero n slow enough = ground (arith, slow n)
  wait_loop-ends (suc fuel) n slow enough = ground (arith, wait_loop-ends fuel (suc n))

  wait_loop-expired :
      (fuel n : ℕ)
      → wait_loop child limit fuel n ≡ ok expired
      → (k : ℕ) × (child.try_wait k ≡ ok none) × (limit ≤ child.elapsed k)
  unfolding wait_loop
  wait_loop-expired zero n h = cc
  wait_loop-expired (suc fuel) n h = elim (Result-cases (child.try_wait n)) [
    | inr (e, p) ↦ ground arith
    | inl (some status, p) ↦ ground arith
    | inl (none, p) ↦ elim (Bool-cases (leb limit (child.elapsed n))) [
      | inl q ↦ (n, p, ground arith)
      | inr q ↦ wait_loop-expired fuel (suc n) (ground arith)
    ]
  ]

  wait_loop-exited :
      (fuel n : ℕ) {status : ℕ}
      → wait_loop child limit fuel n ≡ ok (exited status)
      → (k : ℕ) × (child.try_wait k ≡ ok (some status))
  unfolding wait_loop
  wait_loop-exited zero n h = cc
  wait_loop-exited (suc fuel) n {status} h = elim (Result-cases (child.try_wait n)) [
    | inr (e, p) ↦ ground arith
    | inl (some actual, p) ↦ (n, ground arith)
    | inl (none, p) ↦ wait_loop-exited fuel (suc n) (ground arith)
  ]

  wait_loop-err :
      (fuel n : ℕ) {e : ProcessError}
      → wait_loop child limit fuel n ≡ err e
      → (error : ErrorKind) × (e ≡ wait error)
  unfolding wait_loop
  wait_loop-err zero n h = cc
  wait_loop-err (suc fuel) n {e} h = elim (Result-cases (child.try_wait n)) [
    | inr (error, p) ↦ (error, ground arith)
    | inl (some status, p) ↦ ground arith
    | inl (none, p) ↦ elim (Bool-cases (leb limit (child.elapsed n))) [
      | inl q ↦ ground arith
      | inr q ↦ wait_loop-err fuel (suc n) (ground arith)
    ]
  ]

  collect_timeout-parts :
      {duration : ℕ} {out errors : Text}
      → collect_timeout child limit ≡ err (timeout duration out errors)
      → (duration ≡ limit)
        × (child.stdout_thread ≡ some (ok out))
        × (child.stderr_thread ≡ some (ok errors))
  collect_timeout-parts h = ground arith

  collect_output-ok :
      (input : Option Text) (status : ℕ) {output : CapturedOutput}
      → collect_output child limit input status ≡ ok output
      → (output.status ≡ status)
        × (child.stdout_thread ≡ some (ok output.stdout))
        × (child.stderr_thread ≡ some (ok output.stderr))
        × ((bytes : Text) → input ≡ some bytes → child.stdin_thread ≡ some (ok tt))
  collect_output-ok input status h = ground arith

  collect_output-no_timeout :
      (input : Option Text) (status : ℕ) {duration : ℕ} {out errors : Text}
      → collect_output child limit input status ≢ err (timeout duration out errors)
  collect_output-no_timeout none status h = ground arith
  collect_output-no_timeout (some bytes) status h = ground arith

  collect_timeout-no_output : {output : CapturedOutput} → collect_timeout child limit ≢ ok output
  collect_timeout-no_output h = ground arith

-- A run gives a result with fuel for one round in every 5 milliseconds of the limit and one more,
-- when the n-th round comes 5 milliseconds after the one before it, or later.
pub run_capture-ends :
    (fuel : ℕ) (child : Child) (input : Option Text) (limit : ℕ)
    → ((k : ℕ) → 5 * k ≤ child.elapsed k)
    → limit ≤ 5 * fuel
    → (r : Result CapturedOutput ProcessError) × (run_capture (suc fuel) (ok child) input limit
        ≡ some r)
unfolding run_capture
run_capture-ends fuel child input limit slow enough =
    let ends = wait_loop-ends child limit fuel 0 slow (ground arith) in
    elim (Result-cases (wait_loop child limit (suc fuel) 0)) [
      | inr (e, p) ↦ (err (e), ground arith)
      | inl (exited status, p) ↦ (collect_output child limit input status, ground arith)
      | inl (expired, p) ↦ (collect_timeout child limit, ground arith)
      | inl (running, p) ↦ ground arith
    ]

-- A timeout is reported only of a child that was still running when the limit was reached, with
-- the limit and what both readers had read.
pub run_capture-timeout :
    (fuel : ℕ) (child : Child) (input : Option Text) (limit : ℕ) {duration : ℕ} {out errors : Text}
    → run_capture fuel (ok child) input limit ≡ some (err (timeout duration out errors))
    → (duration ≡ limit)
      × (child.stdout_thread ≡ some (ok out))
      × (child.stderr_thread ≡ some (ok errors))
      × ((k : ℕ) × (child.try_wait k ≡ ok none) × (limit ≤ child.elapsed k))
unfolding run_capture
run_capture-timeout fuel child input limit {duration} {out} {errors} h =
    elim (Result-cases (wait_loop child limit fuel 0)) [
      | inr (e, p) ↦ let (error, q) = wait_loop-err child limit fuel 0 p in ground arith
      | inl (running, p) ↦ ground arith
      | inl (expired, p) ↦
          let parts = collect_timeout-parts child limit {duration = duration} (ground arith) in
          (parts.0, parts.1, parts.2, wait_loop-expired child limit fuel 0 p)
      | inl (exited status, p) ↦
          let no =
            collect_output-no_timeout child limit input status {duration = duration} {out = out}
              {errors = errors} (ground arith) in
          ground arith
    ]

-- Output is reported only of a child that exited: its status, what both readers read, and, where
-- there is input, after all of it was written.
pub run_capture-ok :
    (fuel : ℕ) (child : Child) (input : Option Text) (limit : ℕ) {output : CapturedOutput}
    → run_capture fuel (ok child) input limit ≡ some (ok output)
    → ((k : ℕ) × (child.try_wait k ≡ ok (some output.status)))
      × (child.stdout_thread ≡ some (ok output.stdout))
      × (child.stderr_thread ≡ some (ok output.stderr))
      × ((bytes : Text) → input ≡ some bytes → child.stdin_thread ≡ some (ok tt))
unfolding run_capture
run_capture-ok fuel child input limit {output} h =
    elim (Result-cases (wait_loop child limit fuel 0)) [
      | inr (e, p) ↦ ground arith
      | inl (running, p) ↦ ground arith
      | inl (expired, p) ↦
          let no = collect_timeout-no_output child limit {output = output} (ground arith) in
          ground arith
      | inl (exited status, p) ↦
          let parts = collect_output-ok child limit input status {output = output} (ground arith) in
          let (k, seen) = wait_loop-exited child limit fuel 0 p in
          ((k, ground arith), parts.1, parts.2, parts.3)
    ]

-- The fuel of `run_capture_args` is enough, when each round of the loop takes 5 milliseconds or
-- more: its answer is the answer of `run_capture`.
pub run_capture_args-run_capture :
    (spawned : Text → List Text → Result Child ErrorKind) (program : Text) (args : List Text)
    (input : Option Text) (limit : ℕ)
    → ((child : Child) (k : ℕ) → spawned program args ≡ ok child → 5 * k ≤ child.elapsed k)
    → run_capture (suc limit) (spawned program args) input limit
      ≡ some (run_capture_args spawned program args input limit)
unfolding run_capture_args run_capture
run_capture_args-run_capture spawned program args input limit slow =
    elim (Result-cases (spawned program args)) [
      | inr (e, p) ↦ rw (p) refl
      | inl (child, p) ↦
          let (r, e) =
            run_capture-ends limit child input limit (λ k. slow child k p) (ground arith) in
          ground arith
    ]
