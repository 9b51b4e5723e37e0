-- ===== src/Tests/Tasks.antt =====
-- Examples for the asynchronous worker: two requests that run at the same time, a clone of a context
-- that outlives its invocation, and a panic.
use outboard.Prelude.{
  ℕ, codes, ◌≡◌, ◌≢◌, refl, Bool, true, false, ◌||◌, ◌⊎◌, List, [], ◌∷◌, ◌++◌, Option, none, some,
  Result, ok, err, All, ◌==◌, nat_eq,
}
use outboard.Tests.{crates, tool}
use outboard.Tests.Workers.{greeting, result}
use outboard.Protocol.{RequestId, HostFrame, PluginFrame, InvokeRequest, invoke, cancel, shutdown}
use outboard.Protocol.Framing.{eof}
use outboard.Worker.{Writer, send}
use outboard.Worker.Client.{request}
use outboard.Tokio.{entry_of}
use outboard.Tokio.Server.{
  AsyncWorkerHandler, Task, returned, panicked, progressed, parked, shared, Job, running, Server,
  Turn, main, job, writing, outside, clone_progress, clone_drop, step, run_turns, Reach, start,
  open_session, opened, own_hello, admit_hello, check_requested, handle, advance, post, write_next,
  ended, is_cancelled, already_active, sends, WorkerServerError,
}
use outboard.Tokio.Server.Ownership.{Apart, Owns}
use outboard.Tokio.Server.Talk.{Stand, unheard, active, Talk}
use outboard.Tokio.Server.Close.{Acked}
use outboard.Tokio.Server.Running.{state_after, state_after-Reach}
use outboard.Tokio.Server.Outcome.{tasks-Apart, sent-Talk, ended-Acked}
use outboard.Tokio.Server.Cancelling.{then_cancelled, cancel-reaches}
use outboard.Tokio.Server.Progress.{CanStep, AwaitsClones, step-CanStep}
use outboard.Tokio.Server.Panic.{panicked-refused}

-- Request 1 reports progress and waits to be cancelled; request 2 gives a clone of its context away
-- and returns; request 3 panics.
abbrev pub handler : AsyncWorkerHandler crates ℕ ℕ
handler = record {
  invoke = λ r.
      if_id r.id 1 (progressed none none (λ sent. parked (returned (ok result))))
        (if_id r.id 3 panicked (shared (returned (ok result))));
  cancel = λ id x. ok tt;
}
  where
    if_id : ℕ → ℕ → Task crates ℕ ℕ → Task crates ℕ ℕ → Task crates ℕ ℕ
    if_id a b x y = outboard.Prelude.if◌then◌else◌ (a == b) x y

abbrev call : RequestId → InvokeRequest crates
call id = request crates ℕ id (codes "x.y") (codes "run") []

abbrev later_frames : List (HostFrame crates)
later_frames = invoke (call 1) ∷ invoke (call 2) ∷ invoke (call 3) ∷ shutdown ∷ []

abbrev pub host_frames : List (HostFrame crates)
host_frames = HostFrame.hello greeting ∷ later_frames

abbrev pub unused : Writer ℕ (PluginFrame crates)
unused = record { sent = []; fault = none }

abbrev pub first : Server crates ℕ ℕ
first =
    opened crates ℕ ℕ later_frames (record { sent = own_hello crates ℕ ℕ tool ∷ []; fault = none })

pub opens : open_session crates ℕ ℕ eof tool host_frames unused ≡ ok first
unfolding open_session admit_hello check_requested send
opens = refl

abbrev Turns : Type 0
Turns = List (Turn crates ℕ ℕ handler eof)

abbrev after : Turns → Server crates ℕ ℕ
after ts = state_after crates ℕ ℕ handler eof first ts

-- Two requests are read; the second returns while the first waits.
abbrev both : Turns
both = main 0 ∷ main 0 ∷ job 1 0 ∷ job 0 0 ∷ job 0 0 ∷ writing ∷ writing ∷ []

abbrev two_running : Server crates ℕ ℕ
two_running = after both

reaches_both : Reach crates ℕ ℕ handler eof first two_running
reaches_both = state_after-Reach crates ℕ ℕ handler eof first both

tasks-Apart_example :
    Apart crates ℕ ℕ two_running.tasks × All (Owns crates ℕ ℕ two_running.pending) two_running.tasks
tasks-Apart_example =
    tasks-Apart crates ℕ ℕ handler eof tool host_frames unused first two_running refl opens
      reaches_both

sent-Talk_example : (b : Stand) × Talk crates ℕ 2 unheard two_running.outbox.writer.sent b
sent-Talk_example =
    sent-Talk crates ℕ ℕ handler eof tool host_frames unused first two_running refl opens
      reaches_both 2

cancel-reaches_example :
    All
      (λ j.
        then_cancelled crates ℕ ℕ handler eof (cancel 1) two_running j
        ≡ (j.id == 1 || is_cancelled crates ℕ ℕ j.token two_running.cancelled))
      two_running.tasks
    × All
        (λ j. then_cancelled crates ℕ ℕ handler eof shutdown two_running j ≡ true)
        two_running.tasks
cancel-reaches_example =
    cancel-reaches crates ℕ ℕ handler eof tool host_frames unused first two_running opens
      reaches_both 1

-- Then the third request panics, the shutdown cancels the first, and all is joined.
abbrev third : Turns
third = both ++ main 0 ∷ []

abbrev until_ended : Turns
until_ended =
    third
    ++ job 0 0
      ∷ main 0
      ∷ job 0 0
      ∷ job 0 0
      ∷ job 0 0
      ∷ job 0 0
      ∷ main 0
      ∷ outside 0 (clone_progress none none)
      ∷ outside 0 clone_drop
      ∷ writing
      ∷ writing
      ∷ writing
      ∷ writing
      ∷ writing
      ∷ writing
      ∷ main 0
      ∷ []

abbrev pub finished_state : Server crates ℕ ℕ
finished_state = after until_ended

pub reaches_end : Reach crates ℕ ℕ handler eof first finished_state
reaches_end = state_after-Reach crates ℕ ℕ handler eof first until_ended

ended-Acked_example :
    (finished_state.tasks ≡ [])
    × (finished_state.clones ≡ [])
    × Acked crates ℕ ℕ finished_state.outbox.writer.sent
    × ((i : RequestId)
        → entry_of i finished_state.pending ≡ none
        → (b : Stand) × Talk crates ℕ i unheard finished_state.outbox.writer.sent b × (b ≢ active))
unfolding run_turns step handle advance post write_next send
ended-Acked_example =
    ended-Acked crates ℕ ℕ handler eof tool host_frames unused first finished_state refl opens
      reaches_end refl

-- The shutdown is read while the first request waits to be cancelled.
abbrev while_joining : Turns
while_joining = third ++ main 0 ∷ []

abbrev joining_state : Server crates ℕ ℕ
joining_state = after while_joining

reaches_joining : Reach crates ℕ ℕ handler eof first joining_state
reaches_joining = state_after-Reach crates ℕ ℕ handler eof first while_joining

not_ended : (r : Result (Unit {0}) (WorkerServerError crates ℕ ℕ)) → joining_state.phase ≢ ended r
unfolding run_turns step handle advance post write_next send
not_ended r e = cc (e)

step-CanStep_example :
    CanStep crates ℕ ℕ handler eof joining_state ⊎ AwaitsClones crates ℕ ℕ handler eof joining_state
step-CanStep_example =
    step-CanStep crates ℕ ℕ handler eof tool host_frames unused first joining_state opens
      reaches_joining not_ended 0

abbrev panicking : Job crates ℕ ℕ
panicking = record { id = 3; token = 2; stage = running panicked }

abbrev third_state : Server crates ℕ ℕ
third_state = after third

abbrev broken_state : Server crates ℕ ℕ
broken_state = after (third ++ job 0 0 ∷ [])

reaches_third : Reach crates ℕ ℕ handler eof first third_state
reaches_third = state_after-Reach crates ℕ ℕ handler eof first third

panics : step crates ℕ ℕ handler eof third_state (job 0 0) ≡ some broken_state
unfolding run_turns step handle advance post write_next send
panics = refl

panicked-refused_example :
    All (λ k. k.id ≢ 3) broken_state.tasks
    × (handle crates ℕ ℕ handler eof (invoke (call 3)) broken_state
        ≡ sends crates ℕ ℕ (already_active crates ℕ ℕ 3) broken_state)
unfolding run_turns step handle advance post write_next send
panicked-refused_example =
    panicked-refused crates ℕ ℕ handler eof tool host_frames unused first third_state broken_state
      broken_state opens reaches_third 0 [] panicking _ 0 refl refl panics start (call 3) refl
