-- ===== src/Tests/Meeting.antt =====
-- An example of a client and a worker that meet: the frames of the worker's session are what the
-- client's reader takes.
use outboard.Prelude.{ℕ, codes, ◌≡◌, ◌≢◌, refl, List, [], ◌∷◌, ◌++◌, none, some, ok, All, arith}
use outboard.Tests.{crates, tool}
use outboard.Tests.Workers.{result}
use outboard.Tests.Tasks.{handler, host_frames, unused, first, finished_state, opens, reaches_end}
use outboard.Protocol.{HostFrame, PluginFrame, started, finished, request_id}
use outboard.Protocol.Framing.{eof}
use outboard.Worker.{Writer, send}
use outboard.Worker.Server.Laws.{IsEvent}
use outboard.Tokio.Server.{run_turns, step, handle, advance, post, write_next, own_hello}
use outboard.Tokio.Client.{
  Client, Invocation, invoke_async, Act, invokes, reads, act, acts, connected,
  AsyncInvocationTranscript, finish, poll_finish, read_frame,
}
use outboard.Tokio.Client.Finishing.{transcript}
use outboard.Tokio.Meeting.{finish-Reported}

abbrev writer : Writer ℕ (HostFrame crates)
writer = record { sent = []; fault = none }

abbrev first_call : Act crates ℕ
first_call = invokes (codes "x.y") (codes "run") []

abbrev now : Client crates ℕ
now = acts crates ℕ (first_call ∷ []) (connected crates ℕ writer)

abbrev called : Client crates ℕ
called = (invoke_async crates ℕ (codes "x.y") (codes "run") [] now).1

abbrev invocation : Invocation crates ℕ
invocation = record { id = 2; channel = 1; events = [] }

-- The reader takes what the worker wrote behind its hello.
abbrev reads_all : List (PluginFrame crates) → List (Act crates ℕ)
reads_all [] = []
reads_all (f ∷ fs) = reads (ok f) ∷ reads_all fs

abbrev behind_hello : List (PluginFrame crates) → List (PluginFrame crates)
behind_hello [] = []
behind_hello (f ∷ fs) = fs

abbrev taken : List (Act crates ℕ)
taken = reads_all (behind_hello finished_state.outbox.writer.sent)

abbrev got : AsyncInvocationTranscript crates ℕ
got = transcript crates ℕ 2 (started 2 ∷ finished 2 result ∷ []) result

hello_unnamed : All (λ f. request_id crates f ≢ some 2) (own_hello crates ℕ ℕ tool ∷ [])
unfolding request_id
hello_unnamed = ((λ h. cc (h)), tt)

finish-Reported_example :
    (events : List (PluginFrame crates)) × All (IsEvent crates ℕ 2) events
    × (got ≡ transcript crates ℕ 2 (started 2 ∷ events ++ finished 2 result ∷ []) result)
unfolding run_turns step handle advance post write_next send acts act invoke_async read_frame finish
    poll_finish request_id
finish-Reported_example =
    finish-Reported crates ℕ ℕ handler eof tool host_frames unused first finished_state
      (own_hello crates ℕ ℕ tool ∷ []) writer (first_call ∷ []) taken (codes "x.y") (codes "run") []
      now called invocation got refl opens reaches_end refl refl (ground arith) refl refl
      hello_unnamed refl
