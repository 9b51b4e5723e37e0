-- ===== src/Tests/Calling.antt =====
-- Examples for the asynchronous client.
use outboard.Prelude.{
  ℕ, codes, ◌≡◌, ◌↔◌, refl, true, List, [], ◌∷◌, none, some, Result, ok, err, arith,
}
use outboard.FileSystem.{ErrorKind}
use outboard.Tests.{crates}
use outboard.Tests.Workers.{result, plugin, hello}
use outboard.Protocol.{HostFrame, PluginFrame, started, progress, finished, pong}
use outboard.Protocol.Framing.{eof}
use outboard.Worker.{Writer, send}
use outboard.Worker.Client.Spawn.{spawn_worker}
use outboard.Tokio.Client.{
  Client, Invocation, invoke_async, read_frame, Act, invokes, reads, act, acts, connected,
  AsyncInvocationTranscript, done, pending_with, finish,
}
use outboard.Tokio.Client.Routing.{for_request, read_among}
use outboard.Tokio.Client.Finishing.{Is}
use outboard.Tokio.Client.Invoking.{finish-transcript}
use outboard.Tokio.Client.Silence.{finish-waits}
use outboard.Tokio.Client.Control.{Pipes, spawn_async, spawn_agrees, is_ok, as_sync}

abbrev writer : Writer ℕ (HostFrame crates)
writer = record { sent = []; fault = none }

abbrev other_call : Act crates ℕ
other_call = invokes (codes "x.y") (codes "other") []

abbrev now : Client crates ℕ
now = acts crates ℕ (other_call ∷ []) (connected crates ℕ writer)

abbrev called : Client crates ℕ
called = (invoke_async crates ℕ (codes "x.y") (codes "run") [] now).1

abbrev invocation : Invocation crates ℕ
invocation = record { id = 2; channel = 1; events = [] }

abbrev mixed : List (Act crates ℕ)
mixed =
    reads (ok (started 1))
    ∷ reads (ok (started 2))
    ∷ other_call
    ∷ reads (ok (pong 7))
    ∷ reads (ok (progress 1 none none))
    ∷ reads (ok (finished 2 result))
    ∷ reads (ok (finished 1 result))
    ∷ []

abbrev transcript : AsyncInvocationTranscript crates ℕ
transcript = record { id = 2; events = started 2 ∷ finished 2 result ∷ []; result = result }

finish-transcript_example :
    (finish crates ℕ invocation (acts crates ℕ mixed called) ≡ done (ok transcript))
    ↔ Is crates ℕ 2 transcript [] (for_request crates ℕ 2 (read_among crates ℕ true mixed))
unfolding acts act invoke_async send
finish-transcript_example =
    finish-transcript crates ℕ writer (other_call ∷ []) mixed (codes "x.y") (codes "run") [] now
      called invocation transcript refl refl (ground arith) refl

-- The worker's output ends before the invocation.
abbrev cut : Client crates ℕ
cut = acts crates ℕ (reads (err eof) ∷ []) (connected crates ℕ writer)

abbrev too_late : Invocation crates ℕ
too_late = record { id = 1; channel = 0; events = [] }

abbrev called_late : Client crates ℕ
called_late = (invoke_async crates ℕ (codes "x.y") (codes "run") [] cut).1

finish-waits_example : finish crates ℕ too_late (acts crates ℕ mixed called_late) ≡ pending_with []
unfolding acts act read_frame invoke_async send
finish-waits_example =
    finish-waits crates ℕ writer (reads (err eof) ∷ []) mixed (codes "x.y") (codes "run") [] cut
      called_late too_late refl refl (ground arith) refl

abbrev pipes : Result (Pipes crates ℕ) ErrorKind
pipes = ok (record { writer = writer; first = some (ok (PluginFrame.hello hello)) })

spawn_agrees_example :
    is_ok crates ℕ plugin 10 (spawn_async crates ℕ plugin 10 [] pipes)
    ≡ is_ok crates ℕ plugin 10
        (spawn_worker crates ℕ plugin 10 [] (as_sync crates ℕ plugin 10 pipes)).0
spawn_agrees_example = spawn_agrees crates ℕ plugin 10 [] pipes
