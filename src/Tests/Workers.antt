-- ===== src/Tests/Workers.antt =====
-- Examples for the synchronous worker and its client.
use outboard.Prelude.{
  ℕ, pos, codes, ◌≡◌, inl, inr, refl, true, List, [], ◌∷◌, ◌++◌, none, Result, ok, All, ◌==◌,
  nat_eq,
}
use outboard.Tests.{crates, tool, tool_id, tool_path}
use outboard.Manifest.{worker}
use outboard.Manifest.Compatibility.{supports}
use outboard.Discovery.{path}
use outboard.FileSystem.{ErrorKind}
use outboard.Registry.{ResolvedPlugin}
use outboard.Protocol.{
  HostHello, PluginHello, HostFrame, PluginFrame, InvocationResult, started, progress, finished,
  pong, shutdown_ack, ping, invoke, shutdown,
}
use outboard.Protocol.Framing.{eof}
use outboard.Worker.{Writer, send}
use outboard.Worker.Server.{
  WorkerHandler, returned, progressed, validate_hello, check_interfaces, serve_worker, run_handler,
}
use outboard.Worker.Server.Session.{Session, Answers, invoked}
use outboard.Worker.Server.Ending.{serve_worker-shutdown}
use outboard.Worker.Client.{
  WorkerClient, Arrival, arrived, pause, InvocationTranscript, invoke_worker, await, request,
}
use outboard.Worker.Client.Laws.{GoesOn, frames_of, await-ok}
use outboard.Worker.Client.Meeting.{arrivals, HasReturned, invoke_worker-Answers}
use outboard.Worker.Client.Spawn.{Pipes, spawn_worker, own_hello, spawn_worker-ok}

abbrev pub greeting : HostHello crates
greeting = record {
  framework = 1;
  protocol = 10;
  requested_interfaces = record { id = codes "x.y"; version = 3 } ∷ [];
  metadata = [];
}

accepted : validate_hello crates ℕ tool greeting ≡ ok tt
unfolding validate_hello check_interfaces
accepted = refl

abbrev pub result : InvocationResult crates
result = record { status = pos 0; result = none; metadata = [] }

-- A handler that reports progress and succeeds.
abbrev handler : WorkerHandler crates ℕ (Unit {0})
handler = record {
  invoke = λ h r. progressed none none (λ sent. returned h (ok result));
  cancel = λ h id. (ok tt, h);
}

abbrev pub call : HostFrame crates
call = invoke (request crates ℕ 1 (codes "x.y") (codes "run") [])

abbrev host_frames : List (HostFrame crates)
host_frames = HostFrame.hello greeting ∷ call ∷ ping 5 ∷ shutdown ∷ []

abbrev unused : Writer ℕ (PluginFrame crates)
unused = record { sent = []; fault = none }

abbrev answer : List (PluginFrame crates)
answer = started 1 ∷ progress 1 none none ∷ finished 1 result ∷ []

abbrev used : Writer ℕ (PluginFrame crates)
used = record {
  sent =
      PluginFrame.hello (record { protocol = 10; manifest = tool })
      ∷ (answer ++ pong 5 ∷ shutdown_ack ∷ []);
  fault = none;
}

serve_worker-shutdown_example :
    (serve_worker crates ℕ handler eof tool tt host_frames unused).0 ≡ ok tt
serve_worker-shutdown_example =
    serve_worker-shutdown crates ℕ handler eof tool tt greeting (call ∷ ping 5 ∷ shutdown ∷ [])
      unused refl accepted (inr (inr (inl refl)))

abbrev late : List (Arrival crates ℕ)
late = arrived (pong 9) ∷ []

abbrev events : List (Arrival crates ℕ)
events = pause ∷ arrived (started 1) ∷ arrived (finished 1 result) ∷ late

abbrev transcript : InvocationTranscript crates ℕ
transcript = record { id = 1; events = started 1 ∷ finished 1 result ∷ []; result = result }

await-ok_example :
    (before : List (Arrival crates ℕ)) × All (GoesOn crates ℕ 1) before
    × (events ≡ before ++ arrived (finished 1 result) ∷ late)
    × (transcript.id ≡ 1)
    × (transcript.events ≡ frames_of crates ℕ before ++ finished 1 result ∷ [])
unfolding await
await-ok_example = await-ok crates ℕ 1 [] events {t = transcript} {rest = late} refl

abbrev client : WorkerClient crates ℕ
client = record {
  incoming = arrivals crates ℕ answer ++ late;
  writer = record { sent = []; fault = none };
  next_id = 1;
  manifest = tool;
  control_timeout = 10;
}

answers : Answers crates ℕ handler tt call tt answer
unfolding run_handler send
answers = invoked _ (record { sent = []; fault = none }) (progress 1 none none ∷ []) (refl, tt) refl

invoke_worker-Answers_example :
    HasReturned crates ℕ client answer late
      (invoke_worker crates ℕ client (codes "x.y") (codes "run") [])
invoke_worker-Answers_example =
    invoke_worker-Answers crates ℕ handler client (codes "x.y") (codes "run") [] late answers refl
      refl

abbrev pub plugin : ResolvedPlugin crates
plugin = record {
  candidate = record { id = tool_id; path = tool_path; source = path; precedence = 0 };
  manifest = tool;
}

abbrev pub hello : PluginHello crates
hello = record { protocol = 10; manifest = tool }

abbrev pipes : Pipes crates ℕ
pipes = record {
  incoming = arrived (PluginFrame.hello hello) ∷ late;
  writer = record { sent = []; fault = none };
}

abbrev opened : Result (Pipes crates ℕ) ErrorKind
opened = ok pipes

abbrev spawned : WorkerClient crates ℕ
spawned = record {
  incoming = late;
  writer = record { sent = own_hello crates ℕ [] ∷ []; fault = none };
  next_id = 1;
  manifest = tool;
  control_timeout = 10;
}

spawn_worker-ok_example :
    (supports crates tool worker ≡ true)
    × ((p : Pipes crates ℕ) × (x : PluginHello crates) × (opened ≡ ok p)
        × (p.incoming ≡ arrived (PluginFrame.hello x) ∷ late)
        × (x.manifest ≡ tool)
        × ((10 == x.protocol) ≡ true)
        × (spawned.manifest ≡ tool)
        × (spawned.next_id ≡ 1))
unfolding spawn_worker send
spawn_worker-ok_example = spawn_worker-ok crates ℕ plugin 10 [] opened {c = spawned} refl
