-- ===== src/Tests/Wires.antt =====
-- Examples for the worker protocol and for runs of a process.
use outboard.Prelude.{
  ℕ, zero, suc, Text, codes, ◌≡◌, ◌≤◌, ◌*◌, refl, List, All, [], ◌∷◌, ◌++◌, Option, none, some,
  Result, ok, err, arith, map,
}
use outboard.Tests.{crates}
use outboard.FileSystem.{ErrorKind, is_utf8}
use outboard.Protocol.{InvokeRequest, WireOsString, utf8, unix, windows, args_os, from_os}
use outboard.Protocol.Wire.{Carried, args_os-from_os}
use outboard.Protocol.Framing.{
  too_large, to_be_bytes, Codec, Sink, write, write_all, flush, read, eof,
}
use outboard.Protocol.Framing.RoundTrip.{delivers, read-write, read-too_large, read-truncated}
use outboard.Process.{Child, CapturedOutput, ProcessError, run_capture, wait_loop}
use outboard.Process.Waiting.{run_capture-ends, run_capture-timeout, run_capture-ok}

abbrev odd : Text
odd = 0xFF ∷ []

-- An encoding of lists of at most one OS string, which refuses text that is not UTF-8 as JSON does.
abbrev json : Codec (List WireOsString)
json = record { JsonError = ℕ; to_vec = encode; from_slice = decode }
  where
    encode : List WireOsString → Result Text ℕ
    encode [] = ok []
    encode (utf8 s ∷ []) = outboard.Prelude.if◌then◌else◌ (is_utf8 s) (ok (0 ∷ s)) (err 0)
    encode (unix b ∷ []) = ok (1 ∷ b)
    encode _ = err 1

    decode : Text → Result (List WireOsString) ℕ
    decode [] = ok []
    decode (zero ∷ s) = ok (utf8 s ∷ [])
    decode (suc n ∷ b) = ok (unix b ∷ [])

json_trips :
    (wire : List WireOsString) (b : Text)
    → All Carried wire
    → json.to_vec wire ≡ ok b
    → json.from_slice b ≡ ok wire
json_trips [] b c e = ground arith
json_trips (utf8 s ∷ []) b c e = ground arith
json_trips (unix x ∷ []) b c e = ground arith
json_trips (windows x ∷ []) b c e = cc
json_trips (utf8 x ∷ y ∷ wire) b c e = cc
json_trips (unix x ∷ y ∷ wire) b c e = cc
json_trips (windows x ∷ y ∷ wire) b c e = cc

args_os-from_os_example :
    (received : List WireOsString) × (json.from_slice (1 ∷ odd) ≡ ok received)
    × ((request : InvokeRequest crates)
        → request.args ≡ received
        → args_os crates request ≡ ok (odd ∷ []))
unfolding from_os is_utf8
args_os-from_os_example = args_os-from_os crates json (odd ∷ []) (1 ∷ odd) json_trips refl

-- Frames that are their own encoding.
abbrev plain : Codec Text
plain = record { JsonError = ℕ; to_vec = λ t. ok t; from_slice = λ t. ok t }

abbrev sink : Sink
sink = record { written = codes "#"; fault = none; flush_fault = none }

abbrev sunk : Sink
sunk = record sink { written = 35 ∷ 0 ∷ 0 ∷ 0 ∷ 2 ∷ codes "hi" }

read-write_example :
    (frame : Text) × (sunk.written ≡ sink.written ++ frame)
    × (read plain 20 (delivers (frame ++ codes "more") none)
        ≡ (ok (codes "hi"), delivers (codes "more") none))
unfolding write write_all flush
read-write_example =
    read-write plain 9 20 (codes "hi") sink sunk (codes "more") none refl (ground arith)
      (λ b e. cc (e))

read-truncated_example : (read plain 9 (delivers (0 ∷ 0 ∷ 0 ∷ 2 ∷ codes "h") none)).0 ≡ err eof
read-truncated_example =
    read-truncated plain 9 (codes "hi") (0 ∷ 0 ∷ 0 ∷ 2 ∷ codes "h") (codes "i") (ground arith)
      (ground arith) refl (λ e. cc (e))

-- A child that ends at the third poll, and one that never does.
abbrev third : ℕ → Result (Option ℕ) ErrorKind
third zero = ok none
third (suc zero) = ok none
third (suc (suc n)) = ok (some 0)

abbrev quick : Child
quick = record {
  try_wait = third;
  elapsed = λ n. 6 * n;
  stdin_thread = some (ok tt);
  stdout_thread = some (ok (codes "out"));
  stderr_thread = some (ok []);
}

abbrev limit : ℕ
limit = 20

abbrev endless : Child
endless = record quick { try_wait = λ n. ok none }

run_capture-ends_example :
    (r : Result CapturedOutput ProcessError) × (run_capture 5 (ok endless) none 20 ≡ some r)
run_capture-ends_example = run_capture-ends 4 endless none 20 (λ k. ground arith) (ground arith)

run_capture-timeout_example :
    (limit ≡ limit)
    × (endless.stdout_thread ≡ some (ok (codes "out")))
    × (endless.stderr_thread ≡ some (ok []))
    × ((k : ℕ) × (endless.try_wait k ≡ ok none) × (limit ≤ endless.elapsed k))
unfolding run_capture wait_loop
run_capture-timeout_example =
    run_capture-timeout 5 endless none limit {duration = limit} {out = codes "out"} {errors = []}
      refl

abbrev output : CapturedOutput
output = record { status = 0; stdout = codes "out"; stderr = [] }

run_capture-ok_example :
    ((k : ℕ) × (quick.try_wait k ≡ ok (some 0)))
    × (quick.stdout_thread ≡ some (ok (codes "out")))
    × (quick.stderr_thread ≡ some (ok []))
    × ((bytes : Text) → some (codes "in") ≡ some bytes → quick.stdin_thread ≡ some (ok tt))
unfolding run_capture wait_loop
run_capture-ok_example = run_capture-ok 5 quick (some (codes "in")) 20 {output = output} refl

read-too_large_example :
    read plain 9 (delivers (to_be_bytes 700 ++ codes "hi") none)
    ≡ (err (too_large 700 9), delivers (codes "hi") none)
read-too_large_example = read-too_large plain 9 700 (codes "hi") none (ground arith) (ground arith)
