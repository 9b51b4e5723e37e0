-- ===== src/Tokio/Framing.antt =====
-- `AsyncFramedReader` and `AsyncFramedWriter` of crates/outboard-tokio/src/lib.rs. The stream and the
-- sink are those of outboard.Protocol.Framing; what awaits their bytes is left out.
use outboard.Prelude.{ℕ, Text, ◌≡◌, if◌then◌else◌, Result, ok, err, ltb, length, map_err, arith}
use outboard.FileSystem.{ErrorKind, unexpected_eof}
use outboard.Protocol.Framing.{
  Codec, Stream, Sink, FrameError, io, too_large, json, eof, read_exact, write_all, flush,
  from_be_bytes, to_be_bytes, u32_max, read, write,
}

module _ {T : Type 0} (codec : Codec T) where
  open codec use {JsonError, to_vec, from_slice}

  abbrev pub Took : Type 0 → Type 0
  Took A = Result A (FrameError JsonError) × Stream

  abbrev pub Put : Type 0
  Put = Result (Unit {0}) (FrameError JsonError) × Sink

  -- map_read
  abbrev pub frame_error : ErrorKind → FrameError JsonError
  frame_error unexpected_eof = eof
  frame_error e = io e

  -- `self.inner.read_exact(..).await.map_err(map_read)?` and what follows it
  abbrev pub with_bytes : Result Text ErrorKind × Stream → (Text → Stream → Took T) → Took T
  with_bytes (ok b, s) next = next b s
  with_bytes (err e, s) next = (err (frame_error e), s)

  -- AsyncFramedReader::read
  unfoldable pub read_async : ℕ → Stream → Took T
  read_async max s = with_bytes (read_exact 4 s) (λ header s1.
      if ltb max (from_be_bytes header)
      then (err (too_large (from_be_bytes header) max), s1)
      else with_bytes (read_exact (from_be_bytes header) s1)
          (λ bytes s2. (map_err json (from_slice bytes), s2)))

  -- `self.inner.write_all(..).await?` and the like
  abbrev pub and_put : Result (Unit {0}) ErrorKind × Sink → (Sink → Put) → Put
  and_put (ok u, s) next = next s
  and_put (err e, s) next = (err (io e), s)

  abbrev pub put_frame : ℕ → Sink → Result Text JsonError → Put
  put_frame max s (err e) = (err (json e), s)
  put_frame max s (ok bytes) =
      if ltb max (length bytes)
      then (err (too_large (length bytes) max), s)
      else if ltb u32_max (length bytes)
      then (err (too_large (length bytes) u32_max), s)
      else and_put (write_all (to_be_bytes (length bytes)) s)
          (λ s1. and_put (write_all bytes s1) (λ s2. and_put (flush s2) (λ s3. (ok tt, s3))))

  -- AsyncFramedWriter::write
  unfoldable pub write_async : ℕ → T → Sink → Put
  write_async max v s = put_frame max s (to_vec v)

  -- The asynchronous reader and writer read and write the frames of the synchronous ones: on every
  -- stream and every sink, whatever fails, they give the same result and leave the same bytes.
  pub framing_agrees :
      (max : ℕ)
      → ((s : Stream) → read_async max s ≡ read codec max s)
        × ((v : T) (s : Sink) → write_async max v s ≡ write codec max v s)
  unfolding read_async write_async read write
  framing_agrees max = (λ s. ground arith, λ v s. ground arith)
