-- ===== src/Protocol/Framing.antt =====
-- `FramedReader` and `FramedWriter` of crates/outboard-protocol/src/lib.rs: the length of a frame
-- as four bytes, most significant first, then the frame as JSON.
pub mod RoundTrip
use outboard.Prelude.{
  ℕ, zero, suc, ◌+◌, ◌-◌, ◌*◌, ◌/◌, ◌%◌, ◌^◌, Text, ◌≡◌, List, [], ◌∷◌, ◌++◌, Option, none, some,
  Bool, if◌then◌else◌, Result, ok, err, ltb, leb, length, take,
}
use outboard.FileSystem.{ErrorKind, unexpected_eof}

-- const DEFAULT_MAX_FRAME_SIZE
abbrev pub default_max_frame_size : ℕ
default_max_frame_size = 16 * 1024 * 1024

-- u32::MAX
abbrev pub u32_max : ℕ
u32_max = 2 ^ 32 - 1

pub data FrameError (J : Type 0) : Type 0 where
  io : ErrorKind → FrameError J
  too_large : (length max : ℕ) → FrameError J
  json : J → FrameError J
  eof : FrameError J

-- serde_json for one type of frames: `to_vec` and `from_slice`, with their error type.
pub record Codec (T : Type 0) : Type 1 where
  pub JsonError : Type 0
  pub to_vec : T → Result Text JsonError
  pub from_slice : Text → Result T JsonError

-- A byte stream: what it still delivers, and how it ends after that.
pub record Stream : Type 0 where
  pub bytes : Text
  pub ending : Option ErrorKind

abbrev pub split_at : ℕ → Text → Option (Text × Text)
split_at zero s = some ([], s)
split_at (suc n) [] = none
split_at (suc n) (b ∷ s) = elim (split_at n s) [ none ↦ none | some p ↦ some (b ∷ p.0, p.1) ]

abbrev ending_kind : Option ErrorKind → ErrorKind
ending_kind none = unexpected_eof
ending_kind (some e) = e

-- Read::read_exact. A failed read has consumed what there was.
unfoldable pub read_exact : ℕ → Stream → Result Text ErrorKind × Stream
read_exact n s = elim (split_at n s.bytes) [
  | none ↦ (err (ending_kind s.ending), record s { bytes = [] })
  | some p ↦ (ok p.0, record s { bytes = p.1 })
]

-- u32::from_be_bytes of a header
abbrev pub from_be_bytes : Text → ℕ
from_be_bytes [] = 0
from_be_bytes (b ∷ s) = b * 256 ^ length s + from_be_bytes s

-- u32::to_be_bytes
abbrev pub to_be_bytes : ℕ → Text
to_be_bytes n = (n / 2 ^ 24 % 256) ∷ (n / 2 ^ 16 % 256) ∷ (n / 2 ^ 8 % 256) ∷ (n % 256) ∷ []

-- A byte sink: what was written, and after how many more bytes it fails, if it does.
pub record Sink : Type 0 where
  pub written : Text
  pub fault : Option (ℕ × ErrorKind)
  pub flush_fault : Option ErrorKind

-- Write::write_all
unfoldable pub write_all : Text → Sink → Result (Unit {0}) ErrorKind × Sink
write_all b s = elim s.fault [
  | none ↦ (ok tt, record s { written = s.written ++ b })
  | some (room, e) ↦
      if leb (length b) room
      then (ok tt, record s { written = s.written ++ b; fault = some (room - length b, e) })
      else (err e, record s { written = s.written ++ take room b; fault = some (0, e) })
]

-- Write::flush
unfoldable pub flush : Sink → Result (Unit {0}) ErrorKind × Sink
flush s = elim s.flush_fault [ none ↦ (ok tt, s) | some e ↦ (err e, s) ]

abbrev is_eof : ErrorKind → Bool
is_eof unexpected_eof = Bool.true
is_eof _ = Bool.false

module _ {T : Type 0} (codec : Codec T) where
  open codec use {JsonError, to_vec, from_slice}

  -- The `map_err` of a read
  abbrev pub map_read : ErrorKind → FrameError JsonError
  map_read e = if is_eof e then eof else io e

  abbrev decode : Result T JsonError → Result T (FrameError JsonError)
  decode (ok v) = ok v
  decode (err e) = err (json e)

  -- The body of a frame, once its bytes are read.
  abbrev body : Result Text ErrorKind × Stream → Result T (FrameError JsonError) × Stream
  body (err e, s) = (err (map_read e), s)
  body (ok b, s) = (decode (from_slice b), s)

  -- The rest of a read, once the header's bytes are read.
  abbrev header : ℕ → Result Text ErrorKind × Stream → Result T (FrameError JsonError) × Stream
  header max (err e, s) = (err (map_read e), s)
  header max (ok h, s) =
      if ltb max (from_be_bytes h)
      then (err (too_large (from_be_bytes h) max), s)
      else body (read_exact (from_be_bytes h) s)

  -- FramedReader::read
  unfoldable pub read : ℕ → Stream → Result T (FrameError JsonError) × Stream
  read max s = header max (read_exact 4 s)

  -- A step of the writer, whose I/O error is returned as it is.
  abbrev then_io :
      Result (Unit {0}) ErrorKind × Sink
      → (Sink → Result (Unit {0}) (FrameError JsonError) × Sink)
      → Result (Unit {0}) (FrameError JsonError) × Sink
  then_io (ok u, s) next = next s
  then_io (err e, s) next = (err (io e), s)

  abbrev write_bytes : ℕ → Text → Sink → Result (Unit {0}) (FrameError JsonError) × Sink
  write_bytes max b s =
      if ltb max (length b)
      then (err (too_large (length b) max), s)
      else if ltb u32_max (length b)
      then (err (too_large (length b) u32_max), s)
      else then_io (write_all (to_be_bytes (length b)) s)
          (λ s1. then_io (write_all b s1) (λ s2. then_io (flush s2) (λ s3. (ok tt, s3))))

  -- FramedWriter::write
  unfoldable pub write : ℕ → T → Sink → Result (Unit {0}) (FrameError JsonError) × Sink
  write max v s = elim (to_vec v) [ err e ↦ (err (json e), s) | ok b ↦ write_bytes max b s ]
