-- ===== src/Protocol/Framing/RoundTrip.antt =====
-- What is written is what is read, and what is not a whole frame is an error.
use mathlib.Core.List.{append_assoc}
use outboard.Prelude.{
  ℕ, zero, suc, ◌≤◌, ◌<◌, Text, ◌≡◌, ◌≢◌, refl, ap, [], ◌∷◌, ◌++◌, Option, none, some, ok, err,
  length, length-append, arith, Result-cases, inl, inr,
}
use outboard.FileSystem.{ErrorKind}
use outboard.Protocol.Framing.{
  u32_max, too_large, eof, Codec, Stream, split_at, read_exact, from_be_bytes, to_be_bytes, Sink,
  write_all, flush, decode, read, write,
}

from_be_bytes-to_be_bytes : (n : ℕ) → n ≤ u32_max → from_be_bytes (to_be_bytes n) ≡ n
from_be_bytes-to_be_bytes n h = omega arith

split_at-append : (a b : Text) → split_at (length a) (a ++ b) ≡ some (a, b)
split_at-append [] b = refl
split_at-append (x ∷ a) b = ground (arith, split_at-append a b)

split_at-short : (n : ℕ) (s : Text) → length s < n → split_at n s ≡ none
split_at-short zero s h = absurd (omega arith)
split_at-short (suc n) [] h = refl
split_at-short (suc n) (x ∷ s) h = ground (arith, split_at-short n s (omega arith))

-- The bytes of a frame whose JSON is `b`.
abbrev pub frame_bytes : Text → Text
frame_bytes b = to_be_bytes (length b) ++ b

abbrev pub delivers : Text → Option ErrorKind → Stream
delivers bytes ending = record { bytes = bytes; ending = ending }

read_exact-append :
    (a b : Text) (ending : Option ErrorKind)
    → read_exact (length a) (delivers (a ++ b) ending) ≡ (ok a, delivers b ending)
unfolding read_exact
read_exact-append a b ending = ground (arith, split_at-append a b)

module _ {T : Type 0} (codec : Codec T) where
  open codec use {to_vec, from_slice}

  read-frame_bytes :
      (max : ℕ) (b rest : Text) (ending : Option ErrorKind)
      → length b ≤ max
      → length b ≤ u32_max
      → read codec max (delivers (frame_bytes b ++ rest) ending)
        ≡ (decode codec (from_slice b), delivers rest ending)
  unfolding read
  read-frame_bytes max b rest ending fits word = ground (
    arith,
    read_exact-append (to_be_bytes (length b)) (b ++ rest) ending,
    from_be_bytes-to_be_bytes (length b) word,
    read_exact-append b rest ending,
  )

  -- What a write that succeeds has done.
  pub record Wrote (max : ℕ) (v : T) (before after : Sink) (b : Text) : Type 0 where
    pub encoded : to_vec v ≡ ok b
    pub fits : length b ≤ max
    pub word : length b ≤ u32_max
    pub appended : after.written ≡ before.written ++ frame_bytes b

  write_all-ok :
      (b : Text) (s : Sink) → (write_all b s).0 ≡ ok tt → (write_all b s).1.written ≡ s.written ++ b
  unfolding write_all
  write_all-ok b s h = ground arith

  flush-written : (s : Sink) → (flush s).1.written ≡ s.written
  unfolding flush
  flush-written s = ground arith

  -- The sink after the header, and after the frame.
  abbrev after_header : Text → Sink → Sink
  after_header b s = (write_all (to_be_bytes (length b)) s).1

  abbrev after_body : Text → Sink → Sink
  after_body b s = (write_all b (after_header b s)).1

  -- A write that succeeds has appended the length and the JSON of the frame, within both limits.
  pub write-ok :
      (max : ℕ) (v : T) (s s' : Sink)
      → write codec max v s ≡ (ok tt, s')
      → (b : Text) × Wrote max v s s' b
  unfolding write
  write-ok max v s s' h = elim (Result-cases (to_vec v)) [
    | inr (e, bad) ↦ absurd (ground arith)
    | inl (b, good) ↦ (
      b,
      record {
        encoded = good;
        fits = ground arith;
        word = ground arith;
        appended = ground (
          arith,
          write_all-ok (to_be_bytes (length b)) s,
          write_all-ok b (after_header b s),
          flush-written (after_body b s),
          append_assoc s.written (to_be_bytes (length b)) b,
        );
      },
    )
  ]

  -- A frame that was written is read back, and the reader stands right behind it: `rest` is what
  -- follows. It must fit the reader's limit, and JSON must give the frame back.
  pub read-write :
      (max max' : ℕ) (v : T) (s s' : Sink) (rest : Text) (ending : Option ErrorKind)
      → write codec max v s ≡ (ok tt, s')
      → max ≤ max'
      → ((b : Text) → to_vec v ≡ ok b → from_slice b ≡ ok v)
      → (frame : Text) × (s'.written ≡ s.written ++ frame)
        × (read codec max' (delivers (frame ++ rest) ending) ≡ (ok v, delivers rest ending))
  read-write max max' v s s' rest ending wrote wider lossless =
      let (b, w) = write-ok max v s s' wrote in
      let back : from_slice b ≡ ok v = lossless b w.encoded in
      (
        frame_bytes b,
        w.appended,
        ground (arith, read-frame_bytes max' b rest ending (omega (arith, w.fits)) w.word, back),
      )

  -- A frame over the writer's limit is refused with its length, and nothing is written.
  pub write-too_large :
      (max : ℕ) (v : T) (s : Sink) (b : Text)
      → to_vec v ≡ ok b
      → max < length b
      → write codec max v s ≡ (err (too_large (length b) max), s)
  unfolding write
  write-too_large max v s b encoded big = ground arith

  -- A header over the reader's limit is refused before the body: what follows the header stays.
  pub read-too_large :
      (max n : ℕ) (rest : Text) (ending : Option ErrorKind)
      → n ≤ u32_max
      → max < n
      → read codec max (delivers (to_be_bytes n ++ rest) ending)
        ≡ (err (too_large n max), delivers rest ending)
  unfolding read
  read-too_large max n rest ending word big =
      ground
        (arith, read_exact-append (to_be_bytes n) rest ending, from_be_bytes-to_be_bytes n word)

  length-lt_of_append : (p q b : Text) → p ++ q ≡ b → q ≢ [] → length p < length b
  length-lt_of_append p [] b e h = absurd (h refl)
  length-lt_of_append p (c ∷ q) b e h = omega (arith, length-append p (c ∷ q), ap length e)

  -- A stream that ends inside a frame, before its last byte, is an unexpected end.
  pub read-truncated :
      (max : ℕ) (b p q : Text)
      → length b ≤ max
      → length b ≤ u32_max
      → p ++ q ≡ frame_bytes b
      → q ≢ []
      → (read codec max (delivers p none)).0 ≡ err eof
  unfolding read read_exact
  read-truncated max b [] q fits word e h = refl
  read-truncated max b (_ ∷ []) q fits word e h = refl
  read-truncated max b (_ ∷ _ ∷ []) q fits word e h = refl
  read-truncated max b (_ ∷ _ ∷ _ ∷ []) q fits word e h = refl
  read-truncated max b (x ∷ y ∷ z ∷ w ∷ p) q fits word e h =
      let short : length p < length b = length-lt_of_append p q b (cc) h in
      ground
        (arith, from_be_bytes-to_be_bytes (length b) word, split_at-short (length b) p short, e)
