-- ===== src/Core/FrameCodec/Stream.antt =====
-- The decoder of src/core/frame_codec.cpp on a stream that comes in two parts.
use tinykvcache.Prelude.{
  ℕ, zero, suc, ◌+◌, ◌≤◌, ◌<◌, ◌≡◌, refl, List, [], ◌∷◌, ◌++◌, arith, length, take, drop,
  length-drop, length-append, drop-append_le, take-append_le, le→ltb, lt→ltb,
}
use tinykvcache.Core.FrameCodec.{
  Bytes, Decoded, Result, ok, err, frame_too_large, header_size, max_frame_size, read_length, round,
  erase_frame, decode, push_front,
}
use tinykvcache.Core.FrameCodec.Unroll.{decode_lem, shape, waits, oversized, whole}

abbrev pub push_all : List Bytes → Decoded → Decoded
push_all [] d = d
push_all (f ∷ fs) d = push_front f (push_all fs d)

-- The decoder after `d`, when `more` comes in: an exception is final.
abbrev pub resume : Decoded → Bytes → Decoded
resume d more = elim d.frames [
  | ok fs ↦ push_all fs (decode (d.buffer ++ more))
  | err e ↦ record { buffer = d.buffer ++ more; frames = err e }
]

read_length-append : (a b : Bytes) → header_size ≤ length a → read_length (a ++ b) ≡ read_length a
unfolding read_length
read_length-append [] b h = absurd (omega arith)
read_length-append (w ∷ []) b h = absurd (omega arith)
read_length-append (w ∷ x ∷ []) b h = absurd (omega arith)
read_length-append (w ∷ x ∷ y ∷ []) b h = absurd (omega arith)
read_length-append (w ∷ x ∷ y ∷ z ∷ a) b h = refl

resume-push_front :
    (f b : Bytes) (buffer : Bytes) (r : Result (List Bytes))
    → resume (push_front f (record { buffer = buffer; frames = r })) b
      ≡ push_front f (resume (record { buffer = buffer; frames = r }) b)
resume-push_front f b buffer (ok fs) = refl
resume-push_front f b buffer (err e) = refl

read_length-append_le :
    (a b : Bytes) → header_size + read_length a ≤ length a → read_length (a ++ b) ≡ read_length a
read_length-append_le a b h = read_length-append a b (omega arith)

-- A whole frame at the front stays whole, and the same, whatever comes behind it.
decode-whole_append :
    (a b : Bytes)
    → header_size + read_length a ≤ length a
    → read_length a ≤ max_frame_size
    → decode (a ++ b)
      ≡ push_front (take (read_length a) (drop header_size a)) (decode (erase_frame a ++ b))
unfolding round
decode-whole_append a b all fits = rw (
  decode_lem (a ++ b),
  read_length-append_le a b all,
  le→ltb (length (a ++ b)) header_size (omega (arith, length-append a b)),
  le→ltb max_frame_size (read_length a) fits,
  le→ltb (length (a ++ b)) (header_size + read_length a) (omega (arith, length-append a b)),
  drop-append_le header_size a b (omega arith),
  take-append_le (read_length a) (drop header_size a) b (omega (arith, length-drop header_size a)),
  drop-append_le (header_size + read_length a) a b all,
)

decode-oversized_append :
    (a b : Bytes)
    → header_size ≤ length a
    → max_frame_size < read_length a
    → decode (a ++ b) ≡ record { buffer = a ++ b; frames = err frame_too_large }
unfolding round
decode-oversized_append a b long big = rw (
  decode_lem (a ++ b),
  read_length-append a b long,
  le→ltb (length (a ++ b)) header_size (omega (arith, length-append a b)),
  lt→ltb max_frame_size (read_length a) big,
)

decode-append_le : (n : ℕ) (a b : Bytes) → length a ≤ n → decode (a ++ b) ≡ resume (decode a) b
decode-append_le zero a b h = elim (shape a) [
  | waits _ e ↦ rw e
  | oversized long big e ↦ absurd (omega arith)
  | whole all fits e ↦ absurd (omega arith)
]
decode-append_le (suc n) a b h = elim (shape a) [
  | waits _ e ↦ rw e
  | oversized long big e ↦ rw e (decode-oversized_append a b long big)
  | whole all fits e ↦ rw (
    e,
    decode-whole_append a b all fits,
    resume-push_front _ b (decode (erase_frame a)).buffer (decode (erase_frame a)).frames,
    decode-append_le n (erase_frame a) b
        (omega (arith, length-drop (header_size + read_length a) a)),
  )
]

-- Decoding what two reads brought is decoding the first, then going on with what it left.
pub decode-append : (a b : Bytes) → decode (a ++ b) ≡ resume (decode a) b
decode-append a b = decode-append_le (length a) a b (omega arith)
