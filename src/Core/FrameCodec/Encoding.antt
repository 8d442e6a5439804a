-- ===== src/Core/FrameCodec/Encoding.antt =====
-- What src/core/frame_codec.cpp writes, and the decoder on it.
use tinykvcache.Prelude.{
  ℕ, suc, ◌+◌, ◌%◌, ◌^◌, ◌≤◌, ◌<◌, ◌≡◌, refl, ◌++◌, append-nil, append_assoc, arith, ltb, leb,
  tests, length, drop, replicate, length-append, length-replicate, drop-drop, drop_all,
  take-append_exact, drop-append_exact, le→ltb, lt→ltb, le→leb, if◌then◌else◌, Bool-cases, inl, inr,
  true, false,
}
use tinykvcache.Core.FrameCodec.{
  Bytes, ok, err, payload_too_large, overrun, header_size, max_frame_size, read_length, round,
  big_endian, memcpy, encode, decode, push_front,
}
use tinykvcache.Core.FrameCodec.Unroll.{decode_lem}

-- The bytes of one frame.
abbrev pub frame_of : Bytes → Bytes
frame_of p = big_endian (length p) ++ p

read_length-big_endian :
    (n : ℕ) (rest : Bytes) → n < 2 ^ 32 → read_length (big_endian n ++ rest) ≡ n
unfolding read_length big_endian
read_length-big_endian n rest h = omega arith

length-big_endian : (n : ℕ) → length (big_endian n) ≡ 4
unfolding big_endian
length-big_endian n = refl

memcpy-front :
    (a b : Bytes) (src : Bytes) → length src ≡ length a → memcpy (a ++ b) 0 src ≡ ok (src ++ b)
unfolding memcpy
memcpy-front a b src h = rw (
  le→leb (0 + length src) (length (a ++ b)) (omega (arith, length-append a b)),
  drop-append_exact (0 + length src) a b (omega arith),
)

memcpy-back :
    (a b : Bytes) (at : ℕ) (src : Bytes)
    → length a ≡ at
    → memcpy (a ++ b) at src ≡ (
        if leb (length src) (length b) then ok (a ++ (src ++ drop (length src) b)) else err overrun)
unfolding memcpy
memcpy-back a b at src ha = elim (Bool-cases (leb (length src) (length b))) [
  | inl fits ↦
      let room : leb (at + length src) (length (a ++ b)) ≡ true =
        omega (tests, length-append a b) in
      rw (
        room,
        fits,
        take-append_exact at a b ha,
        ← drop-drop at (length src) (a ++ b),
        drop-append_exact at a b ha,
      )
  | inr over ↦
      let none : leb (at + length src) (length (a ++ b)) ≡ false =
        omega (tests, length-append a b) in
      rw (none, over)
]

replicate-header : (m : ℕ) → replicate {A = ℕ} (header_size + m) 0 ≡ replicate 4 0 ++ replicate m 0
replicate-header m = let e : header_size + m ≡ suc (suc (suc (suc m))) = omega arith in rw e

-- The size that the frame is given is the payload's, cut to 32 bits.
encode-cut :
    (p : Bytes) (m : ℕ)
    → length p % 2 ^ 32 ≡ m
    → m ≤ max_frame_size
    → encode p ≡ (
        if leb (length p) m
        then ok (big_endian m ++ (p ++ drop (length p) (replicate m 0)))
        else err overrun)
unfolding encode
encode-cut p m e h = rw (
  e,
  le→ltb max_frame_size m h,
  replicate-header m,
  memcpy-front (replicate 4 0) (replicate m 0) (big_endian m) (length-big_endian m),
  memcpy-back (big_endian m) (replicate m 0) header_size p (length-big_endian m),
  length-replicate {A = ℕ} m 0,
)

encode-fits : (p : Bytes) → length p ≤ max_frame_size → encode p ≡ ok (frame_of p)
encode-fits p h = rw (
  encode-cut p (length p) (omega arith) h,
  le→leb (length p) (length p) (omega arith),
  drop_all {A = ℕ} (length p) (replicate (length p) 0)
      (omega (arith, length-replicate {A = ℕ} (length p) 0)),
  append-nil p,
)

encode-too_large :
    (p : Bytes) → max_frame_size < length p % 2 ^ 32 → encode p ≡ err payload_too_large
unfolding encode
encode-too_large p h = rw (lt→ltb max_frame_size (length p % 2 ^ 32) h)

encode-overrun :
    (p : Bytes)
    → max_frame_size < length p
    → length p % 2 ^ 32 ≤ max_frame_size
    → encode p ≡ err overrun
encode-overrun p h k =
    let over : leb (length p) (length p % 2 ^ 32) ≡ false = omega tests in
    rw (encode-cut p (length p % 2 ^ 32) refl k, over)

-- A payload of at most the limit is framed; a longer one is refused, unless its size wraps around
-- `uint32_t` to something within the limit: then the second `memcpy` runs past the frame.
pub encode_lem :
    (p : Bytes)
    → encode p ≡ (
        if leb (length p) max_frame_size
        then ok (frame_of p)
        else if ltb max_frame_size (length p % 2 ^ 32)
        then err payload_too_large
        else err overrun)
encode_lem p = elim (Bool-cases (leb (length p) max_frame_size)) [
  | inl fits ↦ rw fits (encode-fits p (omega tests))
  | inr long ↦ elim (Bool-cases (ltb max_frame_size (length p % 2 ^ 32))) [
    | inl big ↦ rw (long, big) (encode-too_large p (omega tests))
    | inr wraps ↦ rw (long, wraps) (encode-overrun p (omega tests) (omega tests))
  ]
]

-- The decoder splits off a frame that the encoder wrote, and goes on with what follows it.
pub decode-frame_of :
    (p rest : Bytes)
    → length p ≤ max_frame_size
    → decode (frame_of p ++ rest) ≡ push_front p (decode rest)
unfolding round
decode-frame_of p rest h =
    let assoc : frame_of p ++ rest ≡ big_endian (length p) ++ (p ++ rest) = append_assoc _ p rest in
    let len : length (big_endian (length p) ++ (p ++ rest)) ≡ 4 + (length p + length rest) = omega (
      arith,
      length-append (big_endian (length p)) (p ++ rest),
      length-append p rest,
      length-big_endian (length p),
    ) in
    rw (
      assoc,
      decode_lem (big_endian (length p) ++ (p ++ rest)),
      read_length-big_endian (length p) (p ++ rest) (omega arith),
      len,
      le→ltb (4 + (length p + length rest)) header_size (omega arith),
      le→ltb max_frame_size (length p) h,
      le→ltb (4 + (length p + length rest)) (header_size + length p) (omega arith),
      ← drop-drop header_size (length p) (big_endian (length p) ++ (p ++ rest)),
      drop-append_exact header_size (big_endian (length p)) (p ++ rest)
          (length-big_endian (length p)),
      take-append_exact (length p) p rest refl,
      drop-append_exact (length p) p rest refl,
    )
