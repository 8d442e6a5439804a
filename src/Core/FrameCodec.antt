-- ===== src/Core/FrameCodec.antt =====
-- src/core/frame_codec.cpp: length-prefixed frames over a byte stream.
mod Tests
pub mod Unroll
pub mod Encoding
pub mod Stream
pub mod Chunks
use tinykvcache.Prelude.{
  ℕ, zero, suc, ◌+◌, ◌*◌, ◌/◌, ◌%◌, ◌^◌, List, [], ◌∷◌, ◌++◌, ltb, leb, if◌then◌else◌, length, take,
  drop, replicate,
}

-- A `std::string` of bytes, each below 256.
abbrev pub Bytes : Type 0
Bytes = List ℕ

pub data Error : Type 0 where
  -- `std::runtime_error`, thrown
  payload_too_large frame_too_large : Error
  -- a `memcpy` past the end of the frame: undefined behaviour, no C++ exception
  overrun : Error

pub data Result {ℓ} (A : Type ℓ) : Type ℓ where
  ok : A → Result A
  err : Error → Result A

infixl 5 ◌>>=◌
abbrev pub ◌>>=◌ {ℓ κ} : {A : Type ℓ} {B : Type κ} → Result A → (A → Result B) → Result B
ok a >>= f = f a
err e >>= f = err e

abbrev pub header_size : ℕ
header_size = 4

abbrev pub max_frame_size : ℕ
max_frame_size = 1024 * 1024

-- `htonl`, then the four bytes of the word in memory order.
pub big_endian : ℕ → Bytes
big_endian n = (n / 2 ^ 24 % 256) ∷ (n / 2 ^ 16 % 256) ∷ (n / 2 ^ 8 % 256) ∷ (n % 256) ∷ []

-- The word that `ntohl` makes of the first four bytes; the callers test that there are four.
pub read_length : Bytes → ℕ
read_length (a ∷ b ∷ c ∷ d ∷ rest) = a * 2 ^ 24 + b * 2 ^ 16 + c * 2 ^ 8 + d
read_length _ = 0

-- `memcpy(&dst[at], src, size)` within `dst`.
pub memcpy : Bytes → ℕ → Bytes → Result Bytes
memcpy dst at src =
    if leb (at + length src) (length dst)
    then ok (take at dst ++ (src ++ drop (at + length src) dst))
    else err overrun

-- The size is cast to `uint32_t` before the test.
pub encode : Bytes → Result Bytes
unfolding memcpy big_endian
encode payload =
    let payload_len = length payload % 2 ^ 32 in
    if ltb max_frame_size payload_len then err payload_too_large else do
      frame ← memcpy (replicate (header_size + payload_len) 0) 0 (big_endian payload_len)
      memcpy frame header_size payload

-- What is left in the connection's buffer, and the vector returned or the exception thrown.
pub record Decoded : Type 0 where
  pub buffer : Bytes
  pub frames : Result (List Bytes)

abbrev pub push_front : Bytes → Decoded → Decoded
push_front frame d = record { buffer = d.buffer; frames = d.frames >>= λ fs. ok (frame ∷ fs) }

abbrev pub stop : Bytes → Decoded
stop buffer = record { buffer = buffer; frames = ok [] }

-- One pass of the loop's body; `rest` is what the passes after it give.
pub round : Bytes → Decoded → Decoded
unfolding read_length
round buffer rest =
    let payload_len = read_length buffer in
    let total_size = header_size + payload_len in
    if ltb (length buffer) header_size
    then stop buffer
    else if ltb max_frame_size payload_len
    then record { buffer = buffer; frames = err frame_too_large }
    else if ltb (length buffer) total_size
    then stop buffer
    else push_front (take payload_len (drop header_size buffer)) rest

-- `buffer.erase(0, totalSize)`
abbrev pub erase_frame : Bytes → Bytes
erase_frame buffer = drop (header_size + read_length buffer) buffer

-- The loop, on fuel. Each round takes four bytes at least, so the bytes left are fuel enough.
decode_loop : ℕ → Bytes → Decoded
unfolding round
decode_loop zero buffer = stop buffer
decode_loop (suc fuel) buffer =
    let rest = decode_loop fuel (erase_frame buffer) in round buffer rest

pub decode : Bytes → Decoded
unfolding decode_loop
decode buffer = decode_loop (length buffer) buffer

-- The overload that appends what `recv` gave. Its `data` is never null here.
pub decode_received : Bytes → Bytes → Decoded
unfolding decode
decode_received buffer received = decode (buffer ++ received)
