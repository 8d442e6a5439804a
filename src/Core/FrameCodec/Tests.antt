-- ===== src/Core/FrameCodec/Tests.antt =====
-- Runs of src/core/frame_codec.cpp.
use tinykvcache.Prelude.{◌≡◌, refl, List, [], ◌∷◌, ◌++◌, leb, ltb, length, ◌%◌, ◌^◌, if◌then◌else◌}
use tinykvcache.Core.FrameCodec.{
  Bytes, ok, err, payload_too_large, overrun, encode, decode, decode_loop, max_frame_size,
  frame_too_large,
}
use tinykvcache.Core.FrameCodec.Encoding.{frame_of, encode_lem}
use tinykvcache.Core.FrameCodec.Stream.{decode-append, resume}
use tinykvcache.Core.FrameCodec.Chunks.{
  encode_all, receive_all, receive_all-encode_all, decode-IsSettled, IsSettled,
}

abbrev two_payloads : List Bytes
two_payloads = (b'P' ∷ b'I' ∷ []) ∷ (b'G' ∷ []) ∷ []

abbrev wire : Bytes
wire = 0 ∷ 0 ∷ 0 ∷ 2 ∷ b'P' ∷ b'I' ∷ 0 ∷ 0 ∷ 0 ∷ 1 ∷ b'G' ∷ []

abbrev one : Bytes
one = b'G' ∷ []

-- Cut in the middle of both headers.
abbrev reads : List Bytes
reads = (0 ∷ 0 ∷ []) ∷ (0 ∷ 2 ∷ b'P' ∷ b'I' ∷ 0 ∷ []) ∷ (0 ∷ 0 ∷ 1 ∷ b'G' ∷ []) ∷ []

encode_two : encode_all two_payloads ≡ ok wire
unfolding encode_all encode
encode_two = refl

oversized_header : (decode (255 ∷ 0 ∷ 0 ∷ 0 ∷ [])).frames ≡ err frame_too_large
unfolding decode decode_loop
oversized_header = refl

receive_all-encode_all_example :
    receive_all [] reads ≡ record { buffer = []; frames = ok two_payloads }
receive_all-encode_all_example = receive_all-encode_all two_payloads reads wire encode_two refl

decode-append_example :
    decode ((0 ∷ 0 ∷ 0 ∷ []) ++ (1 ∷ b'G' ∷ [])) ≡ resume (decode (0 ∷ 0 ∷ 0 ∷ [])) (1 ∷ b'G' ∷ [])
decode-append_example = decode-append (0 ∷ 0 ∷ 0 ∷ []) (1 ∷ b'G' ∷ [])

encode_lem_example : encode one ≡ (
    if leb (length one) max_frame_size
    then ok (frame_of one)
    else if ltb max_frame_size (length one % 2 ^ 32)
    then err payload_too_large
    else err overrun)
encode_lem_example = encode_lem one

decode-IsSettled_example : IsSettled (decode wire).buffer
unfolding decode decode_loop
decode-IsSettled_example = decode-IsSettled wire tt
