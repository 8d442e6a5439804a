-- ===== src/Core/FrameCodec/Unroll.antt =====
-- The decoder's loop (src/core/frame_codec.cpp) and its fuel.
use tinykvcache.Prelude.{
  ℕ, zero, suc, ◌+◌, ◌≤◌, ◌<◌, ◌≡◌, refl, [], ◌∷◌, arith, ltb, tests, Bool-cases, inl, inr, ◌⊎◌,
  length, take, drop, length-drop,
}
use tinykvcache.Core.FrameCodec.{
  Bytes, err, frame_too_large, header_size, max_frame_size, read_length, round, erase_frame,
  decode_loop, decode, push_front, stop,
}

decode_loop-fuel :
    (f g : ℕ) (b : Bytes) → length b ≤ f → length b ≤ g → decode_loop f b ≡ decode_loop g b
unfolding decode_loop
decode_loop-fuel zero zero b hf hg = refl
decode_loop-fuel zero (suc g) b hf hg = ground arith
decode_loop-fuel (suc f) zero b hf hg = ground arith
decode_loop-fuel (suc f) (suc g) b hf hg =
    ground
      (arith, decode_loop-fuel f g (erase_frame b), length-drop (header_size + read_length b) b)

erased_le : (x : ℕ) (xs : Bytes) → length (erase_frame (x ∷ xs)) ≤ length xs
erased_le x xs = omega (arith, length-drop (header_size + read_length (x ∷ xs)) (x ∷ xs))

-- `decode` makes one pass and decodes what the pass leaves, for every input.
pub decode_lem : (b : Bytes) → decode b ≡ round b (decode (erase_frame b))
unfolding decode decode_loop
decode_lem [] = refl
decode_lem (x ∷ xs) =
    let enough : length (erase_frame (x ∷ xs)) ≤ length xs = erased_le x xs in
    rw (decode_loop-fuel (length xs) (length (erase_frame (x ∷ xs))) _ enough (omega arith))

-- What the buffer begins with, and what the decoder does of it.
pub data Shape (b : Bytes) : Type 0 where
  waits :
      (length b < header_size)
        ⊎ (read_length b ≤ max_frame_size) × (length b < header_size + read_length b)
      → decode b ≡ stop b
      → Shape b
  oversized :
      header_size ≤ length b
      → max_frame_size < read_length b
      → decode b ≡ record { buffer = b; frames = err frame_too_large }
      → Shape b
  whole :
      header_size + read_length b ≤ length b
      → read_length b ≤ max_frame_size
      → decode b ≡ push_front (take (read_length b) (drop header_size b)) (decode (erase_frame b))
      → Shape b

pub shape : (b : Bytes) → Shape b
unfolding round
shape b = elim (Bool-cases (ltb (length b) header_size)) [
  | inl short ↦ waits (inl (omega tests)) (rw (decode_lem b) (rw short))
  | inr long ↦ elim (Bool-cases (ltb max_frame_size (read_length b))) [
    | inl big ↦ oversized (omega tests) (omega tests) (rw (decode_lem b) (rw (long, big)))
    | inr fits ↦ elim (Bool-cases (ltb (length b) (header_size + read_length b))) [
      | inl part ↦
          waits (inr (omega tests, omega tests)) (rw (decode_lem b) (rw (long, fits, part)))
      | inr all ↦ whole (omega tests) (omega tests) (rw (decode_lem b) (rw (long, fits, all)))
    ]
  ]
]
