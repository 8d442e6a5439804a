-- ===== src/Core/FrameCodec/Chunks.antt =====
-- A connection's successive reads through src/core/frame_codec.cpp, against the stream as a whole.
use tinykvcache.Prelude.{
  ℕ, zero, suc, ◌+◌, ◌≤◌, ◌<◌, ◌≡◌, refl, ap, sym, ◌∙◌, subst, List, [], ◌∷◌, ◌++◌, append-nil,
  append_assoc, arith, length, length-drop,
}
use tinykvcache.Core.FrameCodec.{
  Bytes, Result, Decoded, ok, err, header_size, max_frame_size, read_length, erase_frame, stop,
  push_front, encode, decode, decode_received, ◌>>=◌,
}
use tinykvcache.Core.FrameCodec.Unroll.{shape, waits, oversized, whole}
use tinykvcache.Core.FrameCodec.Encoding.{frame_of, encode_lem, decode-frame_of}
use tinykvcache.Core.FrameCodec.Stream.{push_all, resume, decode-append}

-- What one `Decode` gave, and what the reads after it give; an exception ends them.
abbrev pub after : Decoded → Decoded → Decoded
after d next = elim d.frames [ ok fs ↦ push_all fs next | err e ↦ d ]

-- One `Decode` for each read.
unfoldable pub receive_all : Bytes → List Bytes → Decoded
unfolding decode_received
receive_all buffer [] = stop buffer
receive_all buffer (received ∷ more) =
    let d = decode_received buffer received in after d (receive_all d.buffer more)

abbrev pub concat : List Bytes → Bytes
concat [] = []
concat (c ∷ cs) = c ++ concat cs

abbrev pub IsOk {ℓ} : {A : Type ℓ} → Result A → Type 0
IsOk (ok a) = Unit
IsOk (err e) = ⊥

IsOk-push_front : (f : Bytes) (d : Decoded) → IsOk (push_front f d).frames → IsOk d.frames
IsOk-push_front f d h = ground arith

IsOk-push_all : (fs : List Bytes) (d : Decoded) → IsOk (push_all fs d).frames → IsOk d.frames
IsOk-push_all [] d h = h
IsOk-push_all (f ∷ fs) d h = IsOk-push_all fs d (IsOk-push_front f (push_all fs d) h)

-- What `decode` leaves: no whole frame, and less than one of the longest.
abbrev pub IsSettled : Bytes → Type 0
IsSettled b = (decode b ≡ stop b) × (length b < header_size + max_frame_size)

IsSettled-whole :
    (b rest f : Bytes)
    → decode b ≡ push_front f (decode rest)
    → IsOk (decode b).frames
    → (IsOk (decode rest).frames → IsSettled (decode rest).buffer)
    → IsSettled (decode b).buffer
IsSettled-whole b rest f e k ih =
    let same : (decode b).buffer ≡ (decode rest).buffer = ap (λ d. d.buffer) e in
    rw same (ih (IsOk-push_front f (decode rest) (subst (λ (d : Decoded). IsOk d.frames) e k)))

IsSettled-waits :
    (b : Bytes)
    → decode b ≡ stop b
    → length b < header_size + max_frame_size
    → IsSettled (decode b).buffer
IsSettled-waits b e h = let same : (decode b).buffer ≡ b = ap (λ d. d.buffer) e in rw same (e, h)

IsSettled-le :
    (n : ℕ) (b : Bytes) → length b ≤ n → IsOk (decode b).frames → IsSettled (decode b).buffer
IsSettled-le zero b h k = elim (shape b) [
  | waits short e ↦ IsSettled-waits b e (omega arith)
  | oversized long _ e ↦ absurd (omega arith)
  | whole all fits e ↦ absurd (omega arith)
]
IsSettled-le (suc n) b h k = elim (shape b) [
  | waits short e ↦ IsSettled-waits b e (omega arith)
  | oversized _ _ e ↦ absurd (subst (λ (d : Decoded). IsOk d.frames) e k)
  | whole all fits e ↦
      IsSettled-whole b (erase_frame b) _ e k (
        IsSettled-le n (erase_frame b) (omega (arith, length-drop (header_size + read_length b) b)))
]

-- After a `Decode` that does not throw, the buffer holds no whole frame, and fewer bytes than the
-- longest frame has.
pub decode-IsSettled : (b : Bytes) → IsOk (decode b).frames → IsSettled (decode b).buffer
decode-IsSettled b k = IsSettled-le (length b) b (omega arith) k

after-resume :
    (buffer : Bytes) (r : Result (List Bytes)) (more : Bytes) (next : Decoded)
    → (IsOk r → IsOk (decode (buffer ++ more)).frames → next ≡ decode (buffer ++ more))
    → IsOk (resume (record { buffer = buffer; frames = r }) more).frames
    → after (record { buffer = buffer; frames = r }) next
      ≡ resume (record { buffer = buffer; frames = r }) more
after-resume buffer (ok fs) more next h k = ap (push_all fs) (h tt (IsOk-push_all fs _ k))
after-resume buffer (err e) more next h k = absurd k

-- The reads are decoded as the whole stream is, where that does not throw.
receive_all-decode :
    (cs : List Bytes) (b : Bytes)
    → decode b ≡ stop b
    → IsOk (decode (b ++ concat cs)).frames
    → receive_all b cs ≡ decode (b ++ concat cs)
unfolding receive_all
receive_all-decode [] b e k = rw append-nil (sym e)
receive_all-decode (c ∷ cs) b e k =
    let assoc : b ++ (c ++ concat cs) ≡ (b ++ c) ++ concat cs =
      sym (append_assoc b c (concat cs)) in
    let split : decode (b ++ (c ++ concat cs)) ≡ resume (decode (b ++ c)) (concat cs) =
      rw assoc (decode-append (b ++ c) (concat cs)) in
    rw split (
      after-resume (decode (b ++ c)).buffer (decode (b ++ c)).frames (concat cs) _
        (λ first.
          receive_all-decode cs (decode (b ++ c)).buffer (decode-IsSettled (b ++ c) first).0)
        (subst (λ (d : Decoded). IsOk d.frames) split k))

-- The frames of the payloads, one behind the other.
unfoldable pub encode_all : List Bytes → Result Bytes
encode_all [] = ok []
encode_all (p ∷ ps) = do frame ← encode p; rest ← encode_all ps; ok (frame ++ rest)

encode-eq-ok : (p f : Bytes) → encode p ≡ ok f → (f ≡ frame_of p) × (length p ≤ max_frame_size)
encode-eq-ok p f h = ground (arith, encode_lem p)

decode-encode_all_step :
    (p w : Bytes) (ps : List Bytes) (frame rest : Result Bytes)
    → encode p ≡ frame
    → ((v : Bytes) → rest ≡ ok v → decode v ≡ record { buffer = []; frames = ok ps })
    → (frame >>= λ f. rest >>= λ v. ok (f ++ v)) ≡ ok w
    → decode w ≡ record { buffer = []; frames = ok (p ∷ ps) }
decode-encode_all_step p w ps (ok f) (ok v) e ih h =
    let (same, fits) = encode-eq-ok p f e in
    let joined : w ≡ frame_of p ++ v = cc (same, h) in
    rw (joined, decode-frame_of p v fits, ih v refl)
decode-encode_all_step p w ps (err x) rest e ih h = cc
decode-encode_all_step p w ps (ok f) (err x) e ih h = cc

decode-encode_all :
    (ps : List Bytes) (w : Bytes)
    → encode_all ps ≡ ok w
    → decode w ≡ record { buffer = []; frames = ok ps }
unfolding encode_all
decode-encode_all [] w h = let nothing : w ≡ [] = cc in rw nothing (unfold decode in refl)
decode-encode_all (p ∷ ps) w h =
    decode-encode_all_step p w ps (encode p) (encode_all ps) refl (decode-encode_all ps) h

-- Frames that `Encode` wrote arrive as they were sent, in order and with nothing left over, however
-- the stream is cut into reads: also in the middle of a header.
pub receive_all-encode_all :
    (ps cs : List Bytes) (w : Bytes)
    → encode_all ps ≡ ok w
    → concat cs ≡ w
    → receive_all [] cs ≡ record { buffer = []; frames = ok ps }
receive_all-encode_all ps cs w sent cut =
    let whole : decode (concat cs) ≡ record { buffer = []; frames = ok ps } =
      rw cut (decode-encode_all ps w sent) in
    receive_all-decode cs [] (unfold decode in refl)
      (subst (λ (d : Decoded). IsOk d.frames) (sym whole) tt)
    ∙ whole
