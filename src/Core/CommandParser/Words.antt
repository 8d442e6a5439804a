-- ===== src/Core/CommandParser/Words.antt =====
-- Trimming and splitting in src/core/command_parser.cpp.
use tinykvcache.Prelude.{
  ℕ, ◌≡◌, refl, sym, ◌∙◌, ap, inl, inr, true, false, List, [], ◌∷◌, ◌++◌, append_assoc, append-nil,
  arith, All, Bool-cases, length, ◌≤◌,
}
use tinykvcache.Core.FrameCodec.{Bytes}
use tinykvcache.Core.CommandParser.{
  is_space, skip_spaces, null, trim_end, trim, word_loop, split_words, skip_word, flush,
}

abbrev pub Spaces : Bytes → Type 0
Spaces = All (λ c. is_space c ≡ true)

abbrev pub NoSpace : Bytes → Type 0
NoSpace = All (λ c. is_space c ≡ false)

-- A word: at least one byte, and no space.
abbrev pub IsWord : Bytes → Type 0
IsWord w = (null w ≡ false) × NoSpace w

-- At least one byte, and no space at either end.
abbrev pub IsTrimmed : Bytes → Type 0
IsTrimmed v = (null v ≡ false) × (trim v ≡ v)

NoSpace-append : (xs ys : Bytes) → NoSpace xs → NoSpace ys → NoSpace (xs ++ ys)
NoSpace-append [] ys hx hy = hy
NoSpace-append (x ∷ xs) ys hx hy = (hx.0, NoSpace-append xs ys hx.1 hy)

skip_spaces-pad : (pad x : Bytes) → Spaces pad → skip_spaces (pad ++ x) ≡ skip_spaces x
unfolding skip_spaces
skip_spaces-pad [] x h = refl
skip_spaces-pad (c ∷ pad) x h = rw (h.0) (skip_spaces-pad pad x h.1)

trim_end-Spaces : (pad : Bytes) → Spaces pad → trim_end pad ≡ []
unfolding trim_end
trim_end-Spaces [] h = refl
trim_end-Spaces (c ∷ pad) h = rw (h.0, trim_end-Spaces pad h.1)

trim_end-pad : (x pad : Bytes) → Spaces pad → trim_end (x ++ pad) ≡ trim_end x
unfolding trim_end
trim_end-pad [] pad h = trim_end-Spaces pad h
trim_end-pad (c ∷ x) pad h = rw (trim_end-pad x pad h)

-- Spaces round a text are nothing to `Trim`.
pub trim-pad_end : (x pad : Bytes) → Spaces pad → trim (x ++ pad) ≡ trim x
unfolding trim skip_spaces
trim-pad_end [] pad h = ground (arith, skip_spaces-pad pad [] h, append-nil pad)
trim-pad_end (c ∷ x) pad h = elim (Bool-cases (is_space c)) [
  | inl space ↦ rw space (trim-pad_end x pad h)
  | inr other ↦ rw other (trim_end-pad (c ∷ x) pad h)
]

pub trim-pad : (pad x : Bytes) → Spaces pad → trim (pad ++ x) ≡ trim x
unfolding trim
trim-pad pad x h = rw (skip_spaces-pad pad x h)

pub trim_end_idem : (x : Bytes) → trim_end (trim_end x) ≡ trim_end x
unfolding trim_end
trim_end_idem [] = refl
trim_end_idem (c ∷ x) = ground (arith, trim_end_idem x)

pub skip_spaces-trim_end :
    (x : Bytes) → skip_spaces (trim_end (skip_spaces x)) ≡ trim_end (skip_spaces x)
unfolding skip_spaces trim_end
skip_spaces-trim_end [] = refl
skip_spaces-trim_end (c ∷ x) = ground (arith, skip_spaces-trim_end x)

pub trim_idem : (x : Bytes) → trim (trim x) ≡ trim x
unfolding trim
trim_idem x = rw (skip_spaces-trim_end x) (trim_end_idem (skip_spaces x))

pub trim_end-word : (w : Bytes) → NoSpace w → trim_end w ≡ w
unfolding trim_end
trim_end-word [] h = refl
trim_end-word (c ∷ w) h = rw (h.0, trim_end-word w h.1)

pub trim_end-append :
    (x v : Bytes) → null (trim_end v) ≡ false → trim_end (x ++ v) ≡ x ++ trim_end v
unfolding trim_end
trim_end-append [] v h = refl
trim_end-append (c ∷ x) v h =
    rw (trim_end-append x v h) (ground (arith, null-append x (trim_end v) h))
  where
    null-append : (xs ys : Bytes) → null ys ≡ false → null (xs ++ ys) ≡ false
    null-append [] ys k = k
    null-append (y ∷ xs) ys k = refl

-- Words.

flush-IsWord : (w : Bytes) (ws : List Bytes) → NoSpace w → All IsWord ws → All IsWord (flush w ws)
flush-IsWord [] ws h k = k
flush-IsWord (c ∷ w) ws h k = ((refl, h), k)

word_loop-IsWord : (w text : Bytes) → NoSpace w → All IsWord (word_loop w text)
unfolding word_loop
word_loop-IsWord w [] h = flush-IsWord w [] h tt
word_loop-IsWord w (c ∷ text) h = elim (Bool-cases (is_space c)) [
  | inl space ↦ rw space (flush-IsWord w (word_loop [] text) h (word_loop-IsWord [] text tt))
  | inr other ↦
      rw other (word_loop-IsWord (w ++ (c ∷ [])) text (NoSpace-append w (c ∷ []) h (other, tt)))
]

-- Every part that `SplitWords` returns is a word.
pub split_words-IsWord : (text : Bytes) → All IsWord (split_words text)
unfolding split_words
split_words-IsWord text = word_loop-IsWord [] text tt

flush_some : (w : Bytes) (ws : List Bytes) → null w ≡ false → flush w ws ≡ w ∷ ws
flush_some [] ws h = absurd (cc h)
flush_some (c ∷ w) ws h = refl

word_loop-word :
    (cur w rest : Bytes) (s : ℕ)
    → NoSpace w
    → null (cur ++ w) ≡ false
    → is_space s ≡ true
    → word_loop cur (w ++ s ∷ rest) ≡ (cur ++ w) ∷ word_loop [] rest
unfolding word_loop
word_loop-word cur [] rest s h n sp = rw sp (
    flush_some cur (word_loop [] rest) (ground (arith, append-nil cur))
    ∙ ground (arith, append-nil cur))
word_loop-word cur (c ∷ w) rest s h n sp = rw (h.0) (
    word_loop-word (cur ++ (c ∷ [])) w rest s h.1 (rw (append_assoc cur (c ∷ []) w) n) sp
    ∙ ap (λ (v : Bytes). v ∷ word_loop [] rest) (append_assoc cur (c ∷ []) w))

word_loop-last :
    (cur w : Bytes) → NoSpace w → null (cur ++ w) ≡ false → word_loop cur w ≡ (cur ++ w) ∷ []
unfolding word_loop
word_loop-last cur [] h n =
    flush_some cur [] (ground (arith, append-nil cur)) ∙ ground (arith, append-nil cur)
word_loop-last cur (c ∷ w) h n = rw (h.0) (
    word_loop-last (cur ++ (c ∷ [])) w h.1 (rw (append_assoc cur (c ∷ []) w) n)
    ∙ ap (λ (v : Bytes). v ∷ []) (append_assoc cur (c ∷ []) w))

pub split_words-word :
    (w rest : Bytes) (s : ℕ)
    → IsWord w
    → is_space s ≡ true
    → split_words (w ++ s ∷ rest) ≡ w ∷ split_words rest
unfolding split_words
split_words-word w rest s h sp = word_loop-word [] w rest s h.1 h.0 sp

pub split_words-last : (w : Bytes) → IsWord w → split_words w ≡ w ∷ []
unfolding split_words
split_words-last w h = word_loop-last [] w h.1 h.0

pub skip_word-word :
    (w rest : Bytes) (s : ℕ) → NoSpace w → is_space s ≡ true → skip_word (w ++ s ∷ rest) ≡ s ∷ rest
unfolding skip_word
skip_word-word [] rest s h sp = rw sp
skip_word-word (c ∷ w) rest s h sp = rw (h.0) (skip_word-word w rest s h.1 sp)

pub skip_spaces-word : (w rest : Bytes) → IsWord w → skip_spaces (w ++ rest) ≡ w ++ rest
unfolding skip_spaces
skip_spaces-word [] rest h = absurd (cc (h.0))
skip_spaces-word (c ∷ w) rest h = rw (h.1.0)

-- A text that begins with a word and ends trimmed is trimmed.
pub trim-word_append :
    (w v : Bytes) → IsWord w → null v ≡ false → trim_end v ≡ v → trim (w ++ v) ≡ w ++ v
unfolding trim
trim-word_append w v h n t =
    rw (skip_spaces-word w v h) (trim_end-append w v (rw t n) ∙ ap (λ (u : Bytes). w ++ u) t)

length-skip_spaces : (x : Bytes) → length (skip_spaces x) ≤ length x
unfolding skip_spaces
length-skip_spaces [] = omega arith
length-skip_spaces (c ∷ x) = ground (arith, length-skip_spaces x)

shorter : (c : ℕ) (x : Bytes) → is_space c ≡ true → skip_spaces (c ∷ x) ≡ c ∷ x → ⊥
unfolding skip_spaces
shorter c x space h =
    let e : skip_spaces x ≡ c ∷ x = sym (rw space) ∙ h in
    omega (arith, ap length e, length-skip_spaces x)

pub null-append_word : (w rest : Bytes) → IsWord w → null (w ++ rest) ≡ false
null-append_word [] rest h = absurd (cc (h.0))
null-append_word (c ∷ w) rest h = refl

pub trim_end_of_trimmed : (v : Bytes) → IsTrimmed v → trim_end v ≡ v
unfolding trim
trim_end_of_trimmed v h = sym (ap trim_end (h.1)) ∙ trim_end_idem (skip_spaces v) ∙ h.1

pub skip_spaces_of_trimmed : (v : Bytes) → IsTrimmed v → skip_spaces v ≡ v
unfolding trim
skip_spaces_of_trimmed v h = sym (ap skip_spaces (h.1)) ∙ skip_spaces-trim_end v ∙ h.1

length-word_loop : (w text : Bytes) → null w ≡ false → 1 ≤ length (word_loop w text)
unfolding word_loop
length-word_loop w [] h = rw (flush_some w [] h) (omega arith)
length-word_loop w (c ∷ text) h = elim (Bool-cases (is_space c)) [
  | inl space ↦ rw (space, flush_some w (word_loop [] text) h) (omega arith)
  | inr other ↦ rw other (length-word_loop (w ++ (c ∷ [])) text (ground arith))
]

-- A text that begins with no space has a word.
pub length-split_words :
    (v : Bytes) → null v ≡ false → skip_spaces v ≡ v → 1 ≤ length (split_words v)
unfolding split_words word_loop
length-split_words [] n h = absurd (cc n)
length-split_words (c ∷ v) n h = elim (Bool-cases (is_space c)) [
  | inl space ↦ absurd (shorter c v space h)
  | inr other ↦ rw other (length-word_loop (c ∷ []) v refl)
]
