-- ===== src/Net/OutputBuffer/Contents.antt =====
-- src/net/output_buffer.cpp against the plain queue of bytes that it stands for.
use tinykvcache.Prelude.{
  ◌↔◌, ◌≢◌, ℕ, ◌+◌, ◌*◌, ◌/◌, ◌≤◌, ◌<◌, ◌≡◌, refl, ap, ◌⊎◌, inl, inr, [], ◌∷◌, ◌++◌, Option, none,
  some, arith, length, drop, length-drop, drop-drop, drop_all, length-append, drop-append_le,
  append-nil, true, Bool-cases, ltb, ◌==◌, if◌then◌else◌,
}
use tinykvcache.Core.FrameCodec.{Bytes}
use tinykvcache.Net.OutputBuffer.{
  OutputBuffer, init, unsent, size, is_empty, clear, compact_if_need, append, append_some, consume,
  compact_threshold,
}

-- The offset lies within the storage, and the sent prefix that is kept is short, or shorter than
-- what is still to be sent (and one byte).
pub record IsValid (b : OutputBuffer) : Type 0 where
  pub within : b.read_pos ≤ length b.storage
  pub compact : (b.read_pos < compact_threshold) ⊎ (b.read_pos < length b.storage / 2)

pub init-IsValid : IsValid init
init-IsValid = record { within = omega arith; compact = inl (omega arith) }

pub size-unsent : (b : OutputBuffer) → size b ≡ length (unsent b)
unfolding size unsent
size-unsent b = omega (arith, length-drop b.read_pos b.storage)

compact-IsValid : (b : OutputBuffer) → b.read_pos ≤ length b.storage → IsValid (compact_if_need b)
unfolding compact_if_need
compact-IsValid b h = ground arith

unsent-compact : (b : OutputBuffer) → unsent (compact_if_need b) ≡ unsent b
unfolding compact_if_need unsent
unsent-compact b = ground arith

append_some-IsValid : (b : OutputBuffer) (added : Bytes) → IsValid b → IsValid (append_some b added)
unfolding append_some compact_if_need
append_some-IsValid b added v =
    ground (arith, length-append b.storage added, length-append (drop b.read_pos b.storage) added)

pub append-IsValid : (b : OutputBuffer) (added : Bytes) → IsValid b → IsValid (append b added)
unfolding append
append-IsValid b added v = ground (arith, append_some-IsValid b added v)

unsent-append_some :
    (b : OutputBuffer) (added : Bytes)
    → IsValid b
    → unsent (append_some b added) ≡ unsent b ++ added
unfolding append_some unsent
unsent-append_some b added v =
    rw
      (drop-append_le (compact_if_need b).read_pos (compact_if_need b).storage added
        (compact-IsValid b v.within).within)
      (ap (λ xs. xs ++ added) (unsent-compact b))

empty_of_length : (xs : Bytes) → (length xs == 0) ≡ true → xs ≡ []
empty_of_length [] h = refl
empty_of_length (x ∷ xs) h = absurd (ground arith)

-- Appending to a valid buffer appends to what is to be sent.
pub unsent-append :
    (b : OutputBuffer) (added : Bytes) → IsValid b → unsent (append b added) ≡ unsent b ++ added
unfolding append
unsent-append b added v = elim (Bool-cases (length added == 0)) [
  | inl nothing ↦ rw (nothing, empty_of_length added nothing, append-nil (unsent b))
  | inr something ↦ rw something (unsent-append_some b added v)
]

-- The queue of bytes: sending takes a prefix off, and more than there is cannot be sent.
abbrev pub dequeue : Bytes → ℕ → Option Bytes
dequeue xs n = if ltb (length xs) n then none else some (drop n xs)

abbrev pub unsent? : Option OutputBuffer → Option Bytes
unsent? none = none
unsent? (some b) = some (unsent b)

unsent_all :
    (b : OutputBuffer) (bytes : ℕ)
    → (b.read_pos + bytes == length b.storage) ≡ true
    → unsent (clear b) ≡ drop bytes (unsent b)
unfolding unsent clear
unsent_all b bytes all =
    rw
      (drop-drop b.read_pos bytes b.storage, drop_all (b.read_pos + bytes) b.storage (ground arith))

unsent_part :
    (b : OutputBuffer) (bytes : ℕ)
    → unsent (compact_if_need (record b { read_pos = b.read_pos + bytes })) ≡ drop bytes (unsent b)
unfolding unsent
unsent_part b bytes =
    rw (drop-drop b.read_pos bytes b.storage)
      (unsent-compact (record b { read_pos = b.read_pos + bytes }))

-- Consuming from a valid buffer takes a prefix off what is to be sent, and fails if there is less
-- than that.
pub unsent-consume :
    (b : OutputBuffer) (bytes : ℕ)
    → IsValid b
    → unsent? (consume b bytes) ≡ dequeue (unsent b) bytes
unfolding consume
unsent-consume b bytes v = elim (Bool-cases (ltb (size b) bytes)) [
  | inl over ↦ rw (← size-unsent b, over)
  | inr fits ↦ elim (Bool-cases (b.read_pos + bytes == length b.storage)) [
    | inl all ↦ rw (← size-unsent b, fits, all) (ap some (unsent_all b bytes all))
    | inr part ↦ rw (← size-unsent b, fits, part) (ap some (unsent_part b bytes))
  ]
]

pub consume-IsValid :
    (b c : OutputBuffer) (bytes : ℕ) → IsValid b → consume b bytes ≡ some c → IsValid c
unfolding consume clear
consume-IsValid b c bytes v h =
    ground (arith, compact-IsValid (record b { read_pos = b.read_pos + bytes }))

-- The storage of a valid buffer holds at most twice what is to be sent, and 64 KiB.
pub storage_bound :
    (b : OutputBuffer) → IsValid b → length b.storage ≤ 2 * length (unsent b) + compact_threshold
unfolding unsent
storage_bound b v = ground (arith, length-drop b.read_pos b.storage)

pub size-append :
    (b : OutputBuffer) (added : Bytes) → IsValid b → size (append b added) ≡ size b + length added
size-append b added v =
    rw (size-unsent (append b added), size-unsent b, unsent-append b added v)
      (length-append (unsent b) added)

pub size-consume :
    (b c : OutputBuffer) (n : ℕ) → IsValid b → consume b n ≡ some c → size c + n ≡ size b
size-consume b c n v h =
    ground (arith, unsent-consume b n v, size-unsent c, size-unsent b, length-drop n (unsent b))

pub clear-IsValid : (b : OutputBuffer) → IsValid (clear b)
unfolding clear
clear-IsValid b = init-IsValid

pub size-clear : (b : OutputBuffer) → size (clear b) ≡ 0
unfolding size clear
size-clear b = omega arith

pub unsent-clear : (b : OutputBuffer) → unsent (clear b) ≡ []
unfolding unsent clear
unsent-clear b = refl

pub is_empty_iff : (b : OutputBuffer) → (is_empty b ≡ true) ↔ (size b ≡ 0)
unfolding is_empty
is_empty_iff b = ground arith

pub size-init : size init ≡ 0
unfolding size
size-init = refl

pub consume_total : (b : OutputBuffer) (n : ℕ) → n ≤ size b → consume b n ≢ none
unfolding consume
consume_total b n h = ground arith
