-- ===== src/Core/CommandParser/Accepts.antt =====
-- What a command is worth that src/core/command_parser.cpp returns: the executor relies on it.
use tinykvcache.Prelude.{
  ◌≤◌, ◌≡◌, refl, inl, inr, Bool, true, false, List, [], ◌∷◌, All, arith, Bool-cases, Option-cases,
  length, ltb, ◌==◌, if◌then◌else◌,
}
use tinykvcache.Prelude.Int.{ℤ, pos, negsuc, int_max}
use tinykvcache.Core.FrameCodec.{Bytes}
use tinykvcache.Core.CommandParser.{
  Command, CommandType, ping, set, get, del, expire, ttl, stats, quit, help, null, trim, part,
  make_unknown, split_words, fill_basic, parse_set, parse_expire, dispatch, parse_parts, parse_text,
  parse_command, parse_positive_int, rest_after_n_words, skip_spaces, skip_words, upper_copy,
}
use tinykvcache.Core.CommandParser.Numbers.{parse_positive_int_iff}
use tinykvcache.Core.CommandParser.Words.{IsWord, IsTrimmed, trim_idem, split_words-IsWord}

abbrev InRange : ℤ → Type 0
InRange (pos n) = (1 ≤ n) × (n ≤ int_max)
InRange (negsuc n) = ⊥

-- The fields that a kind of command uses are filled; the others have their defaults.
abbrev Fields : CommandType → Command → Type 0
Fields set c = IsWord c.key × IsTrimmed c.value × (c.seconds ≡ pos 0)
Fields get c = IsWord c.key × (c.value ≡ []) × (c.seconds ≡ pos 0)
Fields del c = IsWord c.key × (c.value ≡ []) × (c.seconds ≡ pos 0)
Fields ttl c = IsWord c.key × (c.value ≡ []) × (c.seconds ≡ pos 0)
Fields expire c = IsWord c.key × (c.value ≡ []) × InRange c.seconds
Fields _ c = (c.key ≡ []) × (c.value ≡ []) × (c.seconds ≡ pos 0)

pub record IsWellFormed (line : Bytes) (c : Command) : Type 0 where
  pub fields : Fields c.kind c
  pub raw : c.raw ≡ line

make_unknown-IsWellFormed : (line : Bytes) → IsWellFormed line (make_unknown line)
make_unknown-IsWellFormed line = record { fields = (refl, refl, refl); raw = refl }

part-IsWord : (parts : List Bytes) → All IsWord parts → 2 ≤ length parts → IsWord (part parts 1)
part-IsWord [] h k = absurd (omega arith)
part-IsWord (p ∷ []) h k = absurd (omega arith)
part-IsWord (p ∷ q ∷ parts) h k = h.1.0

module _ (line : Bytes) (parts : List Bytes) (words : All IsWord parts) where
  plain-IsWellFormed :
      (kind : CommandType)
      → Fields kind (record (make_unknown line) { kind = kind })
      → IsWellFormed line (fill_basic line parts kind 1)
  unfolding fill_basic
  plain-IsWellFormed kind h = elim (Bool-cases (length parts == 1)) [
    | inl fits ↦ rw fits (record { fields = h; raw = refl })
    | inr other ↦ rw other (make_unknown-IsWellFormed line)
  ]

  keyed-IsWellFormed :
      (kind : CommandType)
      → (IsWord (part parts 1)
          → Fields kind (record (make_unknown line) { kind = kind; key = part parts 1 }))
      → IsWellFormed line (fill_basic line parts kind 2)
  unfolding fill_basic
  keyed-IsWellFormed kind h = elim (Bool-cases (length parts == 2)) [
    | inl fits ↦
        rw fits (record { fields = h (part-IsWord parts words (ground arith)); raw = refl })
    | inr other ↦ rw other (make_unknown-IsWellFormed line)
  ]

  value-IsTrimmed :
      (text : Bytes)
      → null (rest_after_n_words text 2) ≡ false
      → IsTrimmed (rest_after_n_words text 2)
  unfolding rest_after_n_words
  value-IsTrimmed text h = (h, ground (arith, trim_idem (skip_spaces (skip_words 2 text))))

  parse_set-IsWellFormed : (text : Bytes) → IsWellFormed line (parse_set line text parts)
  unfolding parse_set
  parse_set-IsWellFormed text = elim (Bool-cases (ltb (length parts) 3)) [
    | inl few ↦ rw few (make_unknown-IsWellFormed line)
    | inr enough ↦ elim (Bool-cases (null (rest_after_n_words text 2))) [
      | inl empty ↦ rw (enough, empty) (make_unknown-IsWellFormed line)
      | inr value ↦
          rw (enough, value)
            (record {
              fields = (part-IsWord parts words (ground arith), value-IsTrimmed text value, refl);
              raw = refl;
            })
    ]
  ]

  parse_expire-IsWellFormed : IsWellFormed line (parse_expire line parts)
  unfolding parse_expire
  parse_expire-IsWellFormed = elim (Bool-cases (length parts == 3)) [
    | inl fits ↦ elim (Option-cases (parse_positive_int (part parts 2))) [
      | inl bad ↦ rw (fits, bad) (make_unknown-IsWellFormed line)
      | inr (n, good) ↦
          let v = (parse_positive_int_iff (part parts 2) n).0 good in
          rw (fits, good)
            (record {
              fields = (part-IsWord parts words (ground arith), refl, (v.positive, v.fits));
              raw = refl;
            })
    ]
    | inr other ↦ rw other (make_unknown-IsWellFormed line)
  ]

  if-IsWellFormed :
      (test : Bool) (c d : Command)
      → IsWellFormed line c
      → IsWellFormed line d
      → IsWellFormed line (if test then c else d)
  if-IsWellFormed true c d hc hd = hc
  if-IsWellFormed false c d hc hd = hd

  dispatch-IsWellFormed : (text op : Bytes) → IsWellFormed line (dispatch line text parts op)
  unfolding dispatch
  dispatch-IsWellFormed text op =
      if-IsWellFormed _ _ _ (plain-IsWellFormed ping (refl, refl, refl)) (
        if-IsWellFormed _ _ _ (plain-IsWellFormed stats (refl, refl, refl)) (
          if-IsWellFormed _ _ _ (plain-IsWellFormed quit (refl, refl, refl)) (
            if-IsWellFormed _ _ _ (plain-IsWellFormed help (refl, refl, refl)) (
              if-IsWellFormed _ _ _ (keyed-IsWellFormed get (λ h. (h, refl, refl))) (
                if-IsWellFormed _ _ _ (keyed-IsWellFormed del (λ h. (h, refl, refl))) (
                  if-IsWellFormed _ _ _ (keyed-IsWellFormed ttl (λ h. (h, refl, refl))) (
                    if-IsWellFormed _ _ _ (parse_set-IsWellFormed text) (
                      if-IsWellFormed _ _ _ parse_expire-IsWellFormed
                        (make_unknown-IsWellFormed line)))))))))

parse_parts-IsWellFormed :
    (line text : Bytes) (parts : List Bytes)
    → All IsWord parts
    → IsWellFormed line (parse_parts line text parts)
unfolding parse_parts
parse_parts-IsWellFormed line text [] h = make_unknown-IsWellFormed line
parse_parts-IsWellFormed line text (op ∷ args) h =
    dispatch-IsWellFormed line (op ∷ args) h text (upper_copy op)

-- Of every line, what the parser returns has a word for a key, a trimmed value and a positive number
-- of seconds within `int` wherever its kind uses them, defaults elsewhere, and the line itself.
pub parse_command-IsWellFormed : (line : Bytes) → IsWellFormed line (parse_command line)
unfolding parse_command parse_text
parse_command-IsWellFormed line =
    let words : All IsWord (split_words (trim line)) = split_words-IsWord (trim line) in
    if-IsWellFormed line (split_words (trim line)) words (null (trim line)) _ _
      (make_unknown-IsWellFormed line)
      (parse_parts-IsWellFormed line (trim line) (split_words (trim line)) words)
