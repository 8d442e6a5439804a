-- ===== src/Core/CommandParser/Lines.antt =====
-- Request lines and the commands that src/core/command_parser.cpp makes of them.
use tinykvcache.Prelude.{
  ℕ, suc, ◌≤◌, ◌≡◌, refl, ◌∙◌, ap, inl, inr, true, false, List, [], ◌∷◌, ◌++◌, some, arith,
  Bool-cases, length, tests, ltb,
}
use tinykvcache.Prelude.Int.{pos, int_max}
use tinykvcache.Prelude.Text.{codes, to_string}
use tinykvcache.Core.FrameCodec.{Bytes}
use tinykvcache.Core.CommandParser.{
  Command, set, get, expire, null, trim, split_words, parse_expire, dispatch, parse_parts,
  parse_text, parse_command, parse_positive_int, rest_after_n_words, skip_words, upper_copy,
  is_digit, is_space, trim_end,
}
use tinykvcache.Core.CommandParser.Numbers.{
  Digits, parse_positive_int_iff, parse_positive_int-to_string,
}
use tinykvcache.Core.CommandParser.Words.{
  IsWord, IsTrimmed, Spaces, NoSpace, trim-pad, trim-pad_end, split_words-word, split_words-last,
  skip_word-word, skip_spaces-word, trim-word_append, trim_end-append, trim_end-word,
  null-append_word, trim_end_of_trimmed, skip_spaces_of_trimmed, length-split_words,
}

-- The line is kept, and otherwise only its trimmed text counts.
abbrev pub with_raw : Bytes → Command → Command
with_raw line c = record c { raw = line }

parse_expire-raw :
    (l k : Bytes) (parts : List Bytes) → parse_expire l parts ≡ with_raw l (parse_expire k parts)
unfolding parse_expire
parse_expire-raw l k parts = ground arith

dispatch-raw :
    (l k text : Bytes) (parts : List Bytes) (op : Bytes)
    → dispatch l text parts op ≡ with_raw l (dispatch k text parts op)
unfolding dispatch
dispatch-raw l k text parts op = ground (arith, parse_expire-raw l k parts)

parse_parts-raw :
    (l k text : Bytes) (parts : List Bytes)
    → parse_parts l text parts ≡ with_raw l (parse_parts k text parts)
unfolding parse_parts
parse_parts-raw l k text [] = refl
parse_parts-raw l k text (op ∷ args) = dispatch-raw l k text (op ∷ args) (upper_copy op)

parse_text-raw : (l k text : Bytes) → parse_text l text ≡ with_raw l (parse_text k text)
unfolding parse_text
parse_text-raw l k text = elim (Bool-cases (null text)) [
  | inl empty ↦ rw empty
  | inr full ↦ rw full (parse_parts-raw l k text (split_words text))
]

parse_command-raw : (l k : Bytes) → trim l ≡ trim k → parse_command l ≡ with_raw l (parse_command k)
unfolding parse_command
parse_command-raw l k e = rw e (parse_text-raw l k (trim k))

-- Spaces before and behind a line change nothing of the command but the text that it keeps.
pub parse_command-pad :
    (before line behind : Bytes)
    → Spaces before
    → Spaces behind
    → parse_command (before ++ (line ++ behind))
      ≡ with_raw (before ++ (line ++ behind)) (parse_command line)
parse_command-pad before line behind hb he =
    parse_command-raw (before ++ (line ++ behind)) line
      (trim-pad before (line ++ behind) hb ∙ trim-pad_end line behind he)

-- The line of a request, as a client writes it.
abbrev pub set_line : Bytes → Bytes → Bytes
set_line key value = codes "SET" ++ 32 ∷ (key ++ 32 ∷ value)

abbrev pub key_line : Bytes → Bytes → Bytes
key_line name key = name ++ 32 ∷ key

abbrev pub expire_line : Bytes → ℕ → Bytes
expire_line key seconds = codes "EXPIRE" ++ 32 ∷ (key ++ 32 ∷ to_string seconds)

-- A request of two or three parts behind a name: its text, parts and rest.
module _ (name : Bytes) (n : IsWord name) (key : Bytes) (k : IsWord key) where
  spaced_end : (v : Bytes) → trim_end v ≡ v → null v ≡ false → trim_end (32 ∷ v) ≡ 32 ∷ v
  spaced_end v t h = trim_end-append (32 ∷ []) v (rw t h) ∙ ap (λ (u : Bytes). 32 ∷ u) t

  key_text : trim (key_line name key) ≡ key_line name key
  key_text = trim-word_append name (32 ∷ key) n refl (spaced_end key (trim_end-word key k.1) k.0)

  key_parts : split_words (key_line name key) ≡ name ∷ key ∷ []
  key_parts =
      split_words-word name key 32 n (unfold is_space in refl)
      ∙ ap (λ (ws : List Bytes). name ∷ ws) (split_words-last key k)

  module _ (value : Bytes) (v : null value ≡ false) (t : trim_end value ≡ value) where
    three_end : trim_end (key ++ 32 ∷ value) ≡ key ++ 32 ∷ value
    three_end =
        trim_end-append key (32 ∷ value) (rw (spaced_end value t v) refl)
        ∙ ap (λ (u : Bytes). key ++ u) (spaced_end value t v)

    three_text : trim (name ++ 32 ∷ (key ++ 32 ∷ value)) ≡ name ++ 32 ∷ (key ++ 32 ∷ value)
    three_text =
        trim-word_append name (32 ∷ (key ++ 32 ∷ value)) n refl
          (spaced_end (key ++ 32 ∷ value) three_end (null-append_word key (32 ∷ value) k))

    three_parts : split_words (name ++ 32 ∷ (key ++ 32 ∷ value)) ≡ name ∷ key ∷ split_words value
    three_parts =
        split_words-word name (key ++ 32 ∷ value) 32 n (unfold is_space in refl)
        ∙ ap (λ (ws : List Bytes). name ∷ ws)
            (split_words-word key value 32 k (unfold is_space in refl))

skip_words_one :
    (w rest : Bytes) (m : ℕ) (s : ℕ)
    → IsWord w
    → is_space s ≡ true
    → skip_words (suc m) (w ++ s ∷ rest) ≡ skip_words m (s ∷ rest)
unfolding skip_words
skip_words_one w rest m s h sp = rw (
  skip_spaces-word w (s ∷ rest) h,
  null-append_word w (s ∷ rest) h,
  skip_word-word w rest s h.1 sp,
)

skip_words_space : (x : Bytes) (m : ℕ) → skip_words (suc m) (32 ∷ x) ≡ skip_words (suc m) x
unfolding skip_words
skip_words_space x m = refl

set_rest :
    (name key value : Bytes)
    → IsWord name
    → IsWord key
    → IsTrimmed value
    → rest_after_n_words (name ++ 32 ∷ (key ++ 32 ∷ value)) 2 ≡ value
unfolding rest_after_n_words
set_rest name key value n k v =
    let space : is_space 32 ≡ true = unfold is_space in refl in
    let skipped : skip_words 2 (name ++ 32 ∷ (key ++ 32 ∷ value)) ≡ 32 ∷ value =
      skip_words_one name (key ++ 32 ∷ value) 1 32 n space
      ∙ skip_words_space (key ++ 32 ∷ value) 0
      ∙ skip_words_one key value 0 32 k space in
    rw (skipped, skip_spaces_of_trimmed value v, v.0) (v.1)

parse_text-parts :
    (line text : Bytes) (ps : List Bytes)
    → null text ≡ false
    → split_words text ≡ ps
    → parse_text line text ≡ parse_parts line text ps
unfolding parse_text
parse_text-parts line text ps h e = rw (h, e)

parse_command-parts :
    (line : Bytes) (ps : List Bytes)
    → trim line ≡ line
    → null line ≡ false
    → split_words line ≡ ps
    → parse_command line ≡ parse_parts line line ps
unfolding parse_command
parse_command-parts line ps t n e = rw t (parse_text-parts line line ps n e)

-- The names that take arguments.
set_name : IsWord (codes "SET")
unfolding is_space
set_name = (refl, (refl, (refl, (refl, tt))))

expire_name : IsWord (codes "EXPIRE")
unfolding is_space
expire_name = (refl, (refl, (refl, (refl, (refl, (refl, (refl, tt)))))))

set_of_parts :
    (line key value : Bytes) (words : List Bytes)
    → 1 ≤ length words
    → rest_after_n_words line 2 ≡ value
    → null value ≡ false
    → parse_parts line line (codes "SET" ∷ key ∷ words)
      ≡ record { kind = set; key = key; value = value; seconds = pos 0; raw = line }
unfolding parse_parts
set_of_parts line key value words h e n =
    let enough : ltb (length (codes "SET" ∷ key ∷ words)) 3 ≡ false = omega tests in
    rw (e, enough, n)

expire_of_parts :
    (line key number : Bytes) (n : ℕ)
    → parse_positive_int number ≡ some n
    → parse_parts line line (codes "EXPIRE" ∷ key ∷ number ∷ [])
      ≡ record { kind = expire; key = key; value = []; seconds = pos n; raw = line }
unfolding parse_parts
expire_of_parts line key number n e = rw e

-- `SET key value` is read as it was written, for a key that is one word and a value with no space
-- at its ends, whatever spaces stand inside the value.
pub parse_command-set_line :
    (key value : Bytes)
    → IsWord key
    → IsTrimmed value
    → parse_command (set_line key value)
      ≡ record { kind = set; key = key; value = value; seconds = pos 0; raw = set_line key value }
parse_command-set_line key value k v =
    let t = trim_end_of_trimmed value v in
    let parts = three_parts (codes "SET") set_name key k value v.0 t in
    let some_words = length-split_words value v.0 (skip_spaces_of_trimmed value v) in
    parse_command-parts (set_line key value) _ (three_text (codes "SET") set_name key k value v.0 t)
      refl parts
    ∙ set_of_parts (set_line key value) key value (split_words value) some_words
        (set_rest (codes "SET") key value set_name k v) v.0

Digits-word : (ds : Bytes) → Digits ds → NoSpace ds
unfolding is_digit is_space
Digits-word [] h = tt
Digits-word (d ∷ ds) h = (ground (arith, h.0), Digits-word ds h.1)

null-parsed : (text : Bytes) (n : ℕ) → parse_positive_int text ≡ some n → null text ≡ false
unfolding parse_positive_int
null-parsed [] n h = absurd (cc h)
null-parsed (c ∷ cs) n h = refl

-- `EXPIRE key n` is read as it was written, for a key that is one word and every number of
-- seconds that is positive and an `int`.
pub parse_command-expire_line :
    (key : Bytes) (n : ℕ)
    → IsWord key
    → 1 ≤ n
    → n ≤ int_max
    → parse_command (expire_line key n)
      ≡ record { kind = expire; key = key; value = []; seconds = pos n; raw = expire_line key n }
parse_command-expire_line key n k p m =
    let parsed = parse_positive_int-to_string n p m in
    let digits = ((parse_positive_int_iff (to_string n) n).0 parsed).digits in
    let number : IsWord (to_string n) =
      (null-parsed (to_string n) n parsed, Digits-word (to_string n) digits) in
    let t = trim_end-word (to_string n) number.1 in
    parse_command-parts (expire_line key n) _
      (three_text (codes "EXPIRE") expire_name key k (to_string n) number.0 t) refl
      (three_parts (codes "EXPIRE") expire_name key k (to_string n) number.0 t
        ∙ ap (λ (ws : List Bytes). codes "EXPIRE" ∷ key ∷ ws)
            (split_words-last (to_string n) number))
    ∙ expire_of_parts (expire_line key n) key (to_string n) n parsed

get_name : IsWord (codes "GET")
unfolding is_space
get_name = (refl, (refl, (refl, (refl, tt))))

get_of_parts :
    (line key : Bytes)
    → parse_parts line line (codes "GET" ∷ key ∷ [])
      ≡ record { kind = get; key = key; value = []; seconds = pos 0; raw = line }
unfolding parse_parts
get_of_parts line key = refl

-- `GET key` is read as it was written.
pub parse_command-get_line :
    (key : Bytes)
    → IsWord key
    → parse_command (key_line (codes "GET") key) ≡ record {
      kind = get;
      key = key;
      value = [];
      seconds = pos 0;
      raw = key_line (codes "GET") key;
    }
parse_command-get_line key k =
    parse_command-parts (key_line (codes "GET") key) _ (key_text (codes "GET") get_name key k) refl
      (key_parts (codes "GET") get_name key k)
    ∙ get_of_parts (key_line (codes "GET") key) key
