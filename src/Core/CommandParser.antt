-- ===== src/Core/CommandParser.antt =====
-- src/core/command_parser.cpp: one request line into a command. Character classes are those of the
-- "C" locale, which the program never changes.
pub mod Tests
pub mod Numbers
pub mod Words
pub mod Accepts
pub mod Lines
use tinykvcache.Prelude.{
  ℕ, zero, suc, ◌+◌, ◌-◌, ◌*◌, Bool, true, false, not, ◌&&◌, ◌||◌, List, [], ◌∷◌, ◌++◌, map, Option,
  none, some, ltb, leb, ◌==◌, if◌then◌else◌, length,
}
use tinykvcache.Prelude.Equality.{bytes_beq}
use tinykvcache.Prelude.Int.{ℤ, pos, int_max}
use tinykvcache.Prelude.Text.{codes}
use tinykvcache.Core.FrameCodec.{Bytes}

pub data CommandType : Type 0 where
  ping set get del expire ttl stats quit help unknown : CommandType

pub record Command : Type 0 where
  pub kind : CommandType
  pub key : Bytes
  pub value : Bytes
  pub seconds : ℤ
  pub raw : Bytes

unfoldable pub is_space : ℕ → Bool
is_space c = c == 32 || (leb 9 c && leb c 13)

unfoldable pub is_digit : ℕ → Bool
is_digit c = leb 48 c && leb c 57

unfoldable pub to_upper : ℕ → ℕ
to_upper c = if leb 97 c && leb c 122 then c - 32 else c

-- The loop on `begin`.
unfoldable pub skip_spaces : Bytes → Bytes
unfolding is_space
skip_spaces [] = []
skip_spaces (c ∷ cs) = if is_space c then skip_spaces cs else c ∷ cs

abbrev pub null : Bytes → Bool
null [] = true
null (c ∷ cs) = false

-- The loop on `end`.
unfoldable pub trim_end : Bytes → Bytes
unfolding is_space
trim_end [] = []
trim_end (c ∷ cs) = let rest = trim_end cs in if (is_space c && null rest) then [] else c ∷ rest

unfoldable pub trim : Bytes → Bytes
unfolding skip_spaces trim_end
trim text = trim_end (skip_spaces text)

unfoldable pub upper_copy : Bytes → Bytes
unfolding to_upper
upper_copy text = map to_upper text

abbrev flush : Bytes → List Bytes → List Bytes
flush [] words = words
flush (c ∷ cs) words = (c ∷ cs) ∷ words

-- `while (input >> word)`: the word so far, and what has not been read.
unfoldable pub word_loop : Bytes → Bytes → List Bytes
unfolding is_space
word_loop word [] = flush word []
word_loop word (c ∷ cs) =
    let rest = word_loop (if is_space c then [] else (word ++ (c ∷ []))) cs in
    if is_space c then flush word rest else rest

unfoldable pub split_words : Bytes → List Bytes
unfolding word_loop
split_words text = word_loop [] text

-- The inner loop that passes a word.
unfoldable pub skip_word : Bytes → Bytes
unfolding is_space
skip_word [] = []
skip_word (c ∷ cs) = if is_space c then c ∷ cs else skip_word cs

-- The outer loop. At the end of the text the function returns "", which nothing after changes.
unfoldable pub skip_words : ℕ → Bytes → Bytes
unfolding skip_spaces skip_word
skip_words zero text = text
skip_words (suc n) text =
    let rest = skip_words n (skip_word (skip_spaces text)) in
    if null (skip_spaces text) then [] else rest

unfoldable pub rest_after_n_words : Bytes → ℕ → Bytes
unfolding skip_words trim
rest_after_n_words text word_count =
    let rest = skip_spaces (skip_words word_count text) in if null rest then [] else trim rest

-- The loop, and the test after it. The result before each step is at most `int_max`, so that the
-- `long long` does not overflow.
unfoldable pub int_loop : ℕ → Bytes → Option ℕ
unfolding is_digit
int_loop result [] = if result == 0 then none else some result
int_loop result (c ∷ cs) =
    let result' = result * 10 + (c - 48) in
    let rest = int_loop result' cs in
    if is_digit c then (if ltb int_max result' then none else rest) else none

unfoldable pub parse_positive_int : Bytes → Option ℕ
unfolding int_loop
parse_positive_int text = if null text then none else int_loop 0 text

abbrev pub make_unknown : Bytes → Command
make_unknown raw = record { kind = unknown; key = []; value = []; seconds = pos 0; raw = raw }

-- `parts[i]`, after a test of the size.
abbrev pub part : List Bytes → ℕ → Bytes
part [] i = []
part (p ∷ ps) zero = p
part (p ∷ ps) (suc i) = part ps i

-- The lambda: checks the number of arguments, and takes the key where there is one.
fill_basic : Bytes → List Bytes → CommandType → ℕ → Command
fill_basic line parts kind expected =
    if length parts == expected
    then record (make_unknown line) {
      kind = kind;
      key = if leb 2 expected then part parts 1 else [];
    }
    else make_unknown line

parse_set : Bytes → Bytes → List Bytes → Command
unfolding rest_after_n_words
parse_set line text parts =
    let value = rest_after_n_words text 2 in
    if ltb (length parts) 3
    then make_unknown line
    else if null value
    then make_unknown line
    else record (make_unknown line) { kind = set; key = part parts 1; value = value }

abbrev expire_with : Bytes → Bytes → Option ℕ → Command
expire_with line key none = make_unknown line
expire_with line key (some seconds) = record (make_unknown line) {
  kind = expire;
  key = key;
  seconds = pos seconds;
}

parse_expire : Bytes → List Bytes → Command
unfolding parse_positive_int
parse_expire line parts =
    if length parts == 3
    then expire_with line (part parts 1) (parse_positive_int (part parts 2))
    else make_unknown line

infix 2 ◌is◌
abbrev ◌is◌ : Bytes → Bytes → Bool
op is name = bytes_beq op name

-- The tests on the command's name, in the order of the source.
dispatch : Bytes → Bytes → List Bytes → Bytes → Command
unfolding fill_basic parse_set parse_expire
dispatch line text parts op =
    if op is codes "PING"
    then fill_basic line parts ping 1
    else if op is codes "STATS"
    then fill_basic line parts stats 1
    else if op is codes "QUIT"
    then fill_basic line parts quit 1
    else if op is codes "HELP"
    then fill_basic line parts help 1
    else if op is codes "GET"
    then fill_basic line parts get 2
    else if op is codes "DEL"
    then fill_basic line parts del 2
    else if op is codes "TTL"
    then fill_basic line parts ttl 2
    else if op is codes "SET"
    then parse_set line text parts
    else if op is codes "EXPIRE"
    then parse_expire line parts
    else make_unknown line

-- The name is the first part. Of a text that is not empty there is one.
parse_parts : Bytes → Bytes → List Bytes → Command
unfolding upper_copy dispatch
parse_parts line text [] = make_unknown line
parse_parts line text (op ∷ args) = dispatch line text (op ∷ args) (upper_copy op)

parse_text : Bytes → Bytes → Command
unfolding split_words parse_parts
parse_text line text =
    if null text then make_unknown line else parse_parts line text (split_words text)

pub parse_command : Bytes → Command
unfolding trim parse_text
parse_command line = parse_text line (trim line)
