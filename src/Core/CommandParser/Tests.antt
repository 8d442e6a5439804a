-- ===== src/Core/CommandParser/Tests.antt =====
-- Runs of src/core/command_parser.cpp.
use tinykvcache.Prelude.{◌≡◌, ◌↔◌, refl, [], some, arith}
use tinykvcache.Prelude.Int.{pos}
use tinykvcache.Prelude.Text.{codes}
use tinykvcache.Core.CommandParser.{
  set, expire, parse_command, parse_positive_int, is_space, trim, skip_spaces, trim_end,
}
use tinykvcache.Core.CommandParser.Numbers.{IsPositiveInt, parse_positive_int_iff}
use tinykvcache.Core.CommandParser.Words.{IsWord, IsTrimmed, Spaces}
use tinykvcache.Core.CommandParser.Accepts.{IsWellFormed, parse_command-IsWellFormed}
use tinykvcache.Core.CommandParser.Lines.{
  set_line, expire_line, parse_command-set_line, parse_command-expire_line,
}

pub key-IsWord : IsWord (codes "k")
unfolding is_space
key-IsWord = (refl, (refl, tt))

pub value-IsTrimmed : IsTrimmed (codes "a  b")
unfolding trim skip_spaces trim_end is_space
value-IsTrimmed = (refl, refl)

Spaces-two : Spaces (codes "  ")
unfolding is_space
Spaces-two = (refl, (refl, tt))

parse_command-set_line_example : parse_command (set_line (codes "k") (codes "a  b")) ≡ record {
  kind = set;
  key = codes "k";
  value = codes "a  b";
  seconds = pos 0;
  raw = set_line (codes "k") (codes "a  b");
}
parse_command-set_line_example =
    parse_command-set_line (codes "k") (codes "a  b") key-IsWord value-IsTrimmed

parse_command-expire_line_example : parse_command (expire_line (codes "k") 12) ≡ record {
  kind = expire;
  key = codes "k";
  value = [];
  seconds = pos 12;
  raw = expire_line (codes "k") 12;
}
parse_command-expire_line_example =
    parse_command-expire_line (codes "k") 12 key-IsWord (omega arith) (omega arith)

parse_command-IsWellFormed_example :
    IsWellFormed (codes "set k v") (parse_command (codes "set k v"))
parse_command-IsWellFormed_example = parse_command-IsWellFormed (codes "set k v")

parse_positive_int_iff_example :
    (parse_positive_int (codes "2147483647") ≡ some 2147483647)
    ↔ IsPositiveInt (codes "2147483647") 2147483647
parse_positive_int_iff_example = parse_positive_int_iff (codes "2147483647") 2147483647
