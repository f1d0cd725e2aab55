-- ===== src/Parser.antt =====
-- src/common/CommandParser.cpp: a command line is cut into an upper-case name and an argument.
pub mod Trim
pub mod Runs
use mathlib.Core.Option
use hybrid_ftp.Base.{
  ℕ, ◌+◌, ◌-◌, Bool, false, not, ◌&&◌, ◌||◌, Option, none, some, [], ◌∷◌, map, leb, ◌==◌,
  if◌then◌else◌,
}
use hybrid_ftp.Text.{Text, is_empty, find_first_not_of, find_last_not_of, substr}

pub record ParsedCommand : Type 0 where
  pub name : Text
  pub argument : Text
  pub valid : Bool

-- The characters " \t\r\n", and " \t".
unfoldable pub is_blank : ℕ → Bool
is_blank c = c == 32 || c == 9 || c == 13 || c == 10

unfoldable pub is_separator : ℕ → Bool
is_separator c = c == 32 || c == 9

unfoldable pub trim_between : Text → Option ℕ → Option ℕ → Text
trim_between s none last = []
trim_between s (some first) none = []
trim_between s (some first) (some last) = substr s first (last - first + 1)

pub trim : Text → Text
unfolding trim_between find_first_not_of find_last_not_of substr is_blank
trim s = trim_between s (find_first_not_of is_blank s) (find_last_not_of is_blank s)

-- `std::toupper` in the "C" locale, which the program never changes.
pub upper : ℕ → ℕ
upper c = if leb 97 c && leb c 122 then c - 32 else c

unfoldable pub to_upper : Text → Text
unfolding upper
to_upper [] = []
to_upper (c ∷ cs) = upper c ∷ to_upper cs

-- `find_first_of(" \t")`: the text before the separator and the text behind it.
unfoldable pub split_at_separator : Text → Option (Text × Text)
unfolding is_separator
split_at_separator [] = none
split_at_separator (c ∷ cs) =
    let rest = Option.map (λ (p : Text × Text). (c ∷ p.0, p.1)) (split_at_separator cs) in
    if is_separator c then some ([], cs) else rest

unfoldable pub parse_cleaned : Text → Option (Text × Text) → ParsedCommand
unfolding to_upper trim
parse_cleaned cleaned none = record {
  name = to_upper cleaned;
  argument = [];
  valid = not (is_empty (to_upper cleaned));
}
parse_cleaned cleaned (some (head, tail)) = record {
  name = to_upper head;
  argument = trim tail;
  valid = not (is_empty (to_upper head));
}

unfoldable pub parse : Text → ParsedCommand
unfolding parse_cleaned split_at_separator
parse input =
    let cleaned = trim input in
    if is_empty cleaned
    then record { name = []; argument = []; valid = false }
    else parse_cleaned cleaned (split_at_separator cleaned)
