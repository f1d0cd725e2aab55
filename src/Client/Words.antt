-- ===== src/Client/Words.antt =====
-- src/client/ClientCLI.cpp: `trim`, `toUpperFirstWord`, and the words that a string stream gives.
use hybrid_ftp.Base.{ℕ, Bool, ◌&&◌, ◌||◌, [], ◌∷◌, leb, ◌==◌, if◌then◌else◌}
use hybrid_ftp.Text.{Text, find_first_not_of, find_last_not_of, substr}
use hybrid_ftp.Parser.{is_blank, trim_between, to_upper}

-- The characters of `std::isspace`.
unfoldable pub is_space : ℕ → Bool
is_space c = c == 32 || leb 9 c && leb c 13

unfoldable pub skip_spaces : Text → Text
unfolding is_space
skip_spaces [] = []
skip_spaces (c ∷ cs) = let rest = skip_spaces cs in if is_space c then rest else c ∷ cs

unfoldable pub span_word : Text → Text × Text
unfolding is_space
span_word [] = ([], [])
span_word (c ∷ cs) =
    let rest = span_word cs in if is_space c then ([], c ∷ cs) else (c ∷ rest.0, rest.1)

-- `stream >> word`: a word, which is empty at the end, and what is left.
unfoldable pub next_word : Text → Text × Text
unfolding skip_spaces span_word
next_word t = span_word (skip_spaces t)

unfoldable pub first_word : Text → Text
unfolding next_word
first_word t = (next_word t).0

unfoldable pub second_word : Text → Text
unfolding next_word
second_word t = (next_word (next_word t).1).0

unfoldable pub third_word : Text → Text
unfolding next_word
third_word t = (next_word (next_word (next_word t).1).1).0

-- The text in front of the first space.
unfoldable pub before_space : Text → Text
before_space [] = []
before_space (c ∷ cs) = let rest = before_space cs in if c == 32 then [] else c ∷ rest

unfoldable pub to_upper_first_word : Text → Text
unfolding before_space to_upper
to_upper_first_word s = to_upper (before_space s)

-- `ClientCLI::trim`
unfoldable pub client_trim : Text → Text
unfolding trim_between find_first_not_of find_last_not_of substr is_blank
client_trim s = trim_between s (find_first_not_of is_blank s) (find_last_not_of is_blank s)
