-- ===== src/Client/Replies.antt =====
-- src/client/ClientCLI.cpp and src/client/main_client.cpp: the replies of the server, as they are read
-- from the control connection, and the reply to PASV.
use mathlib.Core.Option
use hybrid_ftp.Base.{
  ℕ, zero, suc, ◌+◌, ◌-◌, ◌*◌, ◌%◌, ◌^◌, bit_or, Bool, ◌&&◌, Option, none, some, List, [], ◌∷◌,
  ◌++◌, ltb, leb, ◌==◌, if◌then◌else◌, length, get_or, take,
}
use hybrid_ftp.Text.{Text, is_empty}
use hybrid_ftp.Session.Loop.{Recv, byte, hung_up, interrupted, failed, without_return}
use hybrid_ftp.Client.{starts}

-- `recvControlReply`: a line with its newline, or what came before the connection failed.
unfoldable pub control_reply : List Recv → Text × List Recv
control_reply [] = ([], [])
control_reply (hung_up ∷ es) = ([], es)
control_reply (failed ∷ es) = ([], es)
control_reply (interrupted ∷ es) = control_reply es
control_reply (byte c ∷ es) =
    let rest = control_reply es in if c == 10 then (c ∷ [], es) else (c ∷ rest.0, rest.1)

-- `recvLine` of the program entry, which an interrupted call ends.
unfoldable pub recv_line : Text → List Recv → Text × List Recv
unfolding without_return
recv_line line [] = (line, [])
recv_line line (hung_up ∷ es) = (line, es)
recv_line line (failed ∷ es) = (line, es)
recv_line line (interrupted ∷ es) = (line, es)
recv_line line (byte c ∷ es) =
    let rest = recv_line (line ++ c ∷ []) es in if c == 10 then (without_return line, es) else rest

-- The lines behind the first one, on fuel for the number of lines.
pub more_lines : ℕ → Text → Text → List Recv → Text × List Recv
unfolding recv_line starts
more_lines zero code reply es = (reply, es)
more_lines (suc fuel) code reply es =
    let l = recv_line [] es in
    let reply' = reply ++ 10 ∷ l.0 in
    let rest = more_lines fuel code reply' l.1 in
    if is_empty l.0
    then (reply, l.1)
    else if starts (code ++ 32 ∷ []) l.0
    then (reply', l.1)
    else rest

-- A reply whose fourth character is a dash goes on.
unfoldable pub is_multi_line : Text → Bool
is_multi_line line = leb 4 (length line) && (get_or line 3 0 == 45)

unfoldable pub recv_reply : ℕ → List Recv → Text × List Recv
unfolding recv_line is_multi_line more_lines
recv_reply fuel es =
    let l = recv_line [] es in
    if is_empty l.0
    then ([], l.1)
    else if is_multi_line l.0
    then more_lines fuel (take 3 l.0) l.0 l.1
    else l

-- A digit, `\d`.
unfoldable pub is_digit : ℕ → Bool
is_digit c = leb 48 c && leb c 57

-- The digits at the front, and what is behind them.
unfoldable pub span_digits : Text → Text × Text
unfolding is_digit
span_digits [] = ([], [])
span_digits (c ∷ cs) =
    let rest = span_digits cs in if is_digit c then (c ∷ rest.0, rest.1) else ([], c ∷ cs)

-- `(\d+)`
unfoldable pub match_number : Text → Option (Text × Text)
match_number t = let found = span_digits t in if is_empty found.0 then none else some found

-- `,`
unfoldable pub match_comma : Text → Option Text
match_comma [] = none
match_comma (c ∷ cs) = if c == 44 then some cs else none

-- `(\d+),`
unfoldable pub match_field : Text → Option (Text × Text)
match_field t = elim (match_number t) [
  | none ↦ none
  | some m ↦ Option.map (λ (r : Text). (m.0, r)) (match_comma m.1)
]

-- The texts of the six numbers.
pub record SixTexts : Type 0 where
  pub t1 : Text
  pub t2 : Text
  pub t3 : Text
  pub t4 : Text
  pub t5 : Text
  pub t6 : Text

infixl 20 ◌>>=◌
abbrev ◌>>=◌ {ℓ κ} : {A : Type ℓ} {B : Type κ} → Option A → (A → Option B) → Option B
none >>= f = none
some a >>= f = f a

-- The expression at the front of a text. A digit is no comma, so a shorter run of digits never matches.
unfoldable pub match_six : Text → Option SixTexts
match_six t = do
  a ← match_field t
  b ← match_field a.1
  c ← match_field b.1
  d ← match_field c.1
  e ← match_field d.1
  f ← match_number e.1
  some (record { t1 = a.0; t2 = b.0; t3 = c.0; t4 = d.0; t5 = e.0; t6 = f.0 })

-- `regex_search`: the first place where the expression matches.
unfoldable pub search_six : Text → Option SixTexts
search_six [] = none
search_six (c ∷ cs) = elim (match_six (c ∷ cs)) [ some m ↦ some m | none ↦ search_six cs ]

unfoldable pub value_of : ℕ → Text → ℕ
value_of n [] = n
value_of n (c ∷ cs) = value_of (n * 10 + (c - 48)) cs

-- `std::stoul` of digits; `none`: it throws, since the value is no `unsigned long`.
unfoldable pub stoul : Text → Option ℕ
stoul t = if ltb (value_of 0 t) (2 ^ 64) then some (value_of 0 t) else none

-- `parsePasvReply`: 0 and no address, an exception, or the address and the port.
pub data PasvReply : Type 0 where
  no_match : PasvReply
  overflow : PasvReply
  passive_endpoint : Text → ℕ → PasvReply

unfoldable pub passive_port : Option ℕ → Option ℕ → Text → PasvReply
passive_port none p2 ip = overflow
passive_port (some p1) none ip = overflow
passive_port (some p1) (some p2) ip =
    passive_endpoint ip (bit_or (p1 % 2 ^ 16 * 2 ^ 8) (p2 % 2 ^ 16) % 2 ^ 16)

unfoldable pub endpoint_of : Option SixTexts → PasvReply
endpoint_of none = no_match
endpoint_of (some m) =
    passive_port (stoul m.t5) (stoul m.t6) (m.t1 ++ 46 ∷ m.t2 ++ 46 ∷ m.t3 ++ 46 ∷ m.t4)

unfoldable pub parse_pasv_reply : Text → PasvReply
parse_pasv_reply reply = endpoint_of (search_six reply)
