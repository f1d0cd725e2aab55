-- ===== src/Path/Names.antt =====
-- What a listing lets through of the names of files.
use hybrid_ftp.Base.{
  ℕ, ◌≡◌, refl, ap, ◌∙◌, ◌≢◌, List, [], ◌∷◌, ◌++◌, map, append-nil, append_assoc, arith, ◌==◌,
  if◌then◌else◌, All,
}
use hybrid_ftp.Text.{Text}
use hybrid_ftp.Path.Listing.{sanitize_listing_name, new_line, list_lines}

abbrev pub NoBreak : ℕ → Type 0
NoBreak c = (c ≢ 13) × (c ≢ 10)

sanitize-NoBreak : (name : Text) → All NoBreak (sanitize_listing_name name)
unfolding sanitize_listing_name
sanitize-NoBreak [] = tt
sanitize-NoBreak (c ∷ cs) = (ground arith, sanitize-NoBreak cs)

-- A reader of lines: the lines so far and the one it is in. It drops '\r' and ends a line at '\n'.
abbrev pub Reading : Type 0
Reading = List Text × Text

read_char : Reading → ℕ → Reading
read_char (done, line) c =
    if c == 10
    then (done ++ line ∷ [], [])
    else if c == 13
    then (done, line)
    else (done, line ++ c ∷ [])

pub read_lines : Reading → Text → Reading
unfolding read_char
read_lines r [] = r
read_lines r (c ∷ cs) = read_lines (read_char r c) cs

read_char-NoBreak :
    (done : List Text) (line : Text) (c : ℕ)
    → NoBreak c
    → read_char (done, line) c ≡ (done, line ++ c ∷ [])
unfolding read_char
read_char-NoBreak done line c h = ground (arith, h.0, h.1)

read-NoBreak :
    (done : List Text) (line t rest : Text)
    → All NoBreak t
    → read_lines (done, line) (t ++ rest) ≡ read_lines (done, line ++ t) rest
unfolding read_lines
read-NoBreak done line [] rest h = rw (append-nil line) refl
read-NoBreak done line (c ∷ t) rest h =
    ap (λ (r : Reading). read_lines r (t ++ rest)) (read_char-NoBreak done line c h.0)
    ∙ (read-NoBreak done (line ++ c ∷ []) t rest h.1
        ∙ ap (λ (l : Text). read_lines (done, l) rest) (append_assoc line (c ∷ []) t))

read_list_lines :
    (names done : List Text)
    → read_lines (done, []) (list_lines names) ≡ (done ++ map sanitize_listing_name names, [])
unfolding list_lines read_lines
read_list_lines [] done = rw (append-nil done) refl
read_list_lines (n ∷ ns) done =
    let name = sanitize_listing_name n in
    ap (read_lines (done, [])) (append_assoc name new_line (list_lines ns))
    ∙ (read-NoBreak done [] name (new_line ++ list_lines ns) (sanitize-NoBreak n)
        ∙ (read_list_lines ns (done ++ name ∷ [])
            ∙ ap (λ (l : List Text). (l, []))
                (append_assoc done (name ∷ []) (map sanitize_listing_name ns))))

-- Whatever bytes the names of files have, a reader of the lines that NLST sends finds one line for
-- each name, which is the name with '?' in place of its line breaks, and nothing behind them.
pub read_lines-list_lines :
    (names : List Text)
    → read_lines ([], []) (list_lines names) ≡ (map sanitize_listing_name names, [])
read_lines-list_lines names = read_list_lines names []
