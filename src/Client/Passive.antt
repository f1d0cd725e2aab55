-- ===== src/Client/Passive.antt =====
-- That the client understands the server's reply to PASV.
use hybrid_ftp.Base.{
  ℕ, ◌*◌, ◌/◌, ◌%◌, ◌^◌, ◌≤◌, ◌<◌, bit_or, ◌≡◌, refl, ap, ◌∙◌, true, false, some, [], ◌∷◌, ◌++◌,
  append_assoc, arith, ltb, lt→ltb, length, take, length-append, take_all, bit_or-byte,
}
use hybrid_ftp.Text.{Text, text}
use hybrid_ftp.Path.Listing.{decimal}
use hybrid_ftp.Session.{PortNumbers, reply_line}
use hybrid_ftp.Session.Channel.{out_of_range, dotted, commas, passive_reply}
use hybrid_ftp.Client.Replies.{
  is_digit, span_digits, match_number, match_comma, match_field, SixTexts, match_six, search_six,
  stoul, passive_endpoint, passive_port, endpoint_of, parse_pasv_reply,
}
use hybrid_ftp.Client.Digits.{
  IsDigits, decimal-IsDigits, value_of-decimal, length-decimal, match_number-decimal,
}

-- `match_six` of six numbers with commas between them.
abbrev six : ℕ → ℕ → ℕ → ℕ → ℕ → ℕ → Text → Text
six a b c d e f rest =
    decimal a
    ++ 44
      ∷ (decimal b
          ++ 44 ∷ (decimal c ++ 44 ∷ (decimal d ++ 44 ∷ (decimal e ++ 44 ∷ (decimal f ++ rest)))))

match_field-decimal : (n : ℕ) (r : Text) → match_field (decimal n ++ 44 ∷ r) ≡ some (decimal n, r)
unfolding match_field match_comma is_digit
match_field-decimal n r = rw (match_field, match_number-decimal n 44 r refl) refl

abbrev texts_of : ℕ → ℕ → ℕ → ℕ → ℕ → ℕ → SixTexts
texts_of a b c d e f = record {
  t1 = decimal a;
  t2 = decimal b;
  t3 = decimal c;
  t4 = decimal d;
  t5 = decimal e;
  t6 = decimal f;
}

match_six-six :
    (a b c d e f : ℕ) (r : Text)
    → match_six (six a b c d e f (41 ∷ r)) ≡ some (texts_of a b c d e f)
unfolding match_six is_digit
match_six-six a b c d e f r =
    rw
      (
        match_field-decimal a,
        match_field-decimal b,
        match_field-decimal c,
        match_field-decimal d,
        match_field-decimal e,
        match_number-decimal f 41 r refl,
      )
      refl

no_six : (m : SixTexts) → ¬ (match_six [] ≡ some m)
unfolding match_six match_field match_number span_digits
no_six m h = cc

search_six-match : (t : Text) (m : SixTexts) → match_six t ≡ some m → search_six t ≡ some m
unfolding search_six
search_six-match [] m h = absurd (no_six m h)
search_six-match (c ∷ cs) m h = rw (search_six, h) refl

stoul-decimal : (n : ℕ) → n < 256 → stoul (decimal n) ≡ some n
unfolding stoul
stoul-decimal n h =
    let small : ltb n (2 ^ 64) ≡ true = lt→ltb n (2 ^ 64) (omega arith) in
    rw (value_of-decimal n, small) refl

-- The text in front of the numbers has none that the expression would match.
search_six-opening :
    (t : Text) → search_six (text "227 Entering Passive Mode (" ++ t) ≡ search_six t
unfolding search_six match_six match_field match_number match_comma span_digits is_digit
search_six-opening t = refl

commas-append : (s t : Text) → commas (s ++ t) ≡ commas s ++ commas t
unfolding commas
commas-append [] t = refl
commas-append (c ∷ s) t = rw (commas-append s t) refl

commas-IsDigits : (t : Text) → IsDigits t → commas t ≡ t
unfolding commas is_digit
commas-IsDigits [] h = refl
commas-IsDigits (c ∷ t) h = rw (commas-IsDigits t h.1) (ground arith)

commas-joined :
    (a b c d : Text)
    → IsDigits a
    → IsDigits b
    → IsDigits c
    → IsDigits d
    → commas (a ++ 46 ∷ b ++ 46 ∷ c ++ 46 ∷ d) ≡ a ++ 44 ∷ b ++ 44 ∷ c ++ 44 ∷ d
unfolding commas
commas-joined a b c d ha hb hc hd =
    rw
      (
        commas-append ((a ++ 46 ∷ b) ++ 46 ∷ c) (46 ∷ d),
        commas-append (a ++ 46 ∷ b) (46 ∷ c),
        commas-append a (46 ∷ b),
        commas-IsDigits a ha,
        commas-IsDigits b hb,
        commas-IsDigits c hc,
        commas-IsDigits d hd,
      )
      refl

commas-dotted :
    (n : PortNumbers)
    → commas (dotted n)
      ≡ decimal n.h1 ++ 44 ∷ decimal n.h2 ++ 44 ∷ decimal n.h3 ++ 44 ∷ decimal n.h4
unfolding dotted
commas-dotted n =
    commas-joined (decimal n.h1) (decimal n.h2) (decimal n.h3) (decimal n.h4)
      (decimal-IsDigits n.h1) (decimal-IsDigits n.h2) (decimal-IsDigits n.h3)
      (decimal-IsDigits n.h4)

-- The whole reply, on three texts.
reply_text : (ip hi lo : Text) → Text
reply_text ip hi lo =
    text "227 Entering Passive Mode (" ++ ip ++ 44 ∷ hi ++ 44 ∷ lo ++ reply_line ")."

bytes_of_numbers :
    (n : PortNumbers)
    → out_of_range n ≡ false
    → (n.h1 < 256) × (n.h2 < 256) × (n.h3 < 256) × (n.h4 < 256)
unfolding out_of_range
bytes_of_numbers n h = (ground arith, ground arith, ground arith, ground arith)

cut_reply :
    (ip : Text) (p : ℕ)
    → passive_reply ip p
      ≡ take 127 (reply_text (commas ip) (decimal (p / 2 ^ 8 % 2 ^ 8)) (decimal (p % 2 ^ 8)))
unfolding passive_reply reply_text
cut_reply ip p = refl

abbrev joined_six : (a b c d e f rest : Text) → Text
joined_six a b c d e f rest = a ++ 44 ∷ (b ++ 44 ∷ (c ++ 44 ∷ (d ++ 44 ∷ (e ++ 44 ∷ (f ++ rest)))))

reply_joined :
    (a b c d e f : Text)
    → reply_text (a ++ 44 ∷ b ++ 44 ∷ c ++ 44 ∷ d) e f
      ≡ text "227 Entering Passive Mode (" ++ joined_six a b c d e f (reply_line ").")
unfolding reply_text
reply_joined a b c d e f = simp append_assoc

reply_length :
    (a b c d e f : Text)
    → length a ≤ 3
    → length b ≤ 3
    → length c ≤ 3
    → length d ≤ 3
    → length e ≤ 3
    → length f ≤ 3
    → length (joined_six a b c d e f (reply_line ").")) ≤ 27
reply_length a b c d e f ha hb hc hd he hf = omega (
  arith,
  length-append a (44 ∷ (b ++ 44 ∷ (c ++ 44 ∷ (d ++ 44 ∷ (e ++ 44 ∷ (f ++ reply_line ").")))))),
  length-append b (44 ∷ (c ++ 44 ∷ (d ++ 44 ∷ (e ++ 44 ∷ (f ++ reply_line ")."))))),
  length-append c (44 ∷ (d ++ 44 ∷ (e ++ 44 ∷ (f ++ reply_line ").")))),
  length-append d (44 ∷ (e ++ 44 ∷ (f ++ reply_line ")."))),
  length-append e (44 ∷ (f ++ reply_line ").")),
  length-append f (reply_line ")."),
)

joined_port :
    (p : ℕ)
    → p < 2 ^ 16
    → bit_or (p / 2 ^ 8 % 2 ^ 8 % 2 ^ 16 * 2 ^ 8) (p % 2 ^ 8 % 2 ^ 16) % 2 ^ 16 ≡ p
joined_port p h =
    let hi : p / 2 ^ 8 % 2 ^ 8 % 2 ^ 16 ≡ p / 256 = omega arith in
    let lo : p % 2 ^ 8 % 2 ^ 16 ≡ p % 256 = omega arith in
    rw (hi, lo, bit_or-byte (p / 256) (p % 256) (omega arith)) (omega arith)

-- The reply is not cut off, and it has the six numbers between commas.
passive_reply_lem :
    (n : PortNumbers) (p : ℕ)
    → out_of_range n ≡ false
    → passive_reply (dotted n) p
      ≡ text "227 Entering Passive Mode ("
        ++ six n.h1 n.h2 n.h3 n.h4 (p / 2 ^ 8 % 2 ^ 8) (p % 2 ^ 8) (reply_line ").")
passive_reply_lem n p h =
    let (h1, h2, h3, h4) = bytes_of_numbers n h in
    let hi = decimal (p / 2 ^ 8 % 2 ^ 8) in
    let lo = decimal (p % 2 ^ 8) in
    let short =
      reply_length (decimal n.h1) (decimal n.h2) (decimal n.h3) (decimal n.h4) hi lo
        (length-decimal n.h1 (omega arith)) (length-decimal n.h2 (omega arith))
        (length-decimal n.h3 (omega arith)) (length-decimal n.h4 (omega arith))
        (length-decimal (p / 2 ^ 8 % 2 ^ 8) (omega arith))
        (length-decimal (p % 2 ^ 8) (omega arith)) in
    cut_reply (dotted n) p
    ∙ ap (λ (t : Text). take 127 (reply_text t hi lo)) (commas-dotted n)
    ∙ ap (λ (t : Text). take 127 t)
        (reply_joined (decimal n.h1) (decimal n.h2) (decimal n.h3) (decimal n.h4) hi lo)
    ∙ take_all 127 _ (omega (arith, short))

-- The regular expression finds the server's numbers in its reply.
search_six-passive_reply :
    (n : PortNumbers) (p : ℕ)
    → out_of_range n ≡ false
    → search_six (passive_reply (dotted n) p)
      ≡ some (texts_of n.h1 n.h2 n.h3 n.h4 (p / 2 ^ 8 % 2 ^ 8) (p % 2 ^ 8))
search_six-passive_reply n p h =
    ap search_six (passive_reply_lem n p h)
    ∙ search_six-opening _
    ∙ search_six-match _ _
        (match_six-six n.h1 n.h2 n.h3 n.h4 (p / 2 ^ 8 % 2 ^ 8) (p % 2 ^ 8) (46 ∷ 13 ∷ 10 ∷ []))

-- The client's `parsePasvReply` gives back the address and the port that the server has put into its
-- reply, for an address of four numbers below 256 and any port of 16 bits.
pub parse_pasv_reply-passive_reply :
    (n : PortNumbers) (p : ℕ)
    → out_of_range n ≡ false
    → p < 2 ^ 16
    → parse_pasv_reply (passive_reply (dotted n) p) ≡ passive_endpoint (dotted n) p
unfolding parse_pasv_reply endpoint_of dotted passive_port
parse_pasv_reply-passive_reply n p h small =
    rw
      (
        search_six-passive_reply n p h,
        stoul-decimal (p / 2 ^ 8 % 2 ^ 8) (omega arith),
        stoul-decimal (p % 2 ^ 8) (omega arith),
      )
      (ap (passive_endpoint (dotted n)) (joined_port p small))
