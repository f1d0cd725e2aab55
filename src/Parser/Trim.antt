-- ===== src/Parser/Trim.antt =====
-- What `trim` leaves of a text: the part between its blanks.
use hybrid_ftp.Base.{
  ℕ, ◌+◌, ◌-◌, ◌<◌, ◌≡◌, refl, true, false, none, some, [], ◌∷◌, ◌++◌, append_assoc, arith, length,
  All, length-append, take-append, drop-append,
}
use hybrid_ftp.Text.{Text, find_first_not_of, find_last_not_of, substr}
use hybrid_ftp.Parser.{is_blank, trim_between, trim}

-- All blanks.
abbrev pub IsBlank : Text → Type 0
IsBlank s = All (λ c. is_blank c ≡ true) s

-- The text has a first and a last character, and neither is a blank.
pub data IsTrimmed : Text → Type 0 where
  single : (c : ℕ) → is_blank c ≡ false → IsTrimmed (c ∷ [])
  ends :
      (c : ℕ) (middle : Text) (d : ℕ)
      → is_blank c ≡ false
      → is_blank d ≡ false
      → IsTrimmed (c ∷ (middle ++ d ∷ []))

find_first-blank :
    (b : Text) (c : ℕ) (r : Text)
    → IsBlank b
    → is_blank c ≡ false
    → find_first_not_of is_blank (b ++ c ∷ r) ≡ some (length b)
unfolding find_first_not_of
find_first-blank [] c r hb hc = rw hc refl
find_first-blank (x ∷ b) c r hb hc = rw (hb.0, find_first-blank b c r hb.1 hc) refl

find_first-all_blank : (b : Text) → IsBlank b → find_first_not_of is_blank b ≡ none
unfolding find_first_not_of
find_first-all_blank [] h = refl
find_first-all_blank (x ∷ b) h = rw (h.0, find_first-all_blank b h.1) refl

find_last-all_blank : (e : Text) → IsBlank e → find_last_not_of is_blank e ≡ none
unfolding find_last_not_of
find_last-all_blank [] h = refl
find_last-all_blank (x ∷ e) h = rw (find_last-all_blank e h.1, h.0) refl

find_last-blank :
    (l : Text) (d : ℕ) (e : Text)
    → is_blank d ≡ false
    → IsBlank e
    → find_last_not_of is_blank (l ++ d ∷ e) ≡ some (length l)
unfolding find_last_not_of
find_last-blank [] d e hd he = rw (find_last-all_blank e he, hd) refl
find_last-blank (x ∷ l) d e hd he = rw (find_last-blank l d e hd he) refl

-- A text of blanks leaves nothing.
pub trim_blank : (b : Text) → IsBlank b → trim b ≡ []
unfolding trim
trim_blank b h = rw (find_first-all_blank b h) refl

trim_between_lem :
    (b m e : Text) (last : ℕ)
    → last + 1 ≡ length b + length m
    → 0 < length m
    → trim_between (b ++ (m ++ e)) (some (length b)) (some last) ≡ m
unfolding trim_between substr
trim_between_lem b m e last h pos =
    let count : last - length b + 1 ≡ length m = omega arith in
    rw (count, drop-append (length b) b (m ++ e) refl) (take-append (length m) m e refl)

find_last-ends :
    (b : Text) (c : ℕ) (middle : Text) (d : ℕ) (e : Text)
    → is_blank d ≡ false
    → IsBlank e
    → find_last_not_of is_blank (b ++ (c ∷ (middle ++ d ∷ []) ++ e))
      ≡ some (length (b ++ c ∷ middle))
find_last-ends b c middle d e hd he =
    let shape : b ++ (c ∷ (middle ++ d ∷ []) ++ e) ≡ (b ++ c ∷ middle) ++ d ∷ e =
      rw (append_assoc b (c ∷ middle) (d ∷ e), append_assoc middle (d ∷ []) e) refl in
    rw shape (find_last-blank (b ++ c ∷ middle) d e hd he)

-- A part that begins and ends with no blank is what is left of it between blanks.
pub trim_lem : (b m e : Text) → IsBlank b → IsBlank e → IsTrimmed m → trim (b ++ (m ++ e)) ≡ m
unfolding trim
trim_lem b _ e hb he (single c hc) =
    rw (find_first-blank b c e hb hc, find_last-blank b c e hc he)
      (trim_between_lem b (c ∷ []) e (length b) (omega arith) (omega arith))
trim_lem b _ e hb he (ends c middle d hc hd) =
    rw (find_first-blank b c ((middle ++ d ∷ []) ++ e) hb hc, find_last-ends b c middle d e hd he)
      (trim_between_lem b (c ∷ (middle ++ d ∷ [])) e (length (b ++ c ∷ middle))
        (omega (arith, length-append b (c ∷ middle), length-append middle (d ∷ []))) (omega arith))
