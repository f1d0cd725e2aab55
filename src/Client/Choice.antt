-- ===== src/Client/Choice.antt =====
-- That client and server apply the same representation behind TYPE and MODE.
use mathlib.Core.Path.{subst}
use hybrid_ftp.Base.{
  ℕ, ◌≡◌, refl, sym, ap, ◌∙◌, inl, inr, true, false, none, some, List, [], ◌∷◌, ◌++◌, append-nil,
  append_assoc, arith, if◌then◌else◌, Bool-cases, All, All-append_parts,
}
use hybrid_ftp.Text.{Text, text, same, same→eq}
use hybrid_ftp.Parser.{
  is_blank, is_separator, trim, to_upper, split_at_separator, parse_cleaned, parse,
}
use hybrid_ftp.Parser.Trim.{IsTrimmed, single, ends, trim_lem}
use hybrid_ftp.Path.{FileSystem}
use hybrid_ftp.Session.{
  LoginState, logged_in, SessionState, CommandEvent, Handled, type, mode, look_up, verb_of,
}
use hybrid_ftp.Session.Account.{type_command, mode_command}
use hybrid_ftp.Session.Commands.{
  is_rnto, cancel_rename, logged_in_command, check_login, dispatch, handle_command,
}
use hybrid_ftp.Session.Loop.{Recv, without_return}
use hybrid_ftp.Client.{ClientState, starts}
use hybrid_ftp.Client.Replies.{recv_line, is_multi_line, recv_reply}
use hybrid_ftp.Client.Words.{is_space, skip_spaces, span_word}
use hybrid_ftp.Client.Commands.{choose}
use hybrid_ftp.Client.Lines.{all_arriving}

not_space-not_blank : (c : ℕ) → is_space c ≡ false → is_blank c ≡ false
unfolding is_space is_blank
not_space-not_blank c h = ground arith

last_character : (c : ℕ) (t : Text) → (m : Text) × (d : ℕ) × (c ∷ t ≡ m ++ d ∷ [])
last_character c [] = ([], c, refl)
last_character c (x ∷ t) =
    let (m, d, e) = last_character x t in (c ∷ m, d, ap (λ (l : Text). c ∷ l) e)

word-IsTrimmed : (c : ℕ) (t : Text) → All (λ x. is_space x ≡ false) (c ∷ t) → IsTrimmed (c ∷ t)
word-IsTrimmed c [] h = single c (not_space-not_blank c h.0)
word-IsTrimmed c (x ∷ t) h =
    let (m, d, e) = last_character x t in
    let parts : All (λ y. is_space y ≡ false) (m ++ d ∷ []) =
      subst (λ (l : Text). All (λ y. is_space y ≡ false) l) e h.1 in
    let behind_m = All-append_parts (λ y. is_space y ≡ false) m (d ∷ []) parts in
    subst (λ (l : Text). IsTrimmed (c ∷ l)) (sym e)
      (ends c m d (not_space-not_blank c h.0) (not_space-not_blank d behind_m.1.0))

-- A text that begins with no blank in front of one that is trimmed.
front-IsTrimmed :
    (p : ℕ) (front t : Text) → is_blank p ≡ false → IsTrimmed t → IsTrimmed (p ∷ (front ++ t))
front-IsTrimmed p front _ h (single c hc) = ends p front c h hc
front-IsTrimmed p front _ h (ends c m d hc hd) =
    rw (sym (append_assoc front (c ∷ m) (d ∷ []))) (ends p (front ++ c ∷ m) d h hd)

trim_trimmed : (t : Text) → IsTrimmed t → trim t ≡ t
trim_trimmed t h = rw (append-nil t) at (trim_lem [] t [] tt tt h)

span_word_lem : (t : Text) → All (λ c. is_space c ≡ false) t → span_word t ≡ (t, [])
unfolding span_word
span_word_lem [] h = refl
span_word_lem (c ∷ t) h = rw (h.0, span_word_lem t h.1) refl

pub second_word_lem :
    (c : ℕ) (t : Text)
    → All (λ x. is_space x ≡ false) (c ∷ t)
    → span_word (skip_spaces (32 ∷ c ∷ t)) ≡ (c ∷ t, [])
unfolding skip_spaces
second_word_lem c t h = rw h.0 (span_word_lem (c ∷ t) h)

-- The lines "TYPE word" and "MODE word", as the server takes them apart.
parse_type :
    (c : ℕ) (t : Text)
    → All (λ x. is_space x ≡ false) (c ∷ t)
    → parse (text "TYPE " ++ c ∷ t) ≡ record { name = text "TYPE"; argument = c ∷ t; valid = true }
unfolding parse parse_cleaned split_at_separator is_separator is_blank
parse_type c t h =
    let word = word-IsTrimmed c t h in
    rw
      (
        trim_trimmed (text "TYPE " ++ c ∷ t) (front-IsTrimmed 84 (text "YPE ") (c ∷ t) refl word),
        trim_trimmed (c ∷ t) word,
      )
      refl

parse_mode :
    (c : ℕ) (t : Text)
    → All (λ x. is_space x ≡ false) (c ∷ t)
    → parse (text "MODE " ++ c ∷ t) ≡ record { name = text "MODE"; argument = c ∷ t; valid = true }
unfolding parse parse_cleaned split_at_separator is_separator is_blank
parse_mode c t h =
    let word = word-IsTrimmed c t h in
    rw
      (
        trim_trimmed (text "MODE " ++ c ∷ t) (front-IsTrimmed 77 (text "ODE ") (c ∷ t) refl word),
        trim_trimmed (c ∷ t) word,
      )
      refl

-- The session with a pending rename cancelled, in which both commands are run.
abbrev pub unpending : SessionState → SessionState
unpending s = record s { rename_source = none }

module _ {F : Type 0} ⦃fs : FileSystem F⦄ (e : CommandEvent) (f : F) (s : SessionState) where
  type_parsed :
      (c : ℕ) (t : Text)
      → All (λ x. is_space x ≡ false) (c ∷ t)
      → handle_command e f s (text "TYPE " ++ c ∷ t)
        ≡ check_login e f (unpending s) type (c ∷ t) s.login_state
  unfolding handle_command cancel_rename dispatch is_rnto verb_of look_up
  type_parsed c t h = rw (parse_type c t h) refl

  pub type_line :
      (c : ℕ) (t : Text)
      → All (λ x. is_space x ≡ false) (c ∷ t)
      → s.login_state ≡ logged_in
      → handle_command e f s (text "TYPE " ++ c ∷ t) ≡ some (type_command f (unpending s) (c ∷ t))
  unfolding check_login logged_in_command
  type_line c t h login =
      type_parsed c t h
      ∙ ap (λ (l : LoginState). check_login e f (unpending s) type (c ∷ t) l) login

  mode_parsed :
      (c : ℕ) (t : Text)
      → All (λ x. is_space x ≡ false) (c ∷ t)
      → handle_command e f s (text "MODE " ++ c ∷ t)
        ≡ check_login e f (unpending s) mode (c ∷ t) s.login_state
  unfolding handle_command cancel_rename dispatch is_rnto verb_of look_up
  mode_parsed c t h = rw (parse_mode c t h) refl

  pub mode_line :
      (c : ℕ) (t : Text)
      → All (λ x. is_space x ≡ false) (c ∷ t)
      → s.login_state ≡ logged_in
      → handle_command e f s (text "MODE " ++ c ∷ t) ≡ some (mode_command f (unpending s) (c ∷ t))
  unfolding check_login logged_in_command
  mode_line c t h login =
      mode_parsed c t h
      ∙ ap (λ (l : LoginState). check_login e f (unpending s) mode (c ∷ t) l) login

-- Client and server use the same representation.
pub record Agrees (c : ClientState) (s : SessionState) : Type 0 where
  pub same_type : c.client_type ≡ s.transfer_type
  pub same_mode : c.client_mode ≡ s.transfer_mode

-- What the client makes of a reply to one of the two names with a word.
abbrev pub chosen : Text → Text → Text → ClientState → ClientState
chosen name argument reply c =
    if starts (text "200") reply then choose name (to_upper argument) c else c

-- What it reads of the replies.
abbrev pub read_of : {F : Type 0} → ℕ → Handled F → List Recv → Text
read_of n h rest = (recv_reply n (all_arriving h.replies ++ rest)).0

module _ {F : Type 0} (f : F) (s : SessionState) (c : ClientState) (n : ℕ) (rest : List Recv)
    (a : Agrees c s) where
  pub type-Agrees :
      (w : Text)
      → Agrees
          (chosen (text "TYPE") w (read_of n (type_command f s w) rest) c)
          (type_command f s w).session
  unfolding type_command choose to_upper starts recv_reply recv_line is_multi_line without_return
      same
  type-Agrees w = elim (Bool-cases (same w (text "A"))) [
    | inl is_A ↦
        rw (same→eq w (text "A") is_A) (record { same_type = refl; same_mode = a.same_mode })
    | inr not_A ↦ elim (Bool-cases (same w (text "a"))) [
      | inl is_a ↦
          rw (same→eq w (text "a") is_a) (record { same_type = refl; same_mode = a.same_mode })
      | inr not_a ↦ elim (Bool-cases (same w (text "I"))) [
        | inl is_I ↦
            rw (same→eq w (text "I") is_I) (record { same_type = refl; same_mode = a.same_mode })
        | inr not_I ↦ elim (Bool-cases (same w (text "i"))) [
          | inl is_i ↦
              rw (same→eq w (text "i") is_i) (record { same_type = refl; same_mode = a.same_mode })
          | inr not_i ↦ rw (not_A, not_a, not_I, not_i) a
        ]
      ]
    ]
  ]

  pub mode-Agrees :
      (w : Text)
      → Agrees
          (chosen (text "MODE") w (read_of n (mode_command f s w) rest) c)
          (mode_command f s w).session
  unfolding mode_command choose to_upper starts recv_reply recv_line is_multi_line without_return
      same
  mode-Agrees w = elim (Bool-cases (same w (text "S"))) [
    | inl is_S ↦
        rw (same→eq w (text "S") is_S) (record { same_type = a.same_type; same_mode = refl })
    | inr not_S ↦ elim (Bool-cases (same w (text "s"))) [
      | inl is_s ↦
          rw (same→eq w (text "s") is_s) (record { same_type = a.same_type; same_mode = refl })
      | inr not_s ↦ elim (Bool-cases (same w (text "B"))) [
        | inl is_B ↦
            rw (same→eq w (text "B") is_B) (record { same_type = a.same_type; same_mode = refl })
        | inr not_B ↦ elim (Bool-cases (same w (text "b"))) [
          | inl is_b ↦
              rw (same→eq w (text "b") is_b) (record { same_type = a.same_type; same_mode = refl })
          | inr not_b ↦ elim (Bool-cases (same w (text "C"))) [
            | inl is_C ↦
                rw (same→eq w (text "C") is_C)
                  (record { same_type = a.same_type; same_mode = refl })
            | inr not_C ↦ elim (Bool-cases (same w (text "c"))) [
              | inl is_c ↦
                  rw (same→eq w (text "c") is_c)
                    (record { same_type = a.same_type; same_mode = refl })
              | inr not_c ↦ rw (not_S, not_s, not_B, not_b, not_C, not_c) a
            ]
          ]
        ]
      ]
    ]
  ]
