-- ===== src/Client/Agreement.antt =====
-- The lines TYPE and MODE from the client's prompt to the server's session and back.
use hybrid_ftp.Base.{ℕ, ◌≡◌, ap, ◌⊎◌, inl, inr, false, some, List, ◌∷◌, ◌++◌, All}
use hybrid_ftp.Text.{Text, text}
use hybrid_ftp.Parser.{to_upper}
use hybrid_ftp.Path.{FileSystem}
use hybrid_ftp.Session.{logged_in, SessionState, CommandEvent, Handled, look_up}
use hybrid_ftp.Session.Account.{type_command, mode_command}
use hybrid_ftp.Session.Commands.{handle_command}
use hybrid_ftp.Session.Loop.{Recv}
use hybrid_ftp.Client.{ClientState, ClientEvent, shows}
use hybrid_ftp.Client.Replies.{recv_reply}
use hybrid_ftp.Client.Words.{
  is_space, skip_spaces, span_word, next_word, first_word, second_word, before_space,
  to_upper_first_word,
}
use hybrid_ftp.Client.Commands.{
  client_verb, is_pasv_verb, note_passive, note_choice, plain_command, client_command, line_turn,
}
use hybrid_ftp.Client.Lines.{all_arriving}
use hybrid_ftp.Client.Choice.{
  second_word_lem, unpending, type_line, mode_line, Agrees, chosen, read_of, type-Agrees,
  mode-Agrees,
}

module _ (c : ClientState) (ce : ClientEvent) (x : ℕ) (t : Text)
    (h : All (λ y. is_space y ≡ false) (x ∷ t)) where
  type_word : second_word (text "TYPE " ++ x ∷ t) ≡ x ∷ t
  unfolding second_word next_word skip_spaces span_word is_space
  type_word = ap (λ (p : Text × Text). p.0) (second_word_lem x t h)

  type_chosen :
      (line_turn c ce (text "TYPE " ++ x ∷ t)).answered.after
      ≡ chosen (text "TYPE") (x ∷ t) (ce.answers (text "TYPE " ++ x ∷ t)) c
  unfolding line_turn to_upper_first_word before_space to_upper client_verb look_up client_command
      plain_command note_passive note_choice first_word second_word next_word skip_spaces span_word
      is_space shows is_pasv_verb
  type_chosen =
      ap (λ (w : Text). chosen (text "TYPE") w (ce.answers (text "TYPE " ++ x ∷ t)) c) type_word

  mode_word : second_word (text "MODE " ++ x ∷ t) ≡ x ∷ t
  unfolding second_word next_word skip_spaces span_word is_space
  mode_word = ap (λ (p : Text × Text). p.0) (second_word_lem x t h)

  mode_chosen :
      (line_turn c ce (text "MODE " ++ x ∷ t)).answered.after
      ≡ chosen (text "MODE") (x ∷ t) (ce.answers (text "MODE " ++ x ∷ t)) c
  unfolding line_turn to_upper_first_word before_space to_upper client_verb look_up client_command
      plain_command note_passive note_choice first_word second_word next_word skip_spaces span_word
      is_space shows is_pasv_verb
  mode_chosen =
      ap (λ (w : Text). chosen (text "MODE") w (ce.answers (text "MODE " ++ x ∷ t)) c) mode_word

-- The cancelling of a rename has no part in it.
unpending-Agrees : (c : ClientState) (s : SessionState) → Agrees c s → Agrees c (unpending s)
unpending-Agrees c s a = record { same_type = a.same_type; same_mode = a.same_mode }

module _ {F : Type 0} ⦃fs : FileSystem F⦄ (e : CommandEvent) (f : F) (s : SessionState)
    (c : ClientState) (ce : ClientEvent) (n : ℕ) (rest : List Recv) (x : ℕ) (t : Text)
    (h : Handled F) (word : All (λ y. is_space y ≡ false) (x ∷ t))
    (login : s.login_state ≡ logged_in) (a : Agrees c s) where
  type_line-Agrees :
      (line : Text)
      → line ≡ text "TYPE " ++ x ∷ t
      → handle_command e f s line ≡ some h
      → ce.answers line ≡ read_of n h rest
      → Agrees (line_turn c ce line).answered.after h.session
  type_line-Agrees line is_type handled read =
      let g = type_command f (unpending s) (x ∷ t) in
      let there : handle_command e f s (text "TYPE " ++ x ∷ t) ≡ some h = rw is_type at handled in
      let heard : ce.answers (text "TYPE " ++ x ∷ t) ≡ read_of n h rest = rw is_type at read in
      let same_outcome : h ≡ g = cc (there, type_line e f s x t word login) in
      rw (is_type, type_chosen c ce x t word, heard, same_outcome)
        (type-Agrees f (unpending s) c n rest (unpending-Agrees c s a) (x ∷ t))

  mode_line-Agrees :
      (line : Text)
      → line ≡ text "MODE " ++ x ∷ t
      → handle_command e f s line ≡ some h
      → ce.answers line ≡ read_of n h rest
      → Agrees (line_turn c ce line).answered.after h.session
  mode_line-Agrees line is_mode handled read =
      let g = mode_command f (unpending s) (x ∷ t) in
      let there : handle_command e f s (text "MODE " ++ x ∷ t) ≡ some h = rw is_mode at handled in
      let heard : ce.answers (text "MODE " ++ x ∷ t) ≡ read_of n h rest = rw is_mode at read in
      let same_outcome : h ≡ g = cc (there, mode_line e f s x t word login) in
      rw (is_mode, mode_chosen c ce x t word, heard, same_outcome)
        (mode-Agrees f (unpending s) c n rest (unpending-Agrees c s a) (x ∷ t))

-- After TYPE or MODE with any word, in a session that is logged in, client and server apply the same
-- representation if they did before, where the client has read the server's reply to this line. This holds whether the word is accepted or refused.
pub choice-Agrees :
    {F : Type 0} ⦃fs : FileSystem F⦄ (e : CommandEvent) (f : F) (s : SessionState) (c : ClientState)
    (ce : ClientEvent) (n : ℕ) (rest : List Recv) (command : Text) (x : ℕ) (t : Text)
    (h : Handled F)
    → (command ≡ text "TYPE ") ⊎ (command ≡ text "MODE ")
    → All (λ y. is_space y ≡ false) (x ∷ t)
    → s.login_state ≡ logged_in
    → Agrees c s
    → handle_command e f s (command ++ x ∷ t) ≡ some h
    → ce.answers (command ++ x ∷ t) ≡ (recv_reply n (all_arriving h.replies ++ rest)).0
    → Agrees (line_turn c ce (command ++ x ∷ t)).answered.after h.session
choice-Agrees e f s c ce n rest command x t h (inl is_type) word login a handled read =
    type_line-Agrees e f s c ce n rest x t h word login a (command ++ x ∷ t)
      (ap (λ (p : Text). p ++ x ∷ t) is_type) handled read
choice-Agrees e f s c ce n rest command x t h (inr is_mode) word login a handled read =
    mode_line-Agrees e f s c ce n rest x t h word login a (command ++ x ∷ t)
      (ap (λ (p : Text). p ++ x ∷ t) is_mode) handled read
