-- ===== src/Session/Transfers.antt =====
-- What the commands that transfer files do to the files, and what they leave as it is.
use hybrid_ftp.Base.{
  ℕ, ◌≡◌, refl, ◌⊎◌, inl, inr, Bool, true, false, not, Option, none, some, List, arith, ltb,
  if◌then◌else◌,
}
use hybrid_ftp.Codec.{TransferType, ascii, binary, Decoded, ok, fail, stuck}
use hybrid_ftp.Header.{header_size}
use hybrid_ftp.Text.{Text, text, same, is_empty}
use hybrid_ftp.Path.{FilePath, FileSystem, init, is_inside_root, resolve_path, is_path_inside_root}
use hybrid_ftp.Path.Confined.{written, prepared, ConfinedCalls, no_calls, more_calls}
use hybrid_ftp.FileHandler.{write_binary_file, write_text_file}
use hybrid_ftp.Session.{SessionState, Knock, CommandEvent, Outgoing, Handled, reply_line, answer}
use hybrid_ftp.Session.Channel.{
  close_passive, Channel, no_channel, passive_channel, active_channel, open_data_channel,
}
use hybrid_ftp.Session.Download.{
  say, send_file, retr_passive, retr_over, refuse_file, retr_at, retr_command, hash_at,
  hash_command,
}
use hybrid_ftp.Session.Upload.{
  opening_upload, finish_upload, write_upload, store_decoded, store_received, receive_into,
  receive_checked, receive_file, stor_command,
}

-- Two sessions with the same place in the storage, the same login and the same pending rename.
abbrev pub Alike : SessionState → SessionState → Type 0
Alike from s =
    (s.path_manager ≡ from.path_manager)
    × (s.login_state ≡ from.login_state)
    × (s.rename_source ≡ from.rename_source)

pub Alike-refl : (s : SessionState) → Alike s s
Alike-refl s = (refl, refl, refl)

module _ {F : Type 0} ⦃fs : FileSystem F⦄ (from : SessionState) where
  -- The files behind some calls inside the root, and a session that is alike.
  pub record IsTransfer (f : F) (h : Handled F) : Type 0 where
    pub confined : ConfinedCalls from.path_manager f h.files
    pub alike : Alike from h.session

Type-cases : (t : TransferType) → (t ≡ ascii) ⊎ (t ≡ binary)
Type-cases ascii = inl refl
Type-cases binary = inr refl

module _ {F : Type 0} ⦃fs : FileSystem F⦄ (from : SessionState) (f : F) where
  if-IsTransfer :
      (b : Bool) (x y : Handled F)
      → IsTransfer from f x
      → IsTransfer from f y
      → IsTransfer from f (if b then x else y)
  if-IsTransfer true x y hx hy = hx
  if-IsTransfer false x y hx hy = hy

  -- Files `f'` are behind some calls already, and the session stays alike.
  module _ (f' : F) (c : ConfinedCalls from.path_manager f f') (e : CommandEvent) where
    said-IsTransfer :
        (s : SessionState) (rs : List Text) (sent : List Outgoing)
        → Alike from s
        → IsTransfer from f (say f' s rs sent)
    unfolding say
    said-IsTransfer s rs sent same = record { confined = c; alike = same }

    send_file-IsTransfer :
        (s s' : SessionState) (ip : Text) (n : ℕ) (o : Option (List ℕ))
        → Alike from s'
        → IsTransfer from f (send_file f' e s s' ip n o)
    unfolding send_file
    send_file-IsTransfer s s' ip n none same = said-IsTransfer s' _ _ same
    send_file-IsTransfer s s' ip n (some raw) same = said-IsTransfer s' _ _ same

    retr_passive-IsTransfer :
        (s : SessionState) (k : Option Knock) (o : Option (List ℕ))
        → Alike from s
        → IsTransfer from f (retr_passive f' e s k o)
    unfolding retr_passive close_passive
    retr_passive-IsTransfer s none o same = said-IsTransfer s _ _ same
    retr_passive-IsTransfer s (some k) o same =
        if-IsTransfer (ltb k.size header_size) _ _ (said-IsTransfer s _ _ same)
          (send_file-IsTransfer s _ k.ip k.port o same)

    finished-IsTransfer :
        (s : SessionState) (rs : List Text)
        → Alike from s
        → IsTransfer from f (finish_upload f' s rs)
    unfolding finish_upload
    finished-IsTransfer s rs same = record { confined = c; alike = same }

    stored-IsTransfer :
        (s s' : SessionState) (p : FilePath) (append : Bool) (opening : List Text) (d : Decoded)
        → is_inside_root from.path_manager p ≡ true
        → Alike from s'
        → IsTransfer from f (store_decoded f' s s' p append opening d)
    unfolding store_decoded finish_upload write_upload write_binary_file write_text_file
    stored-IsTransfer s s' p append opening (ok bytes) inside same = record {
      confined = elim (Type-cases s.transfer_type) [
        | inl text ↦ rw text (more_calls c (written p bytes append inside))
        | inr image ↦ rw image (more_calls c (written p bytes append inside))
      ];
      alike = same;
    }
    stored-IsTransfer s s' p append opening (fail error output) inside same =
        finished-IsTransfer s' _ same
    stored-IsTransfer s s' p append opening stuck inside same = finished-IsTransfer s' _ same

    received-IsTransfer :
        (s s' : SessionState) (p : FilePath) (append : Bool) (opening : List Text)
        (o : Option (List ℕ))
        → is_inside_root from.path_manager p ≡ true
        → Alike from s'
        → IsTransfer from f (store_received e f' s s' p append opening o)
    unfolding store_received
    received-IsTransfer s s' p append opening none inside same = finished-IsTransfer s' _ same
    received-IsTransfer s s' p append opening (some buffer) inside same =
        stored-IsTransfer s s' p append opening _ inside same

    receive_into-IsTransfer :
        (s : SessionState) (p : FilePath) (append : Bool) (opening : List Text) (ch : Channel)
        → is_inside_root from.path_manager p ≡ true
        → Alike from s
        → IsTransfer from f (receive_into e f' s p append opening ch)
    unfolding receive_into close_passive answer
    receive_into-IsTransfer s p append opening (no_channel r) inside same = record {
      confined = c;
      alike = same;
    }
    receive_into-IsTransfer s p append opening passive_channel inside same =
        received-IsTransfer s _ p append opening e.uploaded inside same
    receive_into-IsTransfer s p append opening (active_channel ip n) inside same =
        if-IsTransfer e.knock_sent _ _
          (received-IsTransfer s s p append opening e.uploaded inside same)
          (finished-IsTransfer s _ same)

module _ {F : Type 0} ⦃fs : FileSystem F⦄ (e : CommandEvent) (f : F) (s : SessionState) where
  prepared-calls :
      (p : FilePath)
      → is_inside_root s.path_manager p ≡ true
      → ConfinedCalls s.path_manager f (fs.create_directories f (init p))
  prepared-calls p inside = more_calls no_calls (prepared p inside)

  pub unchanged-IsTransfer : (r : Text) → IsTransfer s f (answer f s r)
  unfolding answer
  unchanged-IsTransfer r = record { confined = no_calls; alike = Alike-refl s }

  retr_over-IsTransfer :
      (p : FilePath) (ch : Channel)
      → is_inside_root s.path_manager p ≡ true
      → IsTransfer s f (retr_over e f s p ch)
  unfolding retr_over
  retr_over-IsTransfer p (no_channel r) inside = unchanged-IsTransfer r
  retr_over-IsTransfer p passive_channel inside =
      retr_passive-IsTransfer s f _ (prepared-calls p inside) e s e.knock _ (Alike-refl s)
  retr_over-IsTransfer p (active_channel ip n) inside =
      send_file-IsTransfer s f _ (prepared-calls p inside) e s s ip n _ (Alike-refl s)

  -- A file that is not refused is lexically inside the root.
  not_refused-inside :
      (bad a : Text)
      → refuse_file e f s bad a ≡ none
      → is_inside_root s.path_manager (resolve_path s.path_manager a) ≡ true
  unfolding refuse_file is_path_inside_root
  not_refused-inside bad a h = ground arith

  retr_at-IsTransfer :
      (a : Text) (o : Option Text)
      → (o ≡ none → is_inside_root s.path_manager (resolve_path s.path_manager a) ≡ true)
      → IsTransfer s f (retr_at e f s a o)
  unfolding retr_at
  retr_at-IsTransfer a (some r) h = unchanged-IsTransfer r
  retr_at-IsTransfer a none h = retr_over-IsTransfer _ (open_data_channel e s) (h refl)

  pub retr-IsTransfer : (a : Text) → IsTransfer s f (retr_command e f s a)
  unfolding retr_command
  retr-IsTransfer a = retr_at-IsTransfer a _ (not_refused-inside _ a)

  hash_at-IsTransfer : (a : Text) (o : Option Text) → IsTransfer s f (hash_at e f s a o)
  unfolding hash_at
  hash_at-IsTransfer a (some r) = unchanged-IsTransfer r
  hash_at-IsTransfer a none = unchanged-IsTransfer _

  pub hash-IsTransfer : (a : Text) → IsTransfer s f (hash_command e f s a)
  unfolding hash_command
  hash-IsTransfer a = hash_at-IsTransfer a _

  checked-IsTransfer :
      (name : Text) (append skip : Bool) (ch : Channel) (b : Bool)
      → is_path_inside_root s.path_manager name ≡ b
      → IsTransfer s f (
          if not b
          then answer f s (reply_line "550 Access denied.")
          else receive_into e
              (fs.create_directories f (init (resolve_path s.path_manager name)))
              s
              (resolve_path s.path_manager name)
              append
              (opening_upload skip)
              ch)
  unfolding is_path_inside_root
  checked-IsTransfer name append skip ch true h =
      receive_into-IsTransfer s f _ (prepared-calls _ h) e s _ append _ ch h (Alike-refl s)
  checked-IsTransfer name append skip ch false h = unchanged-IsTransfer _

  receive_file-IsTransfer :
      (name : Text) (append skip : Bool) (ch : Channel)
      → IsTransfer s f (receive_file e f s name append skip ch)
  unfolding receive_file receive_checked
  receive_file-IsTransfer name append skip (no_channel r) = unchanged-IsTransfer r
  receive_file-IsTransfer name append skip passive_channel =
      checked-IsTransfer name append skip passive_channel _ refl
  receive_file-IsTransfer name append skip (active_channel ip n) =
      checked-IsTransfer name append skip (active_channel ip n) _ refl

  pub stor-IsTransfer : (append : Bool) (a : Text) → IsTransfer s f (stor_command e f s append a)
  unfolding stor_command
  stor-IsTransfer append a =
      if-IsTransfer s f (is_empty a) _ _ (unchanged-IsTransfer _)
        (receive_file-IsTransfer a append false (open_data_channel e s))

  -- STOU with the name that it has found.
  pub stou_name-IsTransfer :
      (name : Text) (replies : List Text)
      → IsTransfer s f (record (receive_file e f s name false true (open_data_channel e s)) {
        replies = replies;
      })
  stou_name-IsTransfer name replies =
      let t = receive_file-IsTransfer name false true (open_data_channel e s) in
      record { confined = t.confined; alike = t.alike }
