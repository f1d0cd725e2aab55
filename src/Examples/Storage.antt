-- ===== src/Examples/Storage.antt =====
-- Command lines, paths and sessions at concrete inputs, on a store that knows the directories it has.
use hybrid_ftp.Base.{
  ◌≡◌, refl, Bool, true, false, ◌||◌, none, some, List, [], ◌∷◌, ◌++◌, map, if◌then◌else◌,
}
use hybrid_ftp.Codec.{ascii, stream}
use hybrid_ftp.Text.{Text, text}
use hybrid_ftp.Parser.{is_blank, trim, parse}
use hybrid_ftp.Parser.Trim.{IsBlank, IsTrimmed, ends, trim_lem}
use hybrid_ftp.Path.{FilePath, same_path, FileSystem, PathManager, init, is_inside_root}
use hybrid_ftp.Path.Directories.{change_directory, create_directory, remove_directory}
use hybrid_ftp.Path.Files.{delete_file, rename_path}
use hybrid_ftp.Path.Listing.{sanitize_listing_name, list_lines}
use hybrid_ftp.Path.Confined.{Confines, operations-Confines, KeepsRoot, change_directory-KeepsRoot}
use hybrid_ftp.Path.Names.{read_lines, read_lines-list_lines}
use hybrid_ftp.Session.{
  username_accepted, logged_in, mode_none, SessionState, CommandEvent, Handled, reply_line,
}
use hybrid_ftp.Session.Channel.{port_command}
use hybrid_ftp.Session.Commands.{handle_command}
use hybrid_ftp.Session.Authentication.{IsGuarded, verb_in, handle_command-IsGuarded}
use hybrid_ftp.Session.Ports.{IsPortOutcome, port_command-IsPortOutcome}
use hybrid_ftp.Session.Confined.{IsKept}
use hybrid_ftp.Session.Safety.{handle_command-IsKept}

abbrev pub member : List FilePath → FilePath → Bool
member [] p = false
member (d ∷ ds) p = same_path d p || member ds p

abbrev pub without : List FilePath → FilePath → List FilePath
without [] p = []
without (d ∷ ds) p = if same_path d p then without ds p else d ∷ without ds p

-- A store of directories: no files, no links, and no errors.
instance abbrev pub directories : FileSystem (List FilePath)
directories = record {
  weakly_canonical = λ f p. some p;
  exists = λ f p. some (member f p);
  is_directory = λ f p. some (member f p);
  is_regular_file = λ f p. some false;
  file_size = λ f p. none;
  last_write_time = λ f p. none;
  time_text = λ n. [];
  permissions = λ f p. [];
  entries = λ f p. some [];
  relative = λ f p q. none;
  create_directory = λ f p. (p ∷ f, some true);
  remove = λ f p. (without f p, some true);
  rename = λ f p q. (f, false);
  create_directories = λ f p. p ∷ f;
  read_file = λ f p. none;
  write_file = λ f p b a. (p ∷ f, true);
  sha256 = λ b. [];
}

abbrev pub store : List FilePath
store = (text "srv" ∷ []) ∷ (text "srv" ∷ text "docs" ∷ []) ∷ []

abbrev pub manager : PathManager
manager = record { root_directory = text "srv" ∷ []; current_directory = text "srv" ∷ [] }

change_directory-runs :
    (change_directory store manager (text "/docs/../docs")).0.current_directory
    ≡ text "srv" ∷ text "docs" ∷ []
unfolding change_directory init same_path
change_directory-runs = refl

change_directory-refuses : (change_directory store manager (text "../etc")).1 ≡ false
unfolding change_directory init
change_directory-refuses = refl

pub manager-inside : is_inside_root manager manager.current_directory ≡ true
unfolding is_inside_root
manager-inside = refl

change_directory-KeepsRoot_example :
    KeepsRoot manager (change_directory store manager (text "docs"))
change_directory-KeepsRoot_example =
    change_directory-KeepsRoot store manager (text "docs") manager-inside

operations-Confines_example :
    Confines manager store (create_directory store manager (text "new"))
    × (Confines manager store (remove_directory store manager (text "new"))
        × (Confines manager store (delete_file store manager (text "new"))
            × Confines manager store (rename_path store manager (text "new") (text "old"))))
operations-Confines_example = operations-Confines store manager (text "new") (text "old")

abbrev odd_names : List Text
odd_names = (97 ∷ 13 ∷ 10 ∷ 98 ∷ []) ∷ text "c" ∷ []

read_lines-list_lines_example :
    read_lines ([], []) (list_lines odd_names) ≡ (map sanitize_listing_name odd_names, [])
read_lines-list_lines_example = read_lines-list_lines odd_names

parse-runs : (parse (text "  cwd  my docs ")).argument ≡ text "my docs"
unfolding parse
parse-runs = refl

spaces-IsBlank : IsBlank (text "  ")
unfolding is_blank
spaces-IsBlank = (refl, (refl, tt))

word-IsTrimmed : IsTrimmed (text "a b")
unfolding is_blank
word-IsTrimmed = ends 97 (32 ∷ []) 98 refl refl

trim_lem_example : trim (text "  " ++ (text "a b" ++ text "  ")) ≡ text "a b"
trim_lem_example =
    trim_lem (text "  ") (text "a b") (text "  ") spaces-IsBlank spaces-IsBlank word-IsTrimmed

abbrev pub fresh : SessionState
fresh = record {
  login_state = username_accepted;
  username = text "ann";
  transfer_type = ascii;
  transfer_mode = stream;
  path_manager = manager;
  rename_source = none;
  data_mode = mode_none;
  active_ip = [];
  active_port = 0;
  passive_socket = none;
}

abbrev pub event : CommandEvent
event = record {
  scanned = some (record { h1 = 10; h2 = 0; h3 = 0; h4 = 1; p1 = 19; p2 = 136 });
  bound = some 40000;
  socket_ip = text "10.0.0.2";
  reply_sent = true;
  knock = none;
  delivered = true;
  knock_sent = true;
  uploaded = none;
  aborted = false;
  unique_rounds = 10;
}

handle_command-IsGuarded_example :
    IsGuarded store fresh
      (parse (text "PASS secret")).valid
      (verb_in (text "PASS secret"))
      (handle_command event store fresh (text "PASS secret"))
handle_command-IsGuarded_example =
    handle_command-IsGuarded event store fresh (text "PASS secret") (λ e. cc)

port_command-IsPortOutcome_example :
    IsPortOutcome store fresh
      (text "10,0,0,1,19,136")
      event.scanned
      (port_command store event fresh (text "10,0,0,1,19,136"))
port_command-IsPortOutcome_example =
    port_command-IsPortOutcome store fresh event (text "10,0,0,1,19,136")

-- A session that has logged in, at the root.
abbrev pub ready : SessionState
ready = record fresh { login_state = logged_in }

abbrev made : Handled (List FilePath)
made = record {
  files = (text "srv" ∷ text "new" ∷ []) ∷ store;
  session = ready;
  replies = reply_line "257 Directory created successfully." ∷ [];
  sent = [];
  quits = false;
}

handle_command-makes : handle_command event store ready (text "mkd new") ≡ some made
unfolding handle_command
handle_command-makes = refl

handle_command-IsKept_example : IsKept store ready made
handle_command-IsKept_example =
    handle_command-IsKept event store ready (text "mkd new") made manager-inside
      handle_command-makes
