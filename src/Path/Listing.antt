-- ===== src/Path/Listing.antt =====
-- src/common/PathManager.cpp: the operations that report on files, and the names a listing shows.
use mathlib.Core.Option
use hybrid_ftp.Base.{
  ℕ, zero, suc, ◌+◌, ◌/◌, ◌%◌, Bool, true, false, not, ◌&&◌, ◌||◌, Option, none, some, List, [],
  ◌∷◌, ◌++◌, map, ltb, ◌==◌, if◌then◌else◌,
}
use hybrid_ftp.Text.{Text, text, is_empty}
use hybrid_ftp.Path.{FilePath, FileSystem, PathManager, holds, canonical_inside}

-- No line break of a name reaches the control connection.
unfoldable pub sanitize_listing_name : Text → Text
sanitize_listing_name [] = []
sanitize_listing_name (c ∷ cs) = (if c == 13 || c == 10 then 63 else c) ∷ sanitize_listing_name cs

-- `path::filename`
unfoldable pub file_name : FilePath → Text
file_name [] = []
file_name (e ∷ []) = e
file_name (e ∷ (e' ∷ es)) = file_name (e' ∷ es)

-- `<` of two strings
pub text_less : Text → Text → Bool
text_less [] [] = false
text_less [] (b ∷ bs) = true
text_less (a ∷ as') [] = false
text_less (a ∷ as') (b ∷ bs) = ltb a b || (a == b) && text_less as' bs

-- `std::sort`, whose outcome is determined where no two elements compare as equal.
pub insert_sorted {ℓ} : {A : Type ℓ} → (A → A → Bool) → A → List A → List A
insert_sorted less x [] = x ∷ []
insert_sorted less x (y ∷ ys) =
    let rest = insert_sorted less x ys in if less y x then y ∷ rest else x ∷ (y ∷ ys)

pub sort_by {ℓ} : {A : Type ℓ} → (A → A → Bool) → List A → List A
unfolding insert_sorted
sort_by less [] = []
sort_by less (x ∷ xs) = insert_sorted less x (sort_by less xs)

-- The decimal digits of a number; the number itself is fuel enough.
unfoldable pub decimal_loop : ℕ → ℕ → Text
decimal_loop zero n = []
decimal_loop (suc fuel) n =
    let front = decimal_loop fuel (n / 10) in
    if ltb n 10 then (48 + n) ∷ [] else front ++ (48 + n % 10) ∷ []

unfoldable pub decimal : ℕ → Text
unfolding decimal_loop
decimal n = decimal_loop (suc n) n

abbrev pub new_line : Text
new_line = 13 ∷ 10 ∷ []

pub permission_text : List Bool → Text → Text
permission_text [] cs = []
permission_text (b ∷ bs) [] = []
permission_text (b ∷ bs) (c ∷ cs) = (if b then c else 45) ∷ permission_text bs cs

unfoldable pub list_lines : List Text → Text
unfolding sanitize_listing_name
list_lines [] = []
list_lines (n ∷ ns) = sanitize_listing_name n ++ new_line ++ list_lines ns

-- Every entry has a line, or there is no listing.
pub join_entries : List (Option Text) → Option Text
join_entries [] = some []
join_entries (none ∷ ls) = none
join_entries (some l ∷ ls) = Option.map (λ rest. l ++ new_line ++ rest) (join_entries ls)

pub record PathStatus : Type 0 where
  pub is_directory : Bool
  pub listing : Text

pub name_entries : Option (List FilePath) → Option Text
unfolding list_lines sort_by text_less file_name
name_entries none = none
name_entries (some es) = some (list_lines (sort_by text_less (map file_name es)))

pub status_of_kind : Option Bool → Option Bool → Option Text → Option PathStatus
status_of_kind none file listing = none
status_of_kind (some directory) none listing = none
status_of_kind (some directory) (some file) listing =
    if not directory && not file
    then none
    else Option.map (λ l. record { is_directory = directory; listing = l }) listing

module _ {F : Type 0} ⦃fs : FileSystem F⦄ where
  pub entry_text : F → FilePath → Bool → ℕ → Text
  unfolding sanitize_listing_name file_name decimal permission_text
  entry_text f e directory size =
      text "name="
      ++ sanitize_listing_name (file_name e)
      ++ text ", type="
      ++ (if directory then text "directory" else text "file")
      ++ text ", size="
      ++ decimal size
      ++ text ", permissions="
      ++ permission_text (fs.permissions f e) (text "rwxrwxrwx")

  pub entry_of_kind : F → FilePath → Option Bool → Option Bool → Option Text
  unfolding entry_text
  entry_of_kind f e none file = none
  entry_of_kind f e (some directory) none = none
  entry_of_kind f e (some directory) (some file) =
      if not directory && not file
      then none
      else if file
      then Option.map (entry_text f e directory) (fs.file_size f e)
      else some (entry_text f e directory 0)

  pub format_list_entry : F → FilePath → Option Text
  unfolding entry_of_kind
  format_list_entry f e = entry_of_kind f e (fs.is_directory f e) (fs.is_regular_file f e)

  -- The guard that the reports share: the file is inside the root, and it exists.
  pub existing_inside : F → PathManager → Text → Option FilePath
  unfolding canonical_inside holds
  existing_inside f m path = elim (canonical_inside f m path) [
    | none ↦ none
    | some p ↦ if holds (fs.exists f p) then some p else none
  ]

  pub list_entries : F → Option (List FilePath) → Option Text
  unfolding format_list_entry join_entries sort_by file_name text_less
  list_entries f none = none
  list_entries f (some es) =
      join_entries
        (map (format_list_entry f) (sort_by (λ a b. text_less (file_name a) (file_name b)) es))

  pub list_directory_at : F → Option FilePath → Option Text
  unfolding format_list_entry list_entries holds
  list_directory_at f none = none
  list_directory_at f (some p) = elim (fs.is_regular_file f p) [
    | none ↦ none
    | some true ↦ Option.map (λ l. l ++ new_line) (format_list_entry f p)
    | some false ↦ if holds (fs.is_directory f p) then list_entries f (fs.entries f p) else none
  ]

  unfoldable pub list_directory : F → PathManager → Text → Option Text
  unfolding existing_inside list_directory_at
  list_directory f m path = list_directory_at f (existing_inside f m path)

  pub list_names_at : F → Option FilePath → Option Text
  unfolding name_entries holds sanitize_listing_name file_name
  list_names_at f none = none
  list_names_at f (some p) = elim (fs.is_regular_file f p) [
    | none ↦ none
    | some true ↦ some (sanitize_listing_name (file_name p) ++ new_line)
    | some false ↦ if holds (fs.is_directory f p) then name_entries (fs.entries f p) else none
  ]

  unfoldable pub list_names : F → PathManager → Text → Option Text
  unfolding existing_inside list_names_at
  list_names f m path = list_names_at f (existing_inside f m path)

  pub status_at : F → Option FilePath → Option Text → Option PathStatus
  unfolding status_of_kind
  status_at f none listing = none
  status_at f (some p) listing =
      status_of_kind (fs.is_directory f p) (fs.is_regular_file f p) listing

  unfoldable pub get_status : F → PathManager → Text → Option PathStatus
  unfolding existing_inside list_directory status_at
  get_status f m path =
      if is_empty path
      then none
      else status_at f (existing_inside f m path) (list_directory f m path)

  -- A regular file, for its size or its time.
  pub regular_inside : F → PathManager → Text → Option FilePath
  unfolding existing_inside holds
  regular_inside f m path = elim (existing_inside f m path) [
    | none ↦ none
    | some p ↦ if holds (fs.is_regular_file f p) then some p else none
  ]

  unfoldable pub get_file_size : F → PathManager → Text → Option ℕ
  unfolding regular_inside
  get_file_size f m path =
      if is_empty path
      then none
      else elim (regular_inside f m path) [ none ↦ none | some p ↦ fs.file_size f p ]

  unfoldable pub get_modification_time : F → PathManager → Text → Option Text
  unfolding regular_inside
  get_modification_time f m path = if is_empty path then none else elim (regular_inside f m path) [
    | none ↦ none
    | some p ↦ Option.map fs.time_text (fs.last_write_time f p)
  ]
