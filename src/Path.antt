-- ===== src/Path.antt =====
-- src/common/PathManager.cpp: the paths of the server's storage, and the object that resolves what a
-- client names. The file system that the C++ library reaches is the interface `FileSystem`; paths
-- are those of a POSIX system.
pub mod Normal
pub mod Directories
pub mod Files
pub mod Listing
pub mod Confined
pub mod Names
pub mod Root
pub mod Unique
pub mod FreeName
use hybrid_ftp.Base.{
  ℕ, Bool, true, false, not, ◌&&◌, ◌||◌, Option, none, some, List, [], ◌∷◌, ◌++◌, ◌==◌,
  if◌then◌else◌,
}
use hybrid_ftp.Text.{Text, same, is_empty}

-- The elements of an absolute path behind its root directory; a trailing separator is an empty last
-- element, as it is for the iterators of `std::filesystem::path`.
abbrev pub FilePath : Type 0
FilePath = List Text

unfoldable pub same_path : FilePath → FilePath → Bool
same_path [] [] = true
same_path [] (y ∷ ys) = false
same_path (x ∷ xs) [] = false
same_path (x ∷ xs) (y ∷ ys) = same x y && same_path xs ys

-- What the C++ library answers about files and does to them. An `Option` is `none` where the call
-- reports an error.
pub record FileSystem (F : Type 0) : Type 0 where
  pub weakly_canonical : F → FilePath → Option FilePath
  pub exists : F → FilePath → Option Bool
  pub is_directory : F → FilePath → Option Bool
  pub is_regular_file : F → FilePath → Option Bool
  pub file_size : F → FilePath → Option ℕ
  -- `last_write_time`, and the text `gmtime_r` and `put_time` make of it
  pub last_write_time : F → FilePath → Option ℕ
  pub time_text : ℕ → Text
  -- the permission bits of `status`, from `owner_read` to `others_exec`
  pub permissions : F → FilePath → List Bool
  -- the directory iterator, in its own order
  pub entries : F → FilePath → Option (List FilePath)
  -- `relative path base`, by its elements
  pub relative : F → FilePath → FilePath → Option (List Text)
  pub create_directory : F → FilePath → F × Option Bool
  pub remove : F → FilePath → F × Option Bool
  -- whether the call ended without an error
  pub rename : F → FilePath → FilePath → F × Bool
  -- errors are not looked at
  pub create_directories : F → FilePath → F
  -- a file that is opened and read as a whole
  pub read_file : F → FilePath → Option (List ℕ)
  -- bytes that are written to a file, behind its content or in its place, and whether that went well
  pub write_file : F → FilePath → List ℕ → Bool → F × Bool
  -- `SHA256` of OpenSSL
  pub sha256 : List ℕ → List ℕ

pub record PathManager : Type 0 where
  pub root_directory : FilePath
  pub current_directory : FilePath

-- `true` without an error.
pub holds : Option Bool → Bool
holds none = false
holds (some b) = b

-- `false` without an error.
pub refuted : Option Bool → Bool
refuted none = false
refuted (some b) = not b

-- The text cut at each '/'.
pub split_path : Text → List Text
split_path [] = [] ∷ []
split_path (c ∷ cs) =
    let rest = split_path cs in
    if c == 47 then [] ∷ rest else elim rest [ [] ↦ (c ∷ []) ∷ [] | e ∷ es ↦ (c ∷ e) ∷ es ]

-- `begin() == '/'`
pub is_absolute : Text → Bool
is_absolute [] = false
is_absolute (c ∷ cs) = c == 47

abbrev pub dot : Text
dot = 46 ∷ []

abbrev pub dot_dot : Text
dot_dot = 46 ∷ 46 ∷ []

unfoldable pub init {ℓ} : {A : Type ℓ} → List A → List A
init [] = []
init (x ∷ []) = []
init (x ∷ (y ∷ ys)) = x ∷ init (y ∷ ys)

-- The names so far, and whether a separator ends them.
abbrev pub Walk : Type 0
Walk = List Text × Bool

pub walk_element : Walk → Text → Walk
unfolding same
walk_element (names, trailing) e =
    if is_empty e || same e dot
    then (names, true)
    else if same e dot_dot
    then (init names, true)
    else (names ++ e ∷ [], false)

pub walk : Walk → List Text → Walk
unfolding walk_element
walk w [] = w
walk w (e ∷ es) = walk (walk_element w e) es

pub walked_path : Walk → FilePath
walked_path ([], trailing) = []
walked_path (n ∷ ns, trailing) = if trailing then n ∷ ns ++ [] ∷ [] else n ∷ ns

-- What the `lexically_normal` of std::filesystem makes of an absolute path.
pub lexically_normal : FilePath → FilePath
unfolding walk walked_path
lexically_normal p = walked_path (walk ([], false) p)

-- The loop over two iterators: the first path is the front of the second.
pub is_front : FilePath → FilePath → Bool
unfolding same
is_front [] p = true
is_front (r ∷ rs) [] = false
is_front (r ∷ rs) (e ∷ es) = same r e && is_front rs es

unfoldable pub is_inside_root : PathManager → FilePath → Bool
unfolding is_front lexically_normal
is_inside_root m p = is_front m.root_directory (lexically_normal p)

unfoldable pub resolve_path : PathManager → Text → FilePath
unfolding lexically_normal split_path is_absolute
resolve_path m input =
    if is_empty input
    then m.current_directory
    else if is_absolute input
    then lexically_normal (m.root_directory ++ split_path input)
    else lexically_normal (m.current_directory ++ split_path input)

unfoldable pub is_path_inside_root : PathManager → Text → Bool
unfolding is_inside_root resolve_path
is_path_inside_root m path = is_inside_root m (resolve_path m path)

pub canonical_filter : PathManager → Option FilePath → Option FilePath
unfolding is_inside_root
canonical_filter m none = none
canonical_filter m (some p) = if is_inside_root m p then some p else none

module _ {F : Type 0} ⦃fs : FileSystem F⦄ where
  -- The file that a client's text names, with its symbolic links followed, if it is inside the root.
  pub canonical_inside : F → PathManager → Text → Option FilePath
  unfolding canonical_filter resolve_path
  canonical_inside f m path = canonical_filter m (fs.weakly_canonical f (resolve_path m path))
