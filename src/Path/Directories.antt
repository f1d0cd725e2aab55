-- ===== src/Path/Directories.antt =====
-- src/common/PathManager.cpp: the operations on directories.
use hybrid_ftp.Base.{
  Bool, true, false, not, ◌&&◌, ◌||◌, Option, none, some, List, [], ◌∷◌, ◌++◌, if◌then◌else◌,
}
use hybrid_ftp.Text.{Text, is_empty}
use hybrid_ftp.Path.{
  FilePath, same_path, FileSystem, PathManager, holds, refuted, dot_dot, is_inside_root,
  resolve_path, canonical_inside,
}

-- `generic_string`: the elements with a '/' between them
unfoldable pub join_path : List Text → Text
join_path [] = []
join_path (e ∷ []) = e
join_path (e ∷ (e' ∷ es)) = e ++ 47 ∷ join_path (e' ∷ es)

pub ftp_path_of : Option (List Text) → Text
unfolding join_path
ftp_path_of none = 47 ∷ []
ftp_path_of (some es) = 47 ∷ join_path es

unfoldable pub enter_directory : PathManager → Option FilePath → PathManager × Bool
unfolding is_inside_root
enter_directory m none = (m, false)
enter_directory m (some p) =
    if is_inside_root m p then (record m { current_directory = p }, true) else (m, false)

module _ {F : Type 0} ⦃fs : FileSystem F⦄ where
  unfoldable pub change_directory : F → PathManager → Text → PathManager × Bool
  unfolding is_inside_root resolve_path holds enter_directory
  change_directory f m path =
      let target = resolve_path m path in
      if not (is_inside_root m target)
      then (m, false)
      else if not (holds (fs.exists f target) && holds (fs.is_directory f target))
      then (m, false)
      else enter_directory m (fs.weakly_canonical f target)

  unfoldable pub change_to_parent_directory : F → PathManager → PathManager × Bool
  unfolding same_path change_directory
  change_to_parent_directory f m =
      if same_path m.current_directory m.root_directory
      then (m, false)
      else change_directory f m dot_dot

  unfoldable pub get_current_ftp_path : F → PathManager → Text
  unfolding same_path ftp_path_of
  get_current_ftp_path f m =
      if same_path m.current_directory m.root_directory
      then 47 ∷ []
      else ftp_path_of (fs.relative f m.current_directory m.root_directory)

  unfoldable pub create_directory : F → PathManager → Text → F × Bool
  unfolding is_inside_root resolve_path holds refuted
  create_directory f m path =
      let target = resolve_path m path in
      let result = fs.create_directory f target in
      if is_empty path
      then (f, false)
      else if not (is_inside_root m target)
      then (f, false)
      else if not (refuted (fs.exists f target))
      then (f, false)
      else (result.0, holds result.1)

  unfoldable pub remove_directory_at : F → PathManager → Option FilePath → F × Bool
  unfolding same_path holds
  remove_directory_at f m none = (f, false)
  remove_directory_at f m (some p) =
      let result = fs.remove f p in
      if same_path p m.root_directory || same_path p m.current_directory
      then (f, false)
      else if not (holds (fs.exists f p) && holds (fs.is_directory f p))
      then (f, false)
      else (result.0, holds result.1)

  unfoldable pub remove_directory : F → PathManager → Text → F × Bool
  unfolding is_inside_root resolve_path canonical_inside remove_directory_at
  remove_directory f m path =
      if is_empty path
      then (f, false)
      else if not (is_inside_root m (resolve_path m path))
      then (f, false)
      else remove_directory_at f m (canonical_inside f m path)
