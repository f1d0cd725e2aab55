-- ===== src/Path/Files.antt =====
-- src/common/PathManager.cpp: the operations that delete and rename.
use hybrid_ftp.Base.{
  Bool, true, false, not, ◌&&◌, ◌||◌, Option, none, some, List, [], ◌∷◌, if◌then◌else◌,
}
use hybrid_ftp.Text.{Text, same, is_empty}
use hybrid_ftp.Path.{
  FilePath, same_path, FileSystem, PathManager, holds, refuted, dot_dot, init, is_inside_root,
  resolve_path, canonical_filter, canonical_inside,
}

-- The way from the directory to the current one begins with "..".
pub leads_out : Option (List Text) → Bool
unfolding same
leads_out none = false
leads_out (some []) = false
leads_out (some (e ∷ es)) = same e dot_dot

-- The last element is empty, or there is none.
pub has_no_filename : FilePath → Bool
has_no_filename [] = true
has_no_filename (e ∷ []) = is_empty e
has_no_filename (e ∷ (e' ∷ es)) = has_no_filename (e' ∷ es)

module _ {F : Type 0} ⦃fs : FileSystem F⦄ where
  unfoldable pub delete_file_at : F → Option FilePath → F × Bool
  unfolding holds
  delete_file_at f none = (f, false)
  delete_file_at f (some p) =
      let result = fs.remove f p in
      if not (holds (fs.exists f p) && holds (fs.is_regular_file f p))
      then (f, false)
      else (result.0, holds result.1)

  unfoldable pub delete_file : F → PathManager → Text → F × Bool
  unfolding is_inside_root resolve_path canonical_inside delete_file_at
  delete_file f m path =
      if is_empty path
      then (f, false)
      else if not (is_inside_root m (resolve_path m path))
      then (f, false)
      else delete_file_at f (canonical_inside f m path)

  pub can_rename_kind : F → PathManager → FilePath → Option Bool → Option Bool → Bool
  unfolding same_path leads_out
  can_rename_kind f m p none directory = false
  can_rename_kind f m p (some file) none = false
  can_rename_kind f m p (some file) (some directory) =
      if not file && not directory
      then false
      else if same_path p m.root_directory
      then false
      else if directory
      then leads_out (fs.relative f m.current_directory p)
      else true

  pub can_rename_at : F → PathManager → Option FilePath → Bool
  unfolding holds can_rename_kind
  can_rename_at f m none = false
  can_rename_at f m (some p) =
      if holds (fs.exists f p)
      then can_rename_kind f m p (fs.is_regular_file f p) (fs.is_directory f p)
      else false

  unfoldable pub can_rename : F → PathManager → Text → Bool
  unfolding canonical_inside can_rename_at
  can_rename f m path =
      if is_empty path then false else can_rename_at f m (canonical_inside f m path)

  pub is_directory_inside : F → Option FilePath → Bool
  unfolding holds
  is_directory_inside f none = false
  is_directory_inside f (some p) = holds (fs.exists f p) && holds (fs.is_directory f p)

  unfoldable pub rename_to : F → PathManager → FilePath → FilePath → F × Bool
  unfolding is_inside_root refuted has_no_filename is_directory_inside canonical_filter init
  rename_to f m source destination =
      if has_no_filename destination || not (is_inside_root m destination)
      then (f, false)
      else if not (refuted (fs.exists f destination))
      then (f, false)
      else if not
          (is_directory_inside f (canonical_filter m (fs.weakly_canonical f (init destination))))
      then (f, false)
      else fs.rename f source destination

  unfoldable pub rename_from : F → PathManager → Option FilePath → Text → F × Bool
  unfolding rename_to resolve_path
  rename_from f m none new_path = (f, false)
  rename_from f m (some source) new_path = rename_to f m source (resolve_path m new_path)

  unfoldable pub rename_path : F → PathManager → Text → Text → F × Bool
  unfolding can_rename canonical_inside rename_from
  rename_path f m old_path new_path =
      if is_empty old_path || is_empty new_path || not (can_rename f m old_path)
      then (f, false)
      else rename_from f m (canonical_inside f m old_path) new_path
