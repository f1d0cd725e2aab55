-- ===== src/Path/Root.antt =====
-- src/common/PathManager.cpp: the constructor. The text of the root is a path of the system, which the
-- library makes absolute.
use hybrid_ftp.Base.{Option, none, some}
use hybrid_ftp.Path.{FilePath, FileSystem, PathManager, lexically_normal}

-- `weakly_canonical`, or where it fails the normal form.
pub root_of : Option FilePath → FilePath → FilePath
unfolding lexically_normal
root_of none absolute = lexically_normal absolute
root_of (some p) absolute = p

module _ {F : Type 0} ⦃fs : FileSystem F⦄ where
  -- The files and the object, for a root whose absolute path is given.
  pub new_path_manager : F → FilePath → F × PathManager
  unfolding root_of
  new_path_manager f absolute =
      let f' = fs.create_directories f absolute in
      let root = root_of (fs.weakly_canonical f' absolute) absolute in
      (f', record { root_directory = root; current_directory = root })
