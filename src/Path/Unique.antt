-- ===== src/Path/Unique.antt =====
-- src/common/PathManager.cpp: `generateUniqueFilename`, and that its loop ends at the first free name.
use hybrid_ftp.Base.{
  ℕ, zero, suc, Bool, not, Option, none, some, List, [], ◌∷◌, ◌++◌, ◌==◌, if◌then◌else◌, take, drop,
}
use hybrid_ftp.Text.{Text, same, is_empty, find_last_not_of}
use hybrid_ftp.Path.{FileSystem, PathManager, holds, split_path, dot_dot, init, resolve_path}
use hybrid_ftp.Path.Directories.{join_path}
use hybrid_ftp.Path.Listing.{file_name, decimal}

-- The index of the last '.' of a file name.
pub last_dot : Text → Option ℕ
unfolding find_last_not_of
last_dot name = find_last_not_of (λ c. not (c == 46)) name

-- `stem` and `extension`: a leading dot begins no extension, and "." and ".." have none.
pub split_extension : Text → Option ℕ → Text × Text
split_extension name none = (name, [])
split_extension name (some zero) = (name, [])
split_extension name (some (suc i)) = (take (suc i) name, drop (suc i) name)

pub stem_extension : Text → Text × Text
unfolding same last_dot split_extension
stem_extension name = if same name dot_dot then (name, []) else split_extension name (last_dot name)

pub strip_empty : List Text → List Text
strip_empty [] = []
strip_empty (e ∷ es) =
    let rest = strip_empty es in
    if is_empty e then elim rest [ [] ↦ [] | r ∷ rs ↦ e ∷ (r ∷ rs) ] else e ∷ rest

-- `parent_path` with the separator that `operator/` puts behind it; nothing for a bare name.
pub directory_prefix : List Text → Text
unfolding strip_empty join_path
directory_prefix [] = []
directory_prefix (e ∷ es) = elim (strip_empty (e ∷ es)) [
  | [] ↦ 47 ∷ []
  | d ∷ ds ↦ join_path (d ∷ ds) ++ 47 ∷ []
]

pub numbered : Text → ℕ → Text
unfolding stem_extension directory_prefix split_path init file_name decimal
numbered base counter =
    let (stem, extension) = stem_extension (file_name (split_path base)) in
    directory_prefix (init (split_path base)) ++ stem ++ 95 ∷ decimal counter ++ extension

-- The names that are tried, in order: the base name, then it with 1, 2, … added.
unfoldable pub candidate : Text → ℕ → Text
unfolding numbered
candidate base zero = base
candidate base (suc k) = numbered base (suc k)

module _ {F : Type 0} ⦃fs : FileSystem F⦄ (f : F) (m : PathManager) (base : Text) where
  unfoldable pub is_taken : Text → Bool
  unfolding holds resolve_path
  is_taken name = holds (fs.exists f (resolve_path m name))

  -- The loop at the `k`th name; `none`: it has not ended within the fuel.
  unfoldable pub unique_loop : ℕ → ℕ → Option Text
  unfolding candidate is_taken
  unique_loop zero k = none
  unique_loop (suc fuel) k =
      let rest = unique_loop fuel (suc k) in
      if is_taken (candidate base k) then rest else some (candidate base k)

  unfoldable pub generate_unique_filename : ℕ → Option Text
  unfolding unique_loop
  generate_unique_filename fuel = unique_loop fuel 0
