-- ===== src/Path/Confined.antt =====
-- What PathManager's operations do to the file system, and where the current directory can be.
use hybrid_ftp.Base.{
  ℕ, ◌≡◌, refl, inl, inr, Bool, true, false, not, ◌&&◌, ◌||◌, Option, none, some, List, arith,
  if◌then◌else◌, Bool-cases,
}
use hybrid_ftp.Text.{Text, is_empty}
use hybrid_ftp.Path.{
  FilePath, same_path, FileSystem, PathManager, holds, refuted, dot_dot, init, is_inside_root,
  resolve_path, canonical_filter, canonical_inside,
}
use hybrid_ftp.Path.Directories.{
  enter_directory, change_directory, change_to_parent_directory, create_directory,
  remove_directory_at, remove_directory,
}
use hybrid_ftp.Path.Files.{
  has_no_filename, delete_file_at, delete_file, can_rename, is_directory_inside, rename_to,
  rename_from, rename_path,
}

-- One call that changes files, at paths inside the root, or none.
pub data IsConfined {F : Type 0} ⦃fs : FileSystem F⦄ (m : PathManager) (f : F) : F → Type 0 where
  untouched : IsConfined m f f
  created : (p : FilePath) → is_inside_root m p ≡ true → IsConfined m f (fs.create_directory f p).0
  removed : (p : FilePath) → is_inside_root m p ≡ true → IsConfined m f (fs.remove f p).0
  renamed :
      (p q : FilePath)
      → is_inside_root m p ≡ true
      → is_inside_root m q ≡ true
      → IsConfined m f (fs.rename f p q).0
  written :
      (p : FilePath) (bytes : List ℕ) (append : Bool)
      → is_inside_root m p ≡ true
      → IsConfined m f (fs.write_file f p bytes append).0
  -- the directory that holds a path inside the root, and those above it
  prepared :
      (p : FilePath) → is_inside_root m p ≡ true → IsConfined m f (fs.create_directories f (init p))

-- Any number of such calls, one after another.
pub data ConfinedCalls {F : Type 0} ⦃fs : FileSystem F⦄ (m : PathManager) (f : F) : F → Type 0 where
  no_calls : ConfinedCalls m f f
  more_calls : {f' f'' : F} → ConfinedCalls m f f' → IsConfined m f' f'' → ConfinedCalls m f f''

-- The same of what an operation returns.
unfoldable pub Confines : {F : Type 0} → ⦃fs : FileSystem F⦄ → PathManager → F → F × Bool → Type 0
Confines m f r = IsConfined m f r.0

module _ {F : Type 0} ⦃fs : FileSystem F⦄ (f : F) (m : PathManager) where
  -- A refusal in front of a call.
  guard-Confines :
      (b : Bool) (y : F × Bool)
      → (b ≡ false → Confines m f y)
      → Confines m f (if b then (f, false) else y)
  unfolding Confines
  guard-Confines true y h = untouched
  guard-Confines false y h = h refl

  created-Confines :
      (p : FilePath) (b : Bool)
      → not (is_inside_root m p) ≡ false
      → Confines m f ((fs.create_directory f p).0, b)
  unfolding Confines
  created-Confines p b h = created p (ground (arith, h))

  removed-Confines :
      (p : FilePath) (b : Bool) → is_inside_root m p ≡ true → Confines m f ((fs.remove f p).0, b)
  unfolding Confines
  removed-Confines p b h = removed p h

  renamed-Confines :
      (p q : FilePath) (b : Bool)
      → is_inside_root m p ≡ true
      → b || not (is_inside_root m q) ≡ false
      → Confines m f (fs.rename f p q)
  unfolding Confines
  renamed-Confines p q b hp hq = renamed p q hp (ground (arith, hq))

  unchanged-Confines : Confines m f (f, false)
  unfolding Confines
  unchanged-Confines = untouched

  pub create_directory-Confines : (path : Text) → Confines m f (create_directory f m path)
  unfolding create_directory
  create_directory-Confines path = guard-Confines (is_empty path) _ (λ e.
      guard-Confines (not (is_inside_root m (resolve_path m path))) _ (λ h.
        guard-Confines (not (refuted (fs.exists f (resolve_path m path)))) _
          (λ e'. created-Confines (resolve_path m path) _ h)))

  canonical-is_inside :
      (o : Option FilePath) (p : FilePath)
      → canonical_filter m o ≡ some p
      → is_inside_root m p ≡ true
  unfolding canonical_filter
  canonical-is_inside none p h = cc
  canonical-is_inside (some q) p h = ground arith

  remove_at-Confines :
      (o : Option FilePath)
      → ((p : FilePath) → o ≡ some p → is_inside_root m p ≡ true)
      → Confines m f (remove_directory_at f m o)
  unfolding remove_directory_at
  remove_at-Confines none h = unchanged-Confines
  remove_at-Confines (some p) h =
      guard-Confines (same_path p m.root_directory || same_path p m.current_directory) _ (λ e.
        guard-Confines (not (holds (fs.exists f p) && holds (fs.is_directory f p))) _
          (λ e'. removed-Confines p _ (h p refl)))

  pub remove_directory-Confines : (path : Text) → Confines m f (remove_directory f m path)
  unfolding remove_directory canonical_inside
  remove_directory-Confines path = guard-Confines (is_empty path) _ (λ e.
      guard-Confines (not (is_inside_root m (resolve_path m path))) _
        (λ e'. remove_at-Confines _ (canonical-is_inside _)))

  delete_at-Confines :
      (o : Option FilePath)
      → ((p : FilePath) → o ≡ some p → is_inside_root m p ≡ true)
      → Confines m f (delete_file_at f o)
  unfolding delete_file_at
  delete_at-Confines none h = unchanged-Confines
  delete_at-Confines (some p) h =
      guard-Confines (not (holds (fs.exists f p) && holds (fs.is_regular_file f p))) _
        (λ e. removed-Confines p _ (h p refl))

  pub delete_file-Confines : (path : Text) → Confines m f (delete_file f m path)
  unfolding delete_file canonical_inside
  delete_file-Confines path = guard-Confines (is_empty path) _ (λ e.
      guard-Confines (not (is_inside_root m (resolve_path m path))) _
        (λ e'. delete_at-Confines _ (canonical-is_inside _)))

  rename_to-Confines :
      (source destination : FilePath)
      → is_inside_root m source ≡ true
      → Confines m f (rename_to f m source destination)
  unfolding rename_to
  rename_to-Confines source destination h =
      guard-Confines (has_no_filename destination || not (is_inside_root m destination)) _ (λ e.
        guard-Confines (not (refuted (fs.exists f destination))) _ (λ e'.
          guard-Confines
            (not (
              is_directory_inside f
                (canonical_filter m (fs.weakly_canonical f (init destination)))))
            _ (λ e''. renamed-Confines source destination _ h e)))

  rename_from-Confines :
      (o : Option FilePath) (new_path : Text)
      → ((p : FilePath) → o ≡ some p → is_inside_root m p ≡ true)
      → Confines m f (rename_from f m o new_path)
  unfolding rename_from
  rename_from-Confines none new_path h = unchanged-Confines
  rename_from-Confines (some p) new_path h =
      rename_to-Confines p (resolve_path m new_path) (h p refl)

  pub rename_path-Confines : (old new_path : Text) → Confines m f (rename_path f m old new_path)
  unfolding rename_path canonical_inside
  rename_path-Confines old new_path =
      guard-Confines (is_empty old || is_empty new_path || not (can_rename f m old)) _
        (λ e. rename_from-Confines _ new_path (canonical-is_inside _))

  -- Whatever the four operations that change files are given, each leaves the file system as it was
  -- or makes one call on it, and every path of that call is lexically inside the root.
  pub operations-Confines :
      (a b : Text)
      → Confines m f (create_directory f m a)
        × (Confines m f (remove_directory f m a)
            × (Confines m f (delete_file f m a) × Confines m f (rename_path f m a b)))
  operations-Confines a b = (
    create_directory-Confines a,
    (remove_directory-Confines a, (delete_file-Confines a, rename_path-Confines a b)),
  )

-- The current directory is inside the root, which stays as it is.
unfoldable pub KeepsRoot : PathManager → PathManager × Bool → Type 0
KeepsRoot m r =
    (r.0.root_directory ≡ m.root_directory) × (is_inside_root r.0 r.0.current_directory ≡ true)

module _ {F : Type 0} ⦃fs : FileSystem F⦄ (f : F) (m : PathManager) where
  enter-KeepsRoot :
      (o : Option FilePath)
      → is_inside_root m m.current_directory ≡ true
      → KeepsRoot m (enter_directory m o)
  unfolding enter_directory is_inside_root KeepsRoot
  enter-KeepsRoot none h = (refl, h)
  enter-KeepsRoot (some p) h = elim (Bool-cases (is_inside_root m p)) [
    | inl e ↦ rw e (refl, e)
    | inr e ↦ rw e (refl, h)
  ]

  guard-KeepsRoot :
      (b : Bool) (y : PathManager × Bool)
      → is_inside_root m m.current_directory ≡ true
      → KeepsRoot m y
      → KeepsRoot m (if b then (m, false) else y)
  unfolding KeepsRoot
  guard-KeepsRoot true y h hy = (refl, h)
  guard-KeepsRoot false y h hy = hy

  -- A current directory inside the root stays inside it, whatever CWD is given, wherever symbolic
  -- links lead.
  pub change_directory-KeepsRoot :
      (path : Text)
      → is_inside_root m m.current_directory ≡ true
      → KeepsRoot m (change_directory f m path)
  unfolding change_directory
  change_directory-KeepsRoot path h =
      guard-KeepsRoot (not (is_inside_root m (resolve_path m path))) _ h (
        guard-KeepsRoot
          (not (
            holds (fs.exists f (resolve_path m path))
            && holds (fs.is_directory f (resolve_path m path))))
          _ h (enter-KeepsRoot _ h))

  pub change_to_parent-KeepsRoot :
      is_inside_root m m.current_directory ≡ true → KeepsRoot m (change_to_parent_directory f m)
  unfolding change_to_parent_directory
  change_to_parent-KeepsRoot h =
      guard-KeepsRoot (same_path m.current_directory m.root_directory) _ h
        (change_directory-KeepsRoot dot_dot h)
