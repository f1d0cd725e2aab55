-- ===== src/FileHandler.antt =====
-- src/common/FileHandler.cpp and src/common/CryptoHash.cpp: whole files, and the digest of one. A file
-- that is opened as text is the same bytes on a POSIX system.
use hybrid_ftp.Base.{
  ℕ, ◌+◌, ◌/◌, ◌%◌, Bool, true, false, Option, none, some, List, [], ◌∷◌, ltb, if◌then◌else◌,
}
use hybrid_ftp.Text.{Text}
use hybrid_ftp.Path.{FilePath, FileSystem}

module _ {F : Type 0} ⦃fs : FileSystem F⦄ where
  unfoldable pub read_binary_file : F → FilePath → Option (List ℕ)
  read_binary_file f p = fs.read_file f p

  unfoldable pub write_binary_file : F → FilePath → List ℕ → Bool → F × Bool
  write_binary_file f p bytes append = fs.write_file f p bytes append

  unfoldable pub write_text_file : F → FilePath → List ℕ → Bool → F × Bool
  write_text_file f p content append = fs.write_file f p content append

  unfoldable pub read_text_file : F → FilePath → Option (List ℕ)
  read_text_file f p = fs.read_file f p

-- `stat` of a path: the size of what it finds, `none` where it fails.
pub stat_succeeds : Option ℕ → Bool
stat_succeeds none = false
stat_succeeds (some size) = true

pub size_or_zero : Option ℕ → ℕ
size_or_zero none = 0
size_or_zero (some size) = size

pub file_exists : (FilePath → Option ℕ) → FilePath → Bool
unfolding stat_succeeds
file_exists stat p = stat_succeeds (stat p)

-- `getFileSize`: 0 also where there is no file.
pub stat_file_size : (FilePath → Option ℕ) → FilePath → ℕ
unfolding size_or_zero
stat_file_size stat p = size_or_zero (stat p)

-- A lower-case hexadecimal digit.
pub hex_digit : ℕ → ℕ
hex_digit n = if ltb n 10 then 48 + n else 87 + n

pub hex_text : List ℕ → Text
unfolding hex_digit
hex_text [] = []
hex_text (b ∷ bs) = hex_digit (b / 16) ∷ hex_digit (b % 16) ∷ hex_text bs

module _ {F : Type 0} ⦃fs : FileSystem F⦄ where
  -- The empty text where the file cannot be read.
  pub digest_text : F → Option (List ℕ) → Text
  unfolding hex_text
  digest_text f none = []
  digest_text f (some bytes) = hex_text (fs.sha256 bytes)

  unfoldable pub compute_sha256_from_file : F → FilePath → Text
  unfolding read_binary_file digest_text
  compute_sha256_from_file f p = digest_text f (read_binary_file f p)
