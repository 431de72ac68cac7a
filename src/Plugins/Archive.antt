-- ===== src/Plugins/Archive.antt =====
-- The extraction of a plugin's archive, of internal/plugins/github.go. The file system is an
-- argument, and so are the readers of archive/zip and archive/tar: an archive is the list of what
-- they deliver.
use vulpes_core.Base.{
  ℕ, String, ◌<>◌, Bool, ◌||◌, List, [], ◌∷◌, ◌==◌, Option, none, some, if◌then◌else◌, Result, ok,
  err,
}
use vulpes_core.Base.Text.{quote, to_lower}
use vulpes_core.Capabilities.{Error, plain}
use vulpes_core.FilePath.{is_abs, has_prefix, clean, join, rel, dir}

abbrev pub unsafe_path : String → Error
unsafe_path name = plain ("unsafe archive path " <> quote name)

-- `safeJoin`
unfoldable pub safe_join : String → String → Result Error String
unfolding is_abs has_prefix clean join rel
safe_join dest name =
    if is_abs (clean name) || has_prefix "../" (clean name) || clean name == ".."
    then err (unsafe_path name)
    else (elim (rel dest (join dest (clean name))) [
      | none ↦ err (unsafe_path name)
      | some r ↦ if has_prefix ".." r then err (unsafe_path name) else ok (join dest (clean name))
    ])

-- What a reader delivers of a file: its bytes, and an error if it breaks off.
pub record Contents : Type 0 where
  pub bytes : String
  pub read_error : Option Error

-- What the extraction calls of `os` and `io`: each gives the error, if any, and the changed world.
pub record FileSystem (W : Type 0) : Type 0 where
  -- `os.MkdirAll` with a mode
  pub mkdir_all : String → ℕ → W → Option Error × W
  -- `os.OpenFile`, truncating, with a mode, then `io.Copy` and `Close`: the first error of the three
  pub write_file : String → ℕ → Contents → W → Option Error × W

pub data EntryKind : Type 0 where
  directory regular symlink hard_link other : EntryKind

-- An entry; only those of a zip archive are opened.
pub record ArchiveEntry : Type 0 where
  pub name : String
  pub kind : EntryKind
  pub mode : ℕ
  pub open_error : Option Error
  pub contents : Contents

-- The error, and the world.
abbrev pub Extraction : Type 0 → Type 0
Extraction W = Option Error × W

module _ {W : Type 0} where
  -- An early `return`.
  abbrev pub refuse : Error → W → Extraction W
  refuse e w = (some e, w)

  -- A call; what follows it is done only if it succeeds.
  abbrev pub act : Option Error × W → (W → Extraction W) → Extraction W
  act (some e, w) rest = (some e, w)
  act (none, w) rest = rest w

module _ {W : Type 0} (fs : FileSystem W) (dest : String) where
  unfoldable pub put_dir : String → ℕ → (W → Extraction W) → W → Extraction W
  put_dir p mode rest w = act (fs.mkdir_all p mode w) rest

  -- A file, in a directory that is made for it.
  unfoldable pub put_file : String → ArchiveEntry → (W → Extraction W) → W → Extraction W
  unfolding dir
  put_file p entry rest w = act (fs.mkdir_all (dir p) 493 w) (λ w'. elim entry.open_error [
    | some e ↦ refuse e w'
    | none ↦ act (fs.write_file p entry.mode entry.contents w') rest
  ])

  -- The rest of a round behind safeJoin, for a zip and for a tar archive.
  abbrev pub put_zip : EntryKind → String → ArchiveEntry → (W → Extraction W) → W → Extraction W
  put_zip directory p entry rest w = put_dir p 493 rest w
  put_zip _ p entry rest w = put_file p entry rest w

  abbrev pub put_tar : EntryKind → String → ArchiveEntry → (W → Extraction W) → W → Extraction W
  put_tar directory p entry rest w = put_dir p entry.mode rest w
  put_tar regular p entry rest w = put_file p (record entry { open_error = none }) rest w
  put_tar _ p entry rest w = refuse (plain ("unsupported archive entry " <> quote entry.name)) w

  -- safeJoin, and what is done with its path.
  abbrev pub with_path : String → (String → W → Extraction W) → W → Extraction W
  with_path name put w = elim (safe_join dest name) [ err e ↦ refuse e w | ok p ↦ put p w ]

  abbrev pub zip_entry : EntryKind → ArchiveEntry → (W → Extraction W) → W → Extraction W
  zip_entry symlink entry rest w = refuse (plain ("refusing symlink " <> quote entry.name)) w
  zip_entry kind entry rest w = with_path entry.name (λ p w'. put_zip kind p entry rest w') w

  abbrev pub tar_entry : EntryKind → ArchiveEntry → (W → Extraction W) → W → Extraction W
  tar_entry symlink entry rest w = refuse (plain ("refusing link " <> quote entry.name)) w
  tar_entry hard_link entry rest w = refuse (plain ("refusing link " <> quote entry.name)) w
  tar_entry kind entry rest w = with_path entry.name (λ p w'. put_tar kind p entry rest w') w

  -- The loop of safeExtractZip.
  unfoldable pub zip_entries : List ArchiveEntry → W → Extraction W
  unfolding safe_join put_dir put_file
  zip_entries [] w = (none, w)
  zip_entries (entry ∷ entries) w = zip_entry entry.kind entry (zip_entries entries) w

  -- The loop of safeExtractTarGz; what ends it is `io.EOF`, or another error of the reader.
  unfoldable pub tar_entries : List ArchiveEntry → Option Error → W → Extraction W
  unfolding safe_join put_dir put_file
  tar_entries [] end w = (end, w)
  tar_entries (entry ∷ entries) end w = tar_entry entry.kind entry (tar_entries entries end) w

-- The two readers, up to the first entry: the entries of a zip file, and those of a tar file with
-- the error that ends them, if it is not `io.EOF`.
pub record Readers (W : Type 0) : Type 0 where
  pub read_zip : String → W → Result Error (List ArchiveEntry)
  pub read_tar_gz : String → W → Result Error (List ArchiveEntry × Option Error)

-- `strings.HasSuffix`
unfoldable pub has_suffix : String → String → Bool
has_suffix suffix String.[] = suffix == ""
has_suffix suffix (String.◌∷◌ c s) = String.◌∷◌ c s == suffix || has_suffix suffix s

module _ {W : Type 0} (fs : FileSystem W) (readers : Readers W) where
  unfoldable pub safe_extract_zip : String → String → W → Extraction W
  unfolding zip_entries
  safe_extract_zip path dest w = elim (readers.read_zip path w) [
    | err e ↦ refuse e w
    | ok entries ↦ zip_entries fs dest entries w
  ]

  unfoldable pub safe_extract_tar_gz : String → String → W → Extraction W
  unfolding tar_entries
  safe_extract_tar_gz path dest w = elim (readers.read_tar_gz path w) [
    | err e ↦ refuse e w
    | ok (entries, end) ↦ tar_entries fs dest entries end w
  ]

  -- `SafeExtract`
  unfoldable pub safe_extract : String → String → W → Extraction W
  unfolding has_suffix to_lower safe_extract_zip safe_extract_tar_gz
  safe_extract path dest w =
      if has_suffix ".zip" (to_lower path)
      then safe_extract_zip path dest w
      else safe_extract_tar_gz path dest w
