-- ===== src/Plugins/Confined.antt =====
-- What the extraction of an archive does to the file system.
use vulpes_core.Base.{
  ℕ, String, ◌≡◌, ◌≢◌, ◌⊎◌, refl, Option, none, some, List, [], ◌∷◌, Result-cases, Bool-cases, inl,
  inr,
}
use vulpes_core.Base.Text.{to_lower}
use vulpes_core.Capabilities.{Error}
use vulpes_core.FilePath.{dir}
use vulpes_core.FilePath.Below.{Below}
use vulpes_core.Plugins.Archive.{
  safe_join, FileSystem, Contents, EntryKind, directory, regular, symlink, hard_link, other,
  ArchiveEntry, Extraction, refuse, act, put_dir, put_file, put_zip, put_tar, with_path, zip_entry,
  tar_entry, zip_entries, tar_entries, Readers, has_suffix, safe_extract, safe_extract_zip,
  safe_extract_tar_gz,
}
use vulpes_core.Plugins.SafeJoin.{safe_join_lem}

-- The paths at which the extraction may make a directory: the destination, those below it, and the
-- directory in which such a path stands.
abbrev pub MayMake : String → String → Type 0
MayMake dest p = Below dest p ⊎ ((q : String) × Below dest q × (p ≡ dir q))

-- What a world satisfies is kept by each call that the extraction may make.
module _ {W : Type 0} (fs : FileSystem W) (dest : String) (named : dest ≢ "") {Q : W → Type 0}
    (made : (p : String) (mode : ℕ) (w : W) → MayMake dest p → Q w → Q (fs.mkdir_all p mode w).1)
    (written : (p : String) (mode : ℕ) (contents : Contents) (w : W)
      → Below dest p
      → Q w
      → Q (fs.write_file p mode contents w).1) where
  abbrev Confined : (W → Extraction W) → Type 0
  Confined run = (w : W) → Q w → Q (run w).1

  Confined-act :
      (out : Option Error × W) (rest : W → Extraction W)
      → Q out.1
      → Confined rest
      → Q (act out rest).1
  Confined-act (some e, w) rest q k = q
  Confined-act (none, w) rest q k = k w q

  Confined-put_dir :
      (p : String) (mode : ℕ) (rest : W → Extraction W)
      → Below dest p
      → Confined rest
      → Confined (put_dir fs dest p mode rest)
  unfolding put_dir
  Confined-put_dir p mode rest h k w q = Confined-act _ rest (made p mode w (inl h) q) k

  Confined-put_file :
      (p : String) (entry : ArchiveEntry) (rest : W → Extraction W)
      → Below dest p
      → Confined rest
      → Confined (put_file fs dest p entry rest)
  unfolding put_file
  Confined-put_file p entry rest h k w q =
      Confined-act _ _ (made (dir p) 493 w (inr (p, h, refl)) q) (opened entry.open_error)
    where
      opened :
          (o : Option Error)
          → Confined (λ w'. elim o [
            | some e ↦ refuse e w'
            | none ↦ act (fs.write_file p entry.mode entry.contents w') rest
          ])
      opened none w' q' = Confined-act _ rest (written p entry.mode entry.contents w' h q') k
      opened (some e) w' q' = q'

  Confined-with_path :
      (name : String) (put : String → W → Extraction W)
      → ((p : String) → Below dest p → Confined (put p))
      → Confined (with_path fs dest name put)
  Confined-with_path name put h w q = elim (Result-cases (safe_join dest name)) [
    | inl (e, bad) ↦ rw (bad, with_path) q
    | inr (p, good) ↦ rw (good, with_path) (h p ((safe_join_lem dest name named).1 p good) w q)
  ]

  Confined-zip_entry :
      (kind : EntryKind) (entry : ArchiveEntry) (rest : W → Extraction W)
      → Confined rest
      → Confined (zip_entry fs dest kind entry rest)
  Confined-zip_entry symlink entry rest k w q = q
  Confined-zip_entry directory entry rest k w q =
      Confined-with_path entry.name (λ p w'. put_zip fs dest directory p entry rest w')
        (λ p. λ h. Confined-put_dir p 493 rest h k) w q
  Confined-zip_entry regular entry rest k w q =
      Confined-with_path entry.name (λ p w'. put_zip fs dest regular p entry rest w')
        (λ p. λ h. Confined-put_file p entry rest h k) w q
  Confined-zip_entry hard_link entry rest k w q =
      Confined-with_path entry.name (λ p w'. put_zip fs dest hard_link p entry rest w')
        (λ p. λ h. Confined-put_file p entry rest h k) w q
  Confined-zip_entry other entry rest k w q =
      Confined-with_path entry.name (λ p w'. put_zip fs dest other p entry rest w')
        (λ p. λ h. Confined-put_file p entry rest h k) w q

  Confined-tar_entry :
      (kind : EntryKind) (entry : ArchiveEntry) (rest : W → Extraction W)
      → Confined rest
      → Confined (tar_entry fs dest kind entry rest)
  Confined-tar_entry symlink entry rest k w q = q
  Confined-tar_entry hard_link entry rest k w q = q
  Confined-tar_entry directory entry rest k w q =
      Confined-with_path entry.name (λ p w'. put_tar fs dest directory p entry rest w')
        (λ p. λ h. Confined-put_dir p entry.mode rest h k) w q
  Confined-tar_entry regular entry rest k w q =
      Confined-with_path entry.name (λ p w'. put_tar fs dest regular p entry rest w')
        (λ p. λ h. Confined-put_file p (record entry { open_error = none }) rest h k) w q
  Confined-tar_entry other entry rest k w q =
      Confined-with_path entry.name (λ p w'. put_tar fs dest other p entry rest w')
        (λ p. λ h. λ w'. λ q'. q') w q

  Confined-zip_entries : (entries : List ArchiveEntry) → Confined (zip_entries fs dest entries)
  unfolding zip_entries
  Confined-zip_entries [] w q = q
  Confined-zip_entries (entry ∷ entries) w q =
      Confined-zip_entry entry.kind entry _ (Confined-zip_entries entries) w q

  Confined-tar_entries :
      (entries : List ArchiveEntry) (end : Option Error)
      → Confined (tar_entries fs dest entries end)
  unfolding tar_entries
  Confined-tar_entries [] end w q = q
  Confined-tar_entries (entry ∷ entries) end w q =
      Confined-tar_entry entry.kind entry _ (Confined-tar_entries entries end) w q

  Confined-safe_extract_zip :
      (readers : Readers W) (path : String) → Confined (safe_extract_zip fs readers path dest)
  unfolding safe_extract_zip
  Confined-safe_extract_zip readers path w q = elim (Result-cases (readers.read_zip path w)) [
    | inl (e, bad) ↦ rw (bad, safe_extract_zip) q
    | inr (entries, good) ↦ rw (good, safe_extract_zip) (Confined-zip_entries entries w q)
  ]

  Confined-safe_extract_tar_gz :
      (readers : Readers W) (path : String) → Confined (safe_extract_tar_gz fs readers path dest)
  unfolding safe_extract_tar_gz
  Confined-safe_extract_tar_gz readers path w q = elim (Result-cases (readers.read_tar_gz path w)) [
    | inl (e, bad) ↦ rw (bad, safe_extract_tar_gz) q
    | inr ((entries, end), good) ↦
        rw (good, safe_extract_tar_gz) (Confined-tar_entries entries end w q)
  ]

  -- Let `Q` be any property of the world that two kinds of calls keep: the making of a directory at
  -- the destination, below it, or at the directory in which such a path stands; and the writing of a
  -- file at the destination or below it. With a destination that is not the empty text, the
  -- extraction keeps `Q`, whatever is in the archive and wherever it breaks off.
  pub safe_extract_confined :
      (readers : Readers W) (path : String) (w : W)
      → Q w
      → Q (safe_extract fs readers path dest w).1
  unfolding safe_extract
  safe_extract_confined readers path w q = elim (Bool-cases (has_suffix ".zip" (to_lower path))) [
    | inl zip ↦ rw (zip, safe_extract) (Confined-safe_extract_zip readers path w q)
    | inr tar ↦ rw (tar, safe_extract) (Confined-safe_extract_tar_gz readers path w q)
  ]
