-- ===== src/Plugins/Checked.antt =====
-- Which executable a plugin source gives, and what has been checked of it.
use vulpes_core.Base.{
  String, ◌≡◌, ◌⊎◌, ◌↔◌, inl, inr, sym, ◌∙◌, true, false, none, ◌==◌, eq_iff, arith, ok, Bool-cases,
  Option-cases, Result-cases, subst,
}
use vulpes_core.FilePath.{trim_prefix}
use vulpes_core.Plugins.Archive.{Contents}
use vulpes_core.Plugins.Sources.{
  ResolvedPlugin, FileInfo, Host, equal_fold, executable, check_sum, file_sha256,
  resolve_filesystem,
}

-- A file that can be run, with its digest.
pub record IsRunnable {W : Type 0} (host : Host W) (path : String) (w : W) (h : String)
    : Type 0 where
  pub info : FileInfo
  pub stat : host.stat path w ≡ ok info
  pub file : info.is_dir ≡ false
  pub runs : executable info.mode ≡ true
  pub contents : Contents
  pub opened : host.open_file path w ≡ ok contents
  pub whole : contents.read_error ≡ none
  pub digest : host.sha256 contents.bytes ≡ h

-- A checksum that a digest passes: none, or the digest itself up to case and the prefix `sha256:`.
abbrev pub Passes : String → String → Type 0
Passes checksum h = (checksum ≡ "") ⊎ (equal_fold (trim_prefix "sha256:" checksum) h ≡ true)

check_sum_lem :
    (path checksum h : String) (r : ResolvedPlugin)
    → (check_sum path checksum h ≡ ok r)
    → (r.path ≡ path) × (r.sha256 ≡ h) × Passes checksum h
unfolding check_sum
check_sum_lem path checksum h r e = elim (Bool-cases (checksum == "")) [
  | inl empty ↦ ground (arith, e, empty, eq_iff checksum "")
  | inr some_sum ↦ elim (Bool-cases (equal_fold (trim_prefix "sha256:" checksum) h)) [
    | inl same ↦ ground (arith, e, some_sum, same)
    | inr other ↦ ground (arith, e, some_sum, other)
  ]
]

check_sum-ok :
    (path checksum h : String)
    → Passes checksum h
    → check_sum path checksum h ≡ ok (record { path = path; sha256 = h })
unfolding check_sum
check_sum-ok path checksum h (inl empty) = ground (arith, empty, eq_iff checksum "")
check_sum-ok path checksum h (inr same) = ground (arith, same)

module _ {W : Type 0} (host : Host W) where
  file_sha256_lem :
      (path : String) (w : W) (h : String)
      → file_sha256 host path w ≡ ok h
      → (contents : Contents) × (host.open_file path w ≡ ok contents)
        × (contents.read_error ≡ none)
        × (host.sha256 contents.bytes ≡ h)
  unfolding file_sha256
  file_sha256_lem path w h e = elim (Result-cases (host.open_file path w)) [
    | inl (_, bad) ↦ ground (arith, e, bad)
    | inr (contents, good) ↦ elim (Option-cases contents.read_error) [
      | inl whole ↦ (contents, good, whole, ground (arith, e, good, whole))
      | inr (_, broken) ↦ ground (arith, e, good, broken)
    ]
  ]

  resolve_filesystem-IsRunnable :
      (path checksum : String) (w : W) (r : ResolvedPlugin)
      → resolve_filesystem host path checksum w ≡ ok r
      → IsRunnable host path w r.sha256 × (r.path ≡ path) × Passes checksum r.sha256
  unfolding resolve_filesystem
  resolve_filesystem-IsRunnable path checksum w r e = elim (Result-cases (host.stat path w)) [
    | inl (_, bad) ↦ ground (arith, e, bad)
    | inr (info, good) ↦ elim (Bool-cases info.is_dir) [
      | inl folder ↦ ground (arith, e, good, folder)
      | inr file ↦ elim (Bool-cases (executable info.mode)) [
        | inr idle ↦ ground (arith, e, good, file, idle)
        | inl runs ↦ elim (Result-cases (file_sha256 host path w)) [
          | inl (_, broken) ↦ ground (arith, e, good, file, runs, broken)
          | inr (h, hashed) ↦
              let summed : check_sum path checksum h ≡ ok r =
                ground (arith, e, good, file, runs, hashed) in
              let (same, digest, passes) = check_sum_lem path checksum h r summed in
              let (contents, opened, whole, made) = file_sha256_lem path w h hashed in
              (
                record {
                  info = info;
                  stat = good;
                  file = file;
                  runs = runs;
                  contents = contents;
                  opened = opened;
                  whole = whole;
                  digest = made ∙ sym digest;
                },
                same,
                subst (Passes checksum) (sym digest) passes,
              )
        ]
      ]
    ]
  ]

  IsRunnable-resolve_filesystem :
      (path checksum : String) (w : W) (r : ResolvedPlugin)
      → IsRunnable host path w r.sha256
      → (r.path ≡ path)
      → Passes checksum r.sha256
      → resolve_filesystem host path checksum w ≡ ok r
  unfolding resolve_filesystem file_sha256
  IsRunnable-resolve_filesystem path checksum w r h same passes =
      let summed = check_sum-ok path checksum r.sha256 passes in
      ground (arith, h.stat, h.file, h.runs, h.opened, h.whole, h.digest, same, summed)

  -- ResolveFilesystem gives a plugin exactly if its path is that of a file, no directory, with one
  -- of the three bits for execution, which can be opened and read to its end, and whose digest is
  -- the checksum, if there is one, up to the case of letters and the prefix `sha256:`; the plugin
  -- has this path and this digest.
  pub resolve_filesystem_lem :
      (path checksum : String) (w : W) (r : ResolvedPlugin)
      → (resolve_filesystem host path checksum w ≡ ok r)
        ↔ (IsRunnable host path w r.sha256 × (r.path ≡ path) × Passes checksum r.sha256)
  resolve_filesystem_lem path checksum w r = (
    resolve_filesystem-IsRunnable path checksum w r,
    λ (h, same, passes). IsRunnable-resolve_filesystem path checksum w r h same passes,
  )
