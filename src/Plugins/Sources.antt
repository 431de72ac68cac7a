-- ===== src/Plugins/Sources.antt =====
-- Where a plugin's executable comes from: internal/plugins/filesystem.go, and of github.go the
-- release's address, the cache, and ResolveGitHub. What these call of `os`, and the digest of
-- crypto/sha256, are the fields of an argument.
use vulpes_core.Base.{
  ℕ, String, ◌<>◌, Bool, true, false, not, ◌&&◌, ◌||◌, List, [], ◌∷◌, ◌==◌, ◌/◌, ◌%◌, eqb, Option,
  none, some, if◌then◌else◌, Result, ok, err, ◌≡◌, refl,
}
use vulpes_core.Base.Text.{to_lower}
use vulpes_core.Capabilities.{Error, plain, wrap}
use vulpes_core.FilePath.{split_slash, join, join_all, trim_prefix}
use vulpes_core.Plugins.Archive.{FileSystem, Contents, Readers, safe_extract}

pub record ResolvedPlugin : Type 0 where
  pub path : String
  pub sha256 : String

pub record FileInfo : Type 0 where
  pub is_dir : Bool
  pub mode : ℕ

pub record Host (W : Type 0) : Type 0 where
  pub files : FileSystem W
  pub readers : Readers W
  pub stat : String → W → Result Error FileInfo
  -- `os.Open`, and what reading the file gives
  pub open_file : String → W → Result Error Contents
  -- The digest in lower-case hexadecimal digits.
  pub sha256 : String → String
  -- `os.CreateTemp` in the directory for temporary files, by its pattern
  pub create_temp : String → W → Result Error String × W
  -- `io.Copy` into the temporary file: the error of the reader or of the file
  pub copy_temp : String → Contents → W → Option Error × W
  pub close_temp : String → W → Option Error × W
  pub remove : String → W → W
  pub chmod : String → ℕ → W → Option Error × W

-- `strings.EqualFold`, for texts of which one has only ASCII characters, as a digest has.
unfoldable pub equal_fold : String → String → Bool
unfolding to_lower
equal_fold s t = to_lower s == to_lower t

-- `mode & 0111 != 0`
unfoldable pub executable : ℕ → Bool
executable mode = not (eqb (mode % 2) 0 && eqb ((mode / 8) % 2) 0 && eqb ((mode / 64) % 2) 0)

modes : (executable 493 ≡ true) × (executable 420 ≡ false)
unfolding executable
modes = (refl, refl)

-- The test of a digest against a checksum, behind the reading of the file.
unfoldable pub check_sum : String → String → String → Result Error ResolvedPlugin
unfolding equal_fold trim_prefix
check_sum path checksum h =
    if checksum == "" || equal_fold (trim_prefix "sha256:" checksum) h
    then ok (record { path = path; sha256 = h })
    else err (
        plain
          ("plugin checksum mismatch for " <> path <> ": got sha256:" <> h <> " want " <> checksum))

module _ {W : Type 0} (host : Host W) where
  -- `fileSHA256`
  unfoldable pub file_sha256 : String → W → Result Error String
  file_sha256 path w = elim (host.open_file path w) [
    | err e ↦ err (wrap ("open " <> path <> ": ") e "")
    | ok contents ↦ (elim contents.read_error [
      | some e ↦ err (wrap ("hash " <> path <> ": ") e "")
      | none ↦ ok (host.sha256 contents.bytes)
    ])
  ]

  -- `ResolveFilesystem`
  unfoldable pub resolve_filesystem : String → String → W → Result Error ResolvedPlugin
  unfolding file_sha256 check_sum executable
  resolve_filesystem path checksum w = elim (host.stat path w) [
    | err e ↦ err (wrap ("plugin binary " <> path <> " not found: ") e "")
    | ok info ↦
        if info.is_dir
        then err (plain ("plugin path " <> path <> " is a directory; expected executable file"))
        else if not (executable info.mode)
        then err (plain ("plugin binary " <> path <> " is not executable"))
        else (elim (file_sha256 path w) [ err e ↦ err e | ok h ↦ check_sum path checksum h ])
  ]

-- `GitHubReleaseURL`
abbrev pub github_release_url : String → String → String → String
github_release_url repository release asset =
    "https://github.com/" <> repository <> "/releases/download/" <> release <> "/" <> asset

-- The owner and the repository, from the parts between the slashes.
abbrev pub owner_and_repo : List String → String → String × String
owner_and_repo (owner ∷ repo ∷ []) repository = (owner, repo)
owner_and_repo _ repository = ("unknown", repository)

-- `GitHubCacheDir`
unfoldable pub github_cache_dir : String → String → String → String → String → String
unfolding split_slash join_all
github_cache_dir home repository release asset sha =
    let (owner, repo) = owner_and_repo (split_slash repository) repository in
    join_all
      (home ∷ ".llm-gateway" ∷ "plugins" ∷ "github" ∷ owner ∷ repo ∷ release ∷ asset ∷ sha ∷ [])

pub record GitHubSource : Type 0 where
  pub repository : String
  pub release : String
  pub asset : String
  pub binary : String
  pub checksum : String

-- `Downloader`: what the body of the answer gives.
abbrev pub Downloader : Type 0 → Type 0
Downloader W = String → W → Result Error Contents × W

-- A call that may fail, and what is done if it does not.
abbrev pub after : {W A : Type 0} → Option Error × W → (W → Result Error A × W) → Result Error A × W
after (some e, w) rest = (err e, w)
after (none, w) rest = rest w

-- A call that gives a value or fails.
abbrev pub given :
    {W A B : Type 0} → Result Error A × W → (A → W → Result Error B × W) → Result Error B × W
given (err e, w) rest = (err e, w)
given (ok a, w) rest = rest a w

-- The checksum without its prefix.
abbrev pub wanted : GitHubSource → String
wanted src = trim_prefix "sha256:" src.checksum

module _ {W : Type 0} (host : Host W) (src : GitHubSource) (cache_home : String) where
  unfoldable pub cache_dir : String → String
  unfolding github_cache_dir
  cache_dir sha = github_cache_dir cache_home src.repository src.release src.asset sha

  unfoldable pub binary_path : String → String
  unfolding cache_dir join
  binary_path sha = join (cache_dir sha) src.binary

  -- What an earlier call left in the cache.
  unfoldable pub cached : W → Option ResolvedPlugin
  unfolding trim_prefix binary_path executable
  cached w = if wanted src == "" then none else (elim (host.stat (binary_path (wanted src)) w) [
    | err e ↦ none
    | ok info ↦
        if not info.is_dir && executable info.mode
        then some (record { path = binary_path (wanted src); sha256 = wanted src })
        else none
  ])

  -- SafeExtract with the file system and the readers of the host.
  unfoldable pub extracted : String → String → W → Option Error × W
  unfolding safe_extract
  extracted path dest w = safe_extract host.files host.readers path dest w

  -- From the directory on.
  unfoldable pub unpack : String → String → W → Result Error ResolvedPlugin × W
  unfolding binary_path extracted resolve_filesystem
  unpack tmp sha w = after (host.files.mkdir_all (cache_dir sha) 493 w) (λ w1.
      after (extracted tmp (cache_dir sha) w1) (λ w2.
        let (marked, w3) = host.chmod (binary_path sha) 493 w2 in
        elim marked [
          | some e ↦ (err (wrap "mark binary executable: " e ""), w3)
          | none ↦ (resolve_filesystem host (binary_path sha) "" w3, w3)
        ]))

  -- From the comparison of the digest on.
  unfoldable pub verify : String → String → W → Result Error ResolvedPlugin × W
  unfolding unpack equal_fold trim_prefix
  verify tmp got w =
      if not (wanted src == "") && not (equal_fold (wanted src) got)
      then (
        err (
            plain
              ("github asset checksum mismatch: got sha256:" <> got <> " want " <> src.checksum)),
        w,
      )
      else unpack tmp (if wanted src == "" then got else wanted src) w

  -- What is done with the temporary file: if the copy fails, it is closed before the return.
  unfoldable pub install : String → Contents → W → Result Error ResolvedPlugin × W
  unfolding verify
  install tmp body w =
      let (copied, w1) = host.copy_temp tmp body w in
      let closed = host.close_temp tmp w1 in
      elim copied [
        | some e ↦ (err e, closed.1)
        | none ↦ after closed (λ w2. verify tmp (host.sha256 body.bytes) w2)
      ]

  -- `defer os.Remove(tmp.Name())`
  unfoldable pub install_removing : String → Contents → W → Result Error ResolvedPlugin × W
  unfolding install
  install_removing tmp body w =
      let (result, w') = install tmp body w in (result, host.remove tmp w')

  -- `ResolveGitHub`
  unfoldable pub resolve_github : Downloader W → W → Result Error ResolvedPlugin × W
  unfolding cached install_removing
  resolve_github download w = elim (cached w) [
    | some plugin ↦ (ok plugin, w)
    | none ↦
        given (download (github_release_url src.repository src.release src.asset) w) (λ body w1.
          given (host.create_temp "llm-gateway-plugin-*" w1)
            (λ tmp w2. install_removing tmp body w2))
  ]
