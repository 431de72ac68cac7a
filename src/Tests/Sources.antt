-- ===== src/Tests/Sources.antt =====
-- Plugin sources, archives and references to secrets at concrete inputs. The world is a counter.
use vulpes_core.Base.{
  ℕ, zero, suc, All, String, ◌≡◌, ◌≢◌, ◌↔◌, ◌⊎◌, refl, true, false, List, [], ◌∷◌, ◌++◌, ◌==◌, none,
  some, ok, err, arith, eq_iff,
}
use vulpes_core.Capabilities.{plain}
use vulpes_core.FilePath.{is_abs, has_prefix, clean, join, trim_prefix, components}
use vulpes_core.FilePath.Split.{has_slash}
use vulpes_core.FilePath.Clean.{GoesDown}
use vulpes_core.FilePath.Below.{Below}
use vulpes_core.Secrets.{is_secret_ref}
use vulpes_core.Secrets.Reference.{secret_ref, all_name, is_secret_ref-secret_ref}
use vulpes_core.Plugins.Archive.{
  safe_join, unsafe_path, FileSystem, Contents, ArchiveEntry, regular, Readers, safe_extract,
}
use vulpes_core.Plugins.SafeJoin.{safe_join_lem}
use vulpes_core.Plugins.Confined.{safe_extract_confined}
use vulpes_core.Plugins.Sources.{
  ResolvedPlugin, Host, GitHubSource, Downloader, resolve_filesystem, resolve_github, wanted,
}
use vulpes_core.Plugins.Download.{HttpClient, http_download}
use vulpes_core.Plugins.Checked.{IsRunnable, Passes, resolve_filesystem_lem}
use vulpes_core.Plugins.Pinned.{IsCached, IsReleased, resolve_github_pinned}
use vulpes_core.Plugins.CacheDir.{Release, names, dir_of, fixed_names, dir_of-names}

differ : (s t : String) → (s == t) ≡ false → s ≢ t
differ s t h e = ground (arith, h, eq_iff s t, e)

safe_join_lem_example :
    (safe_join "plugins" "a/../b" ≡ ok "plugins/b")
    × ((p : String) → safe_join "plugins" "a/../b" ≡ ok p → Below "plugins" p)
unfolding is_abs has_prefix clean join
safe_join_lem_example = safe_join_lem "plugins" "a/../b" (differ "plugins" "" refl)

way_up_refused : safe_join "plugins" "a/../../b" ≡ err (unsafe_path "a/../../b")
unfolding safe_join
way_up_refused = refl

-- The second test is on the text: a name that only begins with two dots is refused too.
dotted_name_refused : safe_join "plugins" "..bin" ≡ err (unsafe_path "..bin")
unfolding safe_join
dotted_name_refused = refl

abbrev binary : Contents
binary = record { bytes = "binary"; read_error = none }

abbrev file : String → ArchiveEntry
file name = record { name = name; kind = regular; mode = 493; open_error = none; contents = binary }

abbrev files : FileSystem ℕ
files = record {
  mkdir_all = λ path mode w. (none, suc w);
  write_file = λ path mode contents w. (none, suc w);
}

-- A file system whose world is the list of the files that it has written, the last one first.
abbrev written_files : FileSystem (List String)
written_files = record {
  mkdir_all = λ path mode w. (none, w);
  write_file = λ path mode contents w. (none, path ∷ w);
}

abbrev readers : {W : Type 0} → Readers W
readers = record {
  read_zip = λ path w. ok (file "bin/a" ∷ file "../b" ∷ file "c" ∷ []);
  read_tar_gz = λ path w. ok (file "a" ∷ [], none);
}

-- Whatever the archive holds, the files written stand below the directory.
safe_extract_confined_example :
    All (Below "plugins") (safe_extract written_files readers "a.zip" "plugins" []).1
safe_extract_confined_example =
    safe_extract_confined written_files "plugins" (differ "plugins" "" refl)
      {Q = λ w. All (Below "plugins") w} (λ p mode w h q. q) (λ p mode contents w h q. (h, q))
      readers "a.zip" [] tt

-- The file in front of the one that is refused has been written.
stopped_at_b :
    safe_extract written_files readers "a.zip" "plugins" []
    ≡ (some (unsafe_path "../b"), "plugins/bin/a" ∷ [])
unfolding safe_extract
stopped_at_b = refl

abbrev pub host : Host ℕ
host = record {
  files = files;
  readers = readers;
  stat = λ path w. ok (record { is_dir = false; mode = 493 });
  open_file = λ path w. ok binary;
  sha256 = λ s. "d1";
  create_temp = λ pattern w. (ok "/tmp/p1", suc w);
  copy_temp = λ path contents w. (none, suc w);
  close_temp = λ path w. (none, suc w);
  remove = λ path w. suc w;
  chmod = λ path mode w. (none, suc w);
}

abbrev resolved : ResolvedPlugin
resolved = record { path = "/opt/a"; sha256 = "d1" }

resolve_filesystem_lem_example :
    (resolve_filesystem host "/opt/a" "sha256:D1" 0 ≡ ok resolved)
    ↔ (IsRunnable host "/opt/a" 0 "d1" × (resolved.path ≡ "/opt/a") × Passes "sha256:D1" "d1")
resolve_filesystem_lem_example = resolve_filesystem_lem host "/opt/a" "sha256:D1" 0 resolved

checksum_in_upper_case : resolve_filesystem host "/opt/a" "sha256:D1" 0 ≡ ok resolved
unfolding resolve_filesystem
checksum_in_upper_case = refl

abbrev source : GitHubSource
source = record {
  repository = "o/r";
  release = "v1";
  asset = "a.tar.gz";
  binary = "bin/a";
  checksum = "sha256:D1";
}

-- Nothing is in the cache before the download.
abbrev empty_host : Host ℕ
empty_host = record host {
  stat = λ path w. elim w [
    | zero ↦ err (plain "no such file")
    | suc n ↦ ok (record { is_dir = false; mode = 493 })
  ];
}

abbrev pub download : Downloader ℕ
download = λ url w. (ok binary, suc w)

abbrev unpacked : ResolvedPlugin
unpacked = record {
  path = "/home/u/.llm-gateway/plugins/github/o/r/v1/a.tar.gz/D1/bin/a";
  sha256 = "d1";
}

unpacks : (resolve_github empty_host source "/home/u" download 0).0 ≡ ok unpacked
unfolding resolve_github
unpacks = refl

checksum_given : wanted source ≢ ""
unfolding trim_prefix
checksum_given = differ (wanted source) "" refl

resolve_github_pinned_example :
    IsCached empty_host source "/home/u" 0 unpacked
    ⊎ IsReleased empty_host source "/home/u" download 0 unpacked
resolve_github_pinned_example =
    resolve_github_pinned empty_host source "/home/u" checksum_given download 0 unpacked unpacks

abbrev release : String → Release
release tag = record { owner = "o"; repo = "r"; tag = tag; asset = "a"; sha = "d1" }

is_name :
    (s : String)
    → has_slash s ≡ false
    → (s == "") ≡ false
    → (s == ".") ≡ false
    → (s == "..") ≡ false
    → GoesDown s
is_name s h a b c = ((h, differ s "" a, differ s "." b), differ s ".." c)

release-GoesDown : (tag : String) → GoesDown tag → All GoesDown (names (release tag))
release-GoesDown tag h = (
  is_name "o" refl refl refl refl,
  (
    is_name "r" refl refl refl refl,
    (h, (is_name "a" refl refl refl refl, (is_name "d1" refl refl refl refl, tt))),
  ),
)

dir_of-names_example :
    (components (dir_of "/home/u" (release "v1"))
      ≡ components "/home/u" ++ (fixed_names ++ names (release "v1")))
    × (dir_of "/home/u" (release "v1") ≡ dir_of "/home/u" (release "v2")
        → names (release "v1") ≡ names (release "v2"))
dir_of-names_example =
    dir_of-names "/home/u" (release "v1") (release "v2") (differ "/home/u" "" refl)
      (release-GoesDown "v1" (is_name "v1" refl refl refl refl))
      (release-GoesDown "v2" (is_name "v2" refl refl refl refl))

abbrev reference : String
reference = "${secret:API_KEY}"

abbrev key : String
key = "API_KEY"

is_secret_ref-secret_ref_example :
    (is_secret_ref reference ≡ some key)
    ↔ ((reference ≡ secret_ref key) × (key ≢ "") × (all_name key ≡ true))
is_secret_ref-secret_ref_example = is_secret_ref-secret_ref reference key

-- The server answers with the status that the world is.
abbrev http_client : HttpClient ℕ
http_client = record {
  address_error = λ url. none;
  github_token = λ w. "t1";
  do_request = λ req w. (ok (record { status_code = w; status = "any"; body = binary }), w);
  close_body = λ w. w;
}

redirect_refused : (http_download http_client "u" 302).0 ≡ err (plain "download u: status any")
unfolding http_download
redirect_refused = refl
