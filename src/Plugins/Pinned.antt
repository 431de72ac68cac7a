-- ===== src/Plugins/Pinned.antt =====
-- What ResolveGitHub has checked of a plugin that it gives.
use vulpes_core.Base.{
  String, ◌≡◌, ◌≢◌, ◌⊎◌, inl, inr, refl, ap, sym, ◌∙◌, true, false, not, ◌&&◌, Option, none, some,
  eq-false, arith, Result, ok, err, Bool-cases, Option-cases, Result-cases, subst,
}
use vulpes_core.Capabilities.{Error}
use vulpes_core.Plugins.Archive.{Contents}
use vulpes_core.Plugins.Sources.{
  ResolvedPlugin, FileInfo, Host, equal_fold, executable, resolve_filesystem, GitHubSource,
  Downloader, github_release_url, after, given, wanted, cache_dir, binary_path, cached, extracted,
  unpack, verify, install, install_removing, resolve_github,
}
use vulpes_core.Plugins.Checked.{IsRunnable, resolve_filesystem_lem}

after-ok :
    {W A : Type 0} (out : Option Error × W) (rest : W → Result Error A × W) (a : A)
    → (after out rest).0 ≡ ok a
    → (out.0 ≡ none) × ((rest out.1).0 ≡ ok a)
after-ok (some e, w) rest a h = ground (arith, h)
after-ok (none, w) rest a h = (refl, h)

pub given-ok :
    {W A B : Type 0} (out : Result Error A × W) (rest : A → W → Result Error B × W) (b : B)
    → (given out rest).0 ≡ ok b
    → (a : A) × (out.0 ≡ ok a) × ((rest a out.1).0 ≡ ok b)
given-ok (err e, w) rest b h = ground (arith, h)
given-ok (ok a, w) rest b h = (a, refl, h)

module _ {W : Type 0} (host : Host W) (src : GitHubSource) (home : String) where
  -- The plugin's path is that of the binary in the cache of a digest, and it could be run when it
  -- was looked at.
  pub record IsUnpacked (sha : String) (r : ResolvedPlugin) : Type 0 where
    pub path : r.path ≡ binary_path host src home sha
    pub seen : W
    pub runs : IsRunnable host r.path seen r.sha256

  -- The plugin is a file of an earlier call, under the checksum as its name.
  pub record IsCached (w : W) (r : ResolvedPlugin) : Type 0 where
    pub path : r.path ≡ binary_path host src home (wanted src)
    pub sha256 : r.sha256 ≡ wanted src
    pub info : FileInfo
    pub stat : host.stat r.path w ≡ ok info
    pub file : info.is_dir ≡ false
    pub runs : executable info.mode ≡ true

  -- The plugin is from the body of the release's asset, whose digest is the checksum.
  pub record IsReleased (download : Downloader W) (w : W) (r : ResolvedPlugin) : Type 0 where
    pub body : Contents
    pub delivered :
        (download (github_release_url src.repository src.release src.asset) w).0 ≡ ok body
    pub matches : equal_fold (wanted src) (host.sha256 body.bytes) ≡ true
    pub unpacked : IsUnpacked (wanted src) r

  unpack-IsUnpacked :
      (tmp sha : String) (w : W) (r : ResolvedPlugin)
      → (unpack host src home tmp sha w).0 ≡ ok r
      → IsUnpacked sha r
  unfolding unpack
  unpack-IsUnpacked tmp sha w r h =
      let made = host.files.mkdir_all (cache_dir host src home sha) 493 w in
      let (_, h1) = after-ok made _ r h in
      let out = extracted host src home tmp (cache_dir host src home sha) made.1 in
      let (_, h2) = after-ok out _ r h1 in
      let marked = host.chmod (binary_path host src home sha) 493 out.1 in
      elim (Option-cases marked.0) [
        | inr (_, bad) ↦ ground (arith, h2, bad)
        | inl good ↦
            let found : resolve_filesystem host (binary_path host src home sha) "" marked.1 ≡ ok r =
              ground (arith, h2, good) in
            let (runs, path, _) =
              (resolve_filesystem_lem host (binary_path host src home sha) "" marked.1 r).0 found in
            record {
              path = path;
              seen = marked.1;
              runs = subst (λ p. IsRunnable host p marked.1 r.sha256) (sym path) runs;
            }
      ]

  module _ (pinned : wanted src ≢ "") where
    verify-pinned :
        (tmp got : String) (w : W) (r : ResolvedPlugin)
        → (verify host src home tmp got w).0 ≡ ok r
        → (equal_fold (wanted src) got ≡ true) × IsUnpacked (wanted src) r
    unfolding verify
    verify-pinned tmp got w r h =
        let full = eq-false (wanted src) "" pinned in
        elim (Bool-cases (equal_fold (wanted src) got)) [
          | inr other ↦ ground (arith, h, full, other)
          | inl same ↦
              let done : (unpack host src home tmp (wanted src) w).0 ≡ ok r =
                ground (arith, h, full, same) in
              (same, unpack-IsUnpacked tmp (wanted src) w r done)
        ]

    install-pinned :
        (tmp : String) (body : Contents) (w : W) (r : ResolvedPlugin)
        → (install_removing host src home tmp body w).0 ≡ ok r
        → (equal_fold (wanted src) (host.sha256 body.bytes) ≡ true) × IsUnpacked (wanted src) r
    unfolding install_removing install
    install-pinned tmp body w r h =
        let copied = host.copy_temp tmp body w in
        elim (Option-cases copied.0) [
          | inr (_, bad) ↦ ground (arith, h, bad)
          | inl good ↦
              let closed = host.close_temp tmp copied.1 in
              let done : (after closed
                    (λ w2. verify host src home tmp (host.sha256 body.bytes) w2)).0
                  ≡ ok r =
                ground (arith, h, good) in
              let (_, verified) = after-ok closed _ r done in
              verify-pinned tmp (host.sha256 body.bytes) closed.1 r verified
        ]

    cached-IsCached : (w : W) (r : ResolvedPlugin) → cached host src home w ≡ some r → IsCached w r
    unfolding cached
    cached-IsCached w r h =
        let full = eq-false (wanted src) "" pinned in
        elim (Result-cases (host.stat (binary_path host src home (wanted src)) w)) [
          | inl (_, bad) ↦ ground (arith, h, full, bad)
          | inr (info, good) ↦ elim (Bool-cases (not info.is_dir && executable info.mode)) [
            | inr unfit ↦ ground (arith, h, full, good, unfit)
            | inl fit ↦
                let plugin : ResolvedPlugin = record {
                  path = binary_path host src home (wanted src);
                  sha256 = wanted src;
                } in
                let same : plugin ≡ r = ground (arith, h, full, good, fit) in
                subst (IsCached w) same (record {
                  path = refl;
                  sha256 = refl;
                  info = info;
                  stat = good;
                  file = ground (arith, fit);
                  runs = ground (arith, fit);
                })
          ]
        ]

    -- With a checksum that is more than the prefix `sha256:`, ResolveGitHub gives a plugin only in
    -- one of two cases. Either a file that can be run is in the cache, under the checksum as the
    -- name of its directory. Or the body of the release's asset was delivered, with a digest that is
    -- the checksum up to case, and the plugin is the binary in the directory of that checksum, which
    -- could be run.
    pub resolve_github_pinned :
        (download : Downloader W) (w : W) (r : ResolvedPlugin)
        → (resolve_github host src home download w).0 ≡ ok r
        → IsCached w r ⊎ IsReleased download w r
    unfolding resolve_github
    resolve_github_pinned download w r h = elim (Option-cases (cached host src home w)) [
      | inr (found, hit) ↦
          let same : found ≡ r = ground (arith, h, hit) in
          inl (cached-IsCached w r (hit ∙ ap some same))
      | inl miss ↦
          let answer = download (github_release_url src.repository src.release src.asset) w in
          let fetched : (given answer (λ body w1.
            given (host.create_temp "llm-gateway-plugin-*" w1)
              (λ tmp w2. install_removing host src home tmp body w2))).0
              ≡ ok r =
            ground (arith, h, miss) in
          let (body, delivered, h1) = given-ok answer _ r fetched in
          let (tmp, _, h2) = given-ok (host.create_temp "llm-gateway-plugin-*" answer.1) _ r h1 in
          let (matches, unpacked) = install-pinned tmp body _ r h2 in
          inr
            (record { body = body; delivered = delivered; matches = matches; unpacked = unpacked })
    ]
