-- ===== src/Plugins/CacheDir.antt =====
-- The directory of a release in the cache, and which releases have the same one.
use mathlib.Core.List.{append_cancel_left}
use vulpes_core.Base.{
  String, ◌<>◌, ◌≡◌, ◌≢◌, refl, ap, sym, ◌∙◌, List, [], ◌∷◌, ◌++◌, All, arith, eq_iff, ◌==◌, false,
}
use vulpes_core.FilePath.{split_slash, components, join_all}
use vulpes_core.FilePath.Split.{NoSlash, has_slash, split_slash-append, split_slash-one}
use vulpes_core.FilePath.Clean.{GoesDown}
use vulpes_core.FilePath.Joined.{components-join_all}
use vulpes_core.Plugins.Sources.{github_cache_dir, owner_and_repo}

-- The names that a release is found by: the owner, the repository, the tag, the asset, the digest.
pub record Release : Type 0 where
  pub owner : String
  pub repo : String
  pub tag : String
  pub asset : String
  pub sha : String

abbrev pub names : Release → List String
names x = x.owner ∷ x.repo ∷ x.tag ∷ x.asset ∷ x.sha ∷ []

abbrev pub dir_of : String → Release → String
dir_of home x = github_cache_dir home (x.owner <> "/" <> x.repo) x.tag x.asset x.sha

abbrev pub fixed_names : List String
fixed_names = ".llm-gateway" ∷ "plugins" ∷ "github" ∷ []

owner_and_repo-split :
    (owner repo : String)
    → NoSlash owner
    → NoSlash repo
    → owner_and_repo (split_slash (owner <> "/" <> repo)) (owner <> "/" <> repo) ≡ (owner, repo)
owner_and_repo-split owner repo h k =
    ap (λ parts. owner_and_repo parts (owner <> "/" <> repo))
      (split_slash-append owner repo
        ∙ ap (λ l. l ++ split_slash repo) (split_slash-one owner h)
        ∙ ap (λ l. owner ∷ l) (split_slash-one repo k))

differ : (s t : String) → (s == t) ≡ false → s ≢ t
differ s t h e = ground (arith, h, eq_iff s t, e)

tests-GoesDown :
    (s : String)
    → has_slash s ≡ false
    → (s == "") ≡ false
    → (s == ".") ≡ false
    → (s == "..") ≡ false
    → GoesDown s
tests-GoesDown s h a b c = ((h, differ s "" a, differ s "." b), differ s ".." c)

fixed_GoesDown : All GoesDown fixed_names
fixed_GoesDown = (
  tests-GoesDown ".llm-gateway" refl refl refl refl,
  (tests-GoesDown "plugins" refl refl refl refl, (tests-GoesDown "github" refl refl refl refl, tt)),
)

-- The parts of the directory are those of the home directory, then three that are fixed, then the
-- names of the release.
components-dir_of :
    (home : String) (x : Release)
    → home ≢ ""
    → All GoesDown (names x)
    → components (dir_of home x) ≡ components home ++ (fixed_names ++ names x)
unfolding github_cache_dir
components-dir_of home x h down =
    let (a, (b, (c, _))) = fixed_GoesDown in
    ap
      (λ (o, r). components (
        join_all
          (home ∷ ".llm-gateway" ∷ "plugins" ∷ "github" ∷ o ∷ r ∷ x.tag ∷ x.asset ∷ x.sha ∷ [])))
      (owner_and_repo-split x.owner x.repo down.0.0.0 down.1.0.0.0)
    ∙ components-join_all home ".llm-gateway" ("plugins" ∷ "github" ∷ names x) h (a, (b, (c, down)))

-- In a home directory whose path is not the empty text, two releases whose owner, repository, tag,
-- asset and digest are names, not empty, not a dot or two, and without a slash, have the same
-- directory of the cache only if they agree in all five; and the parts of the directory are those
-- of the home directory, three that are fixed, and the five names.
pub dir_of-names :
    (home : String) (x y : Release)
    → home ≢ ""
    → All GoesDown (names x)
    → All GoesDown (names y)
    → (components (dir_of home x) ≡ components home ++ (fixed_names ++ names x))
      × (dir_of home x ≡ dir_of home y → names x ≡ names y)
dir_of-names home x y h down down' = (
  components-dir_of home x h down,
  λ same. append_cancel_left fixed_names (names x) (names y) (
      append_cancel_left (components home) (fixed_names ++ names x) (fixed_names ++ names y) (
        sym (components-dir_of home x h down)
        ∙ ap components same
        ∙ components-dir_of home y h down')),
)
