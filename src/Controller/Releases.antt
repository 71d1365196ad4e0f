-- ===== src/Controller/Releases.antt =====
-- internal/controller/releases.go: which versions and files a release has.
use Prim.Native.Char.{code}
use Prim.Native.String.{◌++◌ as ◌<>◌}
use xmesh.Common.{
  ℕ, Bool, true, false, ◌&&◌, ◌||◌, not, Option, none, some, List, [], ◌∷◌, ◌++◌, String, str_eq,
  leb, ◌==◌, if◌then◌else◌,
}
use xmesh.Common.Int.{ℤ, pos, ltz, eqz}

abbrev pub is_alphanumeric : ℕ → Bool
is_alphanumeric c =
    (leb b'a' c && leb c b'z') || (leb b'A' c && leb c b'Z') || (leb b'0' c && leb c b'9')

-- A character of [a-zA-Z0-9._-]
abbrev pub is_version_char : ℕ → Bool
is_version_char c = is_alphanumeric c || c == b'.' || c == b'_' || c == b'-'

unfoldable pub all_version_chars : String → Bool
all_version_chars String.[] = true
all_version_chars (String.◌∷◌ c s) = is_version_char (code c) && all_version_chars s

-- `releaseVersionPattern`
unfoldable pub release_version : String → Bool
unfolding all_version_chars
release_version String.[] = false
release_version (String.◌∷◌ c s) = is_alphanumeric (code c) && all_version_chars s

-- net/url's Parse of the base URL, its parts that `releaseEnabled` reads.
pub record Url : Type 0 where
  pub scheme : String
  pub host : String
  pub has_user : Bool
  pub raw_query : String
  pub fragment : String

-- The settings of a release, net/url's Parse, and fmt.Sscanf at "v%d.%d.%d".
pub record Releases : Type 0 where
  pub release_dir : String
  pub version : String
  pub base_url : Option Url
  pub scan_version : String → Option (ℤ × ℤ × ℤ)

abbrev has_updater : Option (ℤ × ℤ × ℤ) → Bool
has_updater none = false
has_updater (some (major, minor, patch)) =
    ltz (pos 0) major || ltz (pos 3) minor || (eqz minor (pos 3) && ltz (pos 2) patch)

-- `releaseAssets`
unfoldable pub release_assets : Releases → String → List String
release_assets cfg version =
    ("SHA256SUMS"
      ∷ "install.sh"
      ∷ "install-docker.sh"
      ∷ "install-controller.sh"
      ∷ "backup-controller.sh"
      ∷ "THIRD_PARTY_NOTICES.md"
      ∷ ("xmesh-" <> (version <> "-linux-amd64.tar.gz"))
      ∷ ("xmesh-" <> (version <> "-linux-arm64.tar.gz"))
      ∷ ("xmesh-" <> (version <> "-windows-amd64.exe"))
      ∷ [])
    ++ (if has_updater (cfg.scan_version version) then "install-updater.sh" ∷ [] else [])

unfoldable pub one_of : String → List String → Bool
one_of name [] = false
one_of name (asset ∷ assets) = if str_eq name asset then true else one_of name assets

-- `isReleaseAsset`
unfoldable pub is_release_asset : Releases → String → String → Bool
unfolding one_of release_assets
is_release_asset cfg version name = one_of name (release_assets cfg version)

-- `releaseEnabled`
unfoldable pub release_enabled : Releases → Bool
release_enabled cfg = elim cfg.base_url [
  | none ↦ false
  | some u ↦
      not (str_eq cfg.release_dir "")
      && release_version cfg.version
      && str_eq u.scheme "https"
      && not (str_eq u.host "")
      && not u.has_user
      && str_eq u.raw_query ""
      && str_eq u.fragment ""
]
