-- ===== src/Upgrade/Tests.antt =====
-- Runs of lib/upgrade/upgrade_common.go, and the theorems at such versions.
use vidsync_app.Base.{◌≡◌, refl, [], ◌∷◌, pos}
use vidsync_app.DeviceId.Text.{Bytes, codes}
use vidsync_app.Upgrade.{
  compare_release, compare_length, compare_kind, older, major_older, number, text, version_parts,
  compare_versions, atoi, split, split_two, prerelease_part,
}
use vidsync_app.Upgrade.Order.{flip, compare_versions-flip}

abbrev beta : Bytes
beta = codes "v1.2.3-beta.2"

abbrev release : Bytes
release = codes "1.2.3+build"

parts_run :
    version_parts beta ≡ (pos 1 ∷ pos 2 ∷ pos 3 ∷ [], text (codes "beta") ∷ number (pos 2) ∷ [])
unfolding version_parts atoi split split_two prerelease_part
parts_run = refl

beta_older : compare_versions beta release ≡ older
unfolding compare_versions version_parts atoi split split_two prerelease_part compare_release
    compare_length compare_kind
beta_older = refl

major_run : compare_versions (codes "1.9") (codes "2.0") ≡ major_older
unfolding compare_versions version_parts atoi split split_two prerelease_part compare_release
major_run = refl

compare_versions-flip_example : compare_versions release beta ≡ flip (compare_versions beta release)
compare_versions-flip_example = compare_versions-flip beta release
