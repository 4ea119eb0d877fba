-- ===== src/Tests/Versions.antt =====
-- Version strings of internal/shared/version.go.
use easywall.Prelude.{ℕ, ◌≡◌, ◌↔◌, refl, true, false, some, [], ◌∷◌}
use easywall.Text.{Text, codes, same, trim_space, atoi}
use easywall.Version.{less, equal, split_version, compare_versions, release_version, is_newer}
use easywall.Version.Order.{flip, Composes, compare_versions-Composes}
use easywall.Version.Equal.{number, compare_versions-equal}

abbrev no_pre : Text
no_pre = []

-- A pre-release, its release, and the one behind it.
candidate_split : split_version (codes "v2.5.0-rc1") ≡ some (2 ∷ (5 ∷ (0 ∷ [])), codes "rc1")
unfolding split_version trim_space atoi
candidate_split = refl

release_split : split_version (codes "2.5") ≡ some (2 ∷ (5 ∷ []), [])
unfolding split_version trim_space atoi
release_split = refl

padded_split : split_version (codes "v2.5.0") ≡ some (2 ∷ (5 ∷ (0 ∷ [])), [])
unfolding split_version trim_space atoi
padded_split = refl

compare_versions-Composes_example :
    (compare_versions (codes "2.5") (codes "v2.5.0-rc1")
      ≡ flip (compare_versions (codes "v2.5.0-rc1") (codes "2.5")))
    × Composes
        (compare_versions (codes "v2.5.0-rc1") (codes "2.5"))
        (compare_versions (codes "2.5") (codes "v2.5.0"))
        (compare_versions (codes "v2.5.0-rc1") (codes "v2.5.0"))
compare_versions-Composes_example =
    compare_versions-Composes (codes "v2.5.0-rc1") (codes "2.5") (codes "v2.5.0")
      (_, candidate_split) (_, release_split) (_, padded_split)

compare_versions-equal_example :
    (compare_versions (codes "2.5") (codes "v2.5.0") ≡ equal)
    ↔ (((i : ℕ) → number (2 ∷ (5 ∷ [])) i ≡ number (2 ∷ (5 ∷ (0 ∷ []))) i) × (no_pre ≡ no_pre))
compare_versions-equal_example =
    compare_versions-equal (codes "2.5") (codes "v2.5.0") (2 ∷ (5 ∷ [])) (2 ∷ (5 ∷ (0 ∷ []))) no_pre
      no_pre release_split padded_split

-- A build ahead of its tag is not offered the tag.
no_downgrade : is_newer (codes "v2.29.1") (codes "v2.29.1-5-gabc1-dirty") ≡ false
unfolding is_newer trim_space atoi same
no_downgrade = refl

newer : is_newer (codes "v2.30.0") (codes "2.29.2") ≡ true
unfolding is_newer trim_space atoi same
newer = refl

candidate_kept : release_version (codes "v2.16.0-rc1") ≡ codes "v2.16.0-rc1"
unfolding release_version same
candidate_kept = refl

-- Build metadata is read as a pre-release.
metadata_sorts_below : compare_versions (codes "2.5.0+deb1") (codes "2.5.0") ≡ less
unfolding compare_versions trim_space atoi same
metadata_sorts_below = refl
