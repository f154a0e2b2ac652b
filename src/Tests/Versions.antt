-- ===== src/Tests/Versions.antt =====
-- The supported versions as `MustList` gives them, and what the code says of some versions.
use mongodb_operator.Common.{true, false, some, split_n, ◌≡◌, refl}
use mongodb_operator.Versions.{
  parse_mongo_version, VersionList, IsMustList, supported_versions, contains, is_supported_version,
  is_valid_upgrade_path, minor_skip, major_change, downgrade,
}
use mongodb_operator.Versions.Paths.{is_nil, upgrade_path_sequence}

abbrev pub must_list : VersionList
must_list = record { strings = supported_versions; is_supported = contains supported_versions }

pub must_list-IsMustList : IsMustList must_list
must_list-IsMustList = record { lists = refl; supports = λ v. refl }

patch_supported : is_supported_version must_list "9.0.2" ≡ true
unfolding is_supported_version split_n
patch_supported = refl

major_only_unsupported : is_supported_version must_list "8" ≡ false
unfolding is_supported_version split_n
major_only_unsupported = refl

path_skip : is_valid_upgrade_path must_list "8.0.4" "8.3.0" ≡ some minor_skip
unfolding is_valid_upgrade_path is_supported_version split_n
path_skip = refl

path_major : is_valid_upgrade_path must_list "8.0.4" "9.0.0" ≡ some major_change
unfolding is_valid_upgrade_path is_supported_version split_n
path_major = refl

path_down : is_valid_upgrade_path must_list "8.2" "8.0.4" ≡ some downgrade
unfolding is_valid_upgrade_path is_supported_version split_n
path_down = refl

upgrade_path_sequence_example : is_nil (is_valid_upgrade_path must_list "8.3.1" "9.0.0") ≡ true
unfolding is_supported_version split_n parse_mongo_version
upgrade_path_sequence_example = upgrade_path_sequence must_list "8.3.1" "9.0.0" must_list-IsMustList
