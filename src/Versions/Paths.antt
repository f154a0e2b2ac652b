-- ===== src/Versions/Paths.antt =====
-- The admitted upgrades, against the order of the supported versions.
use mongodb_operator.Common.{
  ℕ, ◌+◌, String, Bool, true, false, ◌&&◌, ◌||◌, Option, none, some, ◌≡◌, inl, inr, refl, arith,
  ◌==◌, Bool-cases, str_eq, if◌then◌else◌, [], ◌∷◌,
}
use mongodb_operator.Versions.{
  VersionList, IsMustList, parse_mongo_version, supported_minors, is_valid_upgrade_path,
  is_supported_version, PathError, check_major_step, index_from, check_minor_step, check_parsed,
}

-- The place of a release in the order 8.0, 8.2, 8.3, 9.0.
abbrev pub rank : ℕ × ℕ → Option ℕ
rank (major, minor) =
    if major == 8
    then (if minor == 0
        then some 0
        else if minor == 2
        then some 1
        else if minor == 3
        then some 2
        else none)
    else if major == 9
    then (if minor == 0 then some 3 else none)
    else none

minors_of_list :
    (l : VersionList) (major : ℕ)
    → IsMustList l
    → supported_minors l major
      ≡ (if major == 8 then 0 ∷ 2 ∷ 3 ∷ [] else if major == 9 then 0 ∷ [] else [])
unfolding supported_minors
minors_of_list l major h = rw h.lists (ground arith)

abbrev pub is_nil : Option PathError → Bool
is_nil none = true
is_nil (some e) = false

abbrev pub next_to : Option ℕ → Option ℕ → Bool
next_to (some a) (some b) = b == a || b == a + 1
next_to _ _ = false

abbrev pub rank_of : Option (ℕ × ℕ) → Option ℕ
rank_of none = none
rank_of (some v) = rank v

minor_step-none :
    (l : VersionList) (major m n : ℕ)
    → IsMustList l
    → is_nil (check_minor_step l major m n) ≡ next_to (rank (major, m)) (rank (major, n))
unfolding index_from
minor_step-none l major m n h = rw (minors_of_list l major h) (ground arith)

major_step-none :
    (l : VersionList) (a m b n : ℕ)
    → IsMustList l
    → (b == a) ≡ false
    → is_nil (check_major_step l (a, m) (b, n)) ≡ next_to (rank (a, m)) (rank (b, n))
unfolding check_major_step
major_step-none l a m b n h ne = rw (minors_of_list l a h, minors_of_list l b h) (ground arith)

same_major : (a b : ℕ) → (b == a) ≡ true → b ≡ a
same_major a b h = ground arith

parsed-none :
    (l : VersionList) (p q : Option (ℕ × ℕ))
    → IsMustList l
    → is_nil (check_parsed l p q) ≡ next_to (rank_of p) (rank_of q)
parsed-none l none q h = refl
parsed-none l (some (a, m)) none h = by-rank (rank (a, m))
  where
    by-rank : (r : Option ℕ) → false ≡ next_to r none
    by-rank none = refl
    by-rank (some x) = refl
parsed-none l (some (a, m)) (some (b, n)) h = elim (Bool-cases (b == a)) [
  | inl same ↦ rw (same) (rw (same_major a b same) (minor_step-none l a m n h))
  | inr ne ↦ rw (ne) (major_step-none l a m b n h ne)
]

-- IsValidUpgradePath admits an update exactly if the two texts are the same, or both versions are
-- supported and the new one is the release of the old one or the one after it in the order 8.0,
-- 8.2, 8.3, 9.0: a downgrade, a skipped release, and every other change of the major version are
-- refused. The list of versions is the one that `MustList` makes of the four names.
pub upgrade_path_sequence :
    (l : VersionList) (from to : String)
    → IsMustList l
    → is_nil (is_valid_upgrade_path l from to) ≡ (
        str_eq from to
        || (is_supported_version l from
            && (is_supported_version l to
                && next_to
                    (rank_of (parse_mongo_version from))
                    (rank_of (parse_mongo_version to)))))
unfolding is_valid_upgrade_path
upgrade_path_sequence l from to h =
    rw (← parsed-none l (parse_mongo_version from) (parse_mongo_version to) h) (ground arith)
