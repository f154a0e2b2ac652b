-- ===== src/Versions.antt =====
-- api/v1alpha1/common_types.go: which MongoDB versions are supported, and from which to which a
-- cluster may be upgraded.
pub mod Paths
use Prim.Native.Char.{Char, code}
use Prim.Native.String.{◌++◌ as text_append}
use mongodb_operator.Common.{
  ℕ, ◌+◌, ◌-◌, ◌*◌, ◌%◌, ◌^◌, String, Bool, true, false, not, ◌&&◌, ◌||◌, Option, none, some, List,
  [], ◌∷◌, ◌++◌, ◌≡◌, ltb, leb, ◌==◌, str_eq, if◌then◌else◌, is_empty, split_n,
}

-- The list of keiailab-commons/pkg/version: what `Strings()` and `IsSupported` answer.
pub record VersionList : Type 0 where
  pub strings : List String
  pub is_supported : String → Bool

abbrev pub contains : List String → String → Bool
contains [] v = false
contains (x ∷ xs) v = str_eq x v || contains xs v

-- The arguments of `MustList` in the source.
abbrev pub supported_versions : List String
supported_versions = "8.0" ∷ "8.2" ∷ "8.3" ∷ "9.0" ∷ []

-- What is relied on of `MustList`: it lists its arguments, and supports exactly these.
pub record IsMustList (l : VersionList) : Type 0 where
  pub lists : l.strings ≡ supported_versions
  pub supports : (v : String) → l.is_supported v ≡ contains supported_versions v

abbrev major_minor_supported : VersionList → List String → Bool
major_minor_supported l (major ∷ minor ∷ _) =
    if is_empty major || is_empty minor
    then false
    else l.is_supported (text_append major (text_append "." minor))
major_minor_supported l _ = false

-- IsSupportedMongoDBVersion
unfoldable pub is_supported_version : VersionList → String → Bool
is_supported_version l v = major_minor_supported l (split_n 2 b'.' v)

abbrev snoc : List String → String → List String
snoc parts cur = parts ++ cur ∷ []

-- splitVersion, with its two variables `parts` and `cur`: an empty last part is dropped.
split_version_from : List String → String → String → List String
split_version_from parts cur String.[] = if is_empty cur then parts else snoc parts cur
split_version_from parts cur (String.◌∷◌ c s) =
    let dot = code c == b'.' in
    split_version_from (if dot then snoc parts cur else parts)
      (if dot then "" else text_append cur (String.◌∷◌ c String.[])) s

unfoldable pub split_version : String → List String
unfolding split_version_from
split_version v = split_version_from [] "" v

-- The loop of atoi; an `int` is kept as its bit pattern.
atoi_from : ℕ → String → Option ℕ
atoi_from n String.[] = some n
atoi_from n (String.◌∷◌ c s) =
    let rest = atoi_from ((n * 10 + (code c - b'0')) % 2 ^ 64) s in
    if ltb (code c) b'0' || ltb b'9' (code c) then none else rest

-- atoi
unfoldable pub atoi : String → Option ℕ
unfolding atoi_from
atoi s = if is_empty s then none else atoi_from 0 s

abbrev both : Option ℕ → Option ℕ → Option (ℕ × ℕ)
both (some a) (some b) = some (a, b)
both _ _ = none

abbrev parse_parts : List String → Option (ℕ × ℕ)
parse_parts (major ∷ minor ∷ _) = both (atoi major) (atoi minor)
parse_parts _ = none

-- parseMongoVersion
unfoldable pub parse_mongo_version : String → Option (ℕ × ℕ)
unfolding split_version atoi
parse_mongo_version v = parse_parts (split_version v)

-- sort.Ints
unfoldable pub insert_sorted : ℕ → List ℕ → List ℕ
insert_sorted x [] = x ∷ []
insert_sorted x (y ∷ ys) = if leb x y then x ∷ y ∷ ys else y ∷ insert_sorted x ys

unfoldable pub sort_ints : List ℕ → List ℕ
unfolding insert_sorted
sort_ints [] = []
sort_ints (x ∷ xs) = insert_sorted x (sort_ints xs)

abbrev keep_minor : ℕ → Option (ℕ × ℕ) → List ℕ → List ℕ
keep_minor major none rest = rest
keep_minor major (some (maj, min)) rest = if maj == major then min ∷ rest else rest

minors_of : ℕ → List String → List ℕ
minors_of major [] = []
minors_of major (v ∷ vs) = keep_minor major (parse_mongo_version v) (minors_of major vs)

-- supportedMinors; the loop of IsValidUpgradePath that fills `supported` is the same.
unfoldable pub supported_minors : VersionList → ℕ → List ℕ
unfolding minors_of sort_ints parse_mongo_version
supported_minors l major = sort_ints (minors_of major l.strings)

-- The error that IsValidUpgradePath returns, by the place that makes it.
pub data PathError : Type 0 where
  from_unsupported to_unsupported unparsable major_change downgrade not_in_sequence minor_skip :
      PathError

abbrev last_or : ℕ → List ℕ → ℕ
last_or d [] = d
last_or d (x ∷ xs) = last_or x xs

abbrev major_step_between : ℕ → ℕ → List ℕ → List ℕ → Option PathError
major_step_between from_minor to_minor (l ∷ ls) (f ∷ fs) =
    if not (from_minor == last_or l ls) || not (to_minor == f) then some major_change else none
major_step_between _ _ _ _ = some not_in_sequence

-- checkMajorStep, on the parsed versions: `none` is a nil error.
unfoldable pub check_major_step : VersionList → ℕ × ℕ → ℕ × ℕ → Option PathError
check_major_step l (from_major, from_minor) (to_major, to_minor) =
    if not (to_major == from_major + 1)
    then some major_change
    else major_step_between from_minor to_minor (supported_minors l from_major)
        (supported_minors l to_major)

-- The loop that looks for an index: the last place of the value, counted from `i`.
unfoldable pub index_from : ℕ → ℕ → Option ℕ → List ℕ → Option ℕ
index_from x i found [] = found
index_from x i found (m ∷ ms) = index_from x (i + 1) (if m == x then some i else found) ms

abbrev adjacent : Option ℕ → Option ℕ → Option PathError
adjacent (some i) (some j) = if ltb (i + 1) j then some minor_skip else none
adjacent _ _ = some not_in_sequence

abbrev pub check_minor_step : VersionList → ℕ → ℕ → ℕ → Option PathError
check_minor_step l major from_minor to_minor =
    let supported = supported_minors l major in
    if ltb to_minor from_minor
    then some downgrade
    else adjacent (index_from from_minor 0 none supported) (index_from to_minor 0 none supported)

abbrev pub check_parsed : VersionList → Option (ℕ × ℕ) → Option (ℕ × ℕ) → Option PathError
check_parsed l (some (from_major, from_minor)) (some (to_major, to_minor)) =
    if not (to_major == from_major)
    then check_major_step l (from_major, from_minor) (to_major, to_minor)
    else check_minor_step l from_major from_minor to_minor
check_parsed l _ _ = some unparsable

-- IsValidUpgradePath
unfoldable pub is_valid_upgrade_path : VersionList → String → String → Option PathError
unfolding check_major_step supported_minors index_from
is_valid_upgrade_path l from to =
    if str_eq from to
    then none
    else if not (is_supported_version l from)
    then some from_unsupported
    else if not (is_supported_version l to)
    then some to_unsupported
    else check_parsed l (parse_mongo_version from) (parse_mongo_version to)
