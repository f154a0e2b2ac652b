-- ===== src/SearchIndex/Driver.antt =====
-- internal/mongodb/searchindex.go: the phase for a status of mongot, and the errors of a drop that
-- mean that the index is gone.
use mongodb_operator.Common.{
  ℕ, String, Bool, false, ◌||◌, List, [], ◌∷◌, str_eq, if◌then◌else◌, ◌==◌, contains,
}

-- An error of the driver: a mongo.ServerError with its codes, or another one; with its message.
pub data DriverError : Type 0 where
  server : List ℕ → String → DriverError
  other : String → DriverError

abbrev pub error_message : DriverError → String
error_message (server _ s) = s
error_message (other s) = s

-- SearchIndexInfo
pub record SearchIndexInfo : Type 0 where
  pub id : String
  pub name : String
  pub status : String
  pub queryable : Bool

-- The `Phase` of a MongoDBSearchIndex; `unset` is "".
pub data IndexPhase : Type 0 where
  unset pending building ready failed deleting : IndexPhase

-- ClassifyMongotStatus; `to_upper` is strings.ToUpper.
unfoldable pub classify_mongot_status : (String → String) → String → Bool → IndexPhase
classify_mongot_status to_upper status queryable =
    let s = to_upper status in
    if str_eq s "READY"
    then (if queryable then ready else building)
    else if str_eq s "PENDING" || (str_eq s "BUILDING" || str_eq s "STALE")
    then building
    else if str_eq s "FAILED"
    then failed
    else pending

-- ServerError.HasErrorCode
abbrev pub is_one_of_codes : List ℕ → ℕ → Bool
is_one_of_codes [] c = false
is_one_of_codes (d ∷ ds) c = d == c || is_one_of_codes ds c

abbrev pub any_code : DriverError → Bool
any_code (server cs _) = is_one_of_codes cs 27 || (is_one_of_codes cs 26 || is_one_of_codes cs 220)
any_code (other _) = false

-- isIndexNotFoundErr; `to_lower` is strings.ToLower.
unfoldable pub is_index_not_found_err : (String → String) → DriverError → Bool
unfolding contains
is_index_not_found_err to_lower e =
    let s = to_lower (error_message e) in
    any_code e
    || (contains s "index not found" || (contains s "ns not found" || contains s "does not exist"))
