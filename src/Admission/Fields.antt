-- ===== src/Admission/Fields.antt =====
-- What the webhooks use of k8s.io/apimachinery/pkg/util/validation/field. An error is kept by its
-- kind and its place; the offending value and the detail text are left out.
use mongodb_operator.Common.{ℕ, String, Bool, List, [], ◌∷◌, ◌++◌, if◌then◌else◌}

pub data Segment : Type 0 where
  child : String → Segment
  index : ℕ → Segment

-- `field.Path`, from the root on.
abbrev pub FieldPath : Type 0
FieldPath = List Segment

pub data ErrorKind : Type 0 where
  invalid required duplicate not_supported : ErrorKind

pub record FieldError : Type 0 where
  pub kind : ErrorKind
  pub path : FieldPath

infixl 60 ◌/◌
-- `p.Child(name)` and `p.Index(i)`
abbrev pub ◌/◌ : FieldPath → Segment → FieldPath
p / s = p ++ s ∷ []

-- `if test { errs = append(errs, field.Kind(path, …)) }`
abbrev pub report : Bool → ErrorKind → FieldPath → List FieldError
report test kind path = if test then record { kind = kind; path = path } ∷ [] else []

-- `errs = append(errs, part...)` for each part in turn
unfoldable pub concat : List (List FieldError) → List FieldError
concat [] = []
concat (part ∷ parts) = part ++ concat parts
