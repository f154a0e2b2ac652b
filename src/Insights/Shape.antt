-- ===== src/Insights/Shape.antt =====
-- splitNS, filterShape, suggestIndex, severityFromLatency and countBoolClauses of
-- internal/insights/analyzer.go: what is read off one query.
use Prim.Native.Char.{code}
use mongodb_operator.Common.{
  ℕ, String, Bool, true, false, ◌&&◌, Option, none, some, List, [], ◌∷◌, ◌++◌, if◌then◌else◌, ltb,
  leb, is_one_of, lookup, sort_texts, length, ◌==◌,
}
use mongodb_operator.Upgrade.Status.{◌+++◌}
use mongodb_operator.Insights.{Severity, info, warning, critical}

-- `strings.Join(xs, sep)`
unfoldable pub join : String → List String → String
join sep [] = ""
join sep (x ∷ []) = x
join sep (x ∷ y ∷ xs) = x +++ sep +++ join sep (y ∷ xs)

-- What is before the first dot, and what is behind it.
unfoldable pub cut_dot : String → Option (String × String)
cut_dot String.[] = none
cut_dot (String.◌∷◌ c s) =
    let rest = cut_dot s in
    if code c == 46
    then some (String.[], s)
    else elim rest [ none ↦ none | some (before, behind) ↦ some (String.◌∷◌ c before, behind) ]

-- splitNS
unfoldable pub split_ns : String → String × String
unfolding cut_dot
split_ns s = elim (cut_dot s) [ none ↦ (s, "") | some p ↦ p ]

-- filterShape of the keys
unfoldable pub filter_shape : List String → String
unfolding join sort_texts
filter_shape keys = join "," (sort_texts keys)

abbrev pub keys_of : {V : Type 0} → List (String × V) → List String
keys_of [] = []
keys_of ((k, _) ∷ m) = k ∷ keys_of m

abbrev pub without : List String → List String → List String
without fs [] = []
without fs (k ∷ ks) = if is_one_of fs k then without fs ks else k ∷ without fs ks

abbrev pub ascending : List String → List String
ascending [] = []
ascending (k ∷ ks) = (k +++ ":1") ∷ ascending ks

abbrev pub is_nil {ℓ} : {A : Type ℓ} → List A → Bool
is_nil [] = true
is_nil (_ ∷ _) = false

-- suggestIndex
unfoldable pub suggest_index : List String → List String → String
unfolding join sort_texts
suggest_index fs ss =
    if is_nil fs && is_nil ss
    then ""
    else "{" +++ join ", " (ascending (sort_texts fs ++ sort_texts (without fs ss))) +++ "}"

-- severityFromLatency
unfoldable pub severity_from_latency : ℕ → Severity
severity_from_latency avg = if leb 1000 avg then critical else if leb 500 avg then warning else info

abbrev pub larger : ℕ → ℕ → ℕ
larger a b = if ltb b a then a else b

abbrev pub length_at : String → List (String × ℕ) → ℕ
length_at k m = elim (lookup k m) [ none ↦ 0 | some n ↦ n ]

-- countBoolClauses
unfoldable pub count_bool_clauses : List (String × ℕ) → ℕ
unfolding lookup
count_bool_clauses m = larger (length_at "$nor" m) (larger (length_at "$or" m) 0)

abbrev pub add_sample : String → List String → List String
add_sample s xs = if ltb (length xs) 3 then xs ++ s ∷ [] else xs
