-- ===== src/Insights.antt =====
-- internal/insights and internal/controller/mongodbinsights_controller.go: recommendations from the
-- profile of a database, the actions planned for them, and the controller behind both.
pub mod Connect
pub mod Shape
pub mod Group
pub mod Analysis
pub mod Patterns
pub mod Actions
pub mod Fetch
pub mod Pass
pub mod Interval
pub mod Lost
use mongodb_operator.Common.{ℕ, String, Bool, List}
use mongodb_operator.Common.Int.{ℤ}

-- ProfileDoc. A filter is kept by its keys, each with the length that NormalizeSlice gives for its
-- value; a sort by its keys. A latency is a natural number.
pub record ProfileDoc : Type 0 where
  pub op : String
  pub ns : String
  pub millis : ℕ
  pub plan_summary : String
  pub filter : List (String × ℕ)
  pub sort : List String
  pub docs_examined : ℤ
  pub n_returned : ℤ

-- The `Type` of a Recommendation.
pub data RecType : Type 0 where
  missing_index slow_query_pattern unused_index schema_hint : RecType

-- The `Severity` of a Recommendation, a text in the source; `unknown` is any other text.
pub data Severity : Type 0 where
  info warning critical unknown : Severity

pub record Recommendation : Type 0 where
  pub type : RecType
  pub severity : Severity
  pub db : String
  pub collection : String
  pub detail : String
  pub index_suggestion : String
  pub avg_latency_ms : ℕ
  pub query_samples : List String

-- IndexStat
pub record IndexStat : Type 0 where
  pub ns : String
  pub index_name : String
  pub accesses : ℤ

-- What is outside: the formats of fmt, and the comparison of two int64, as float64, with a ratio.
pub record Runtime : Type 0 where
  pub decimal : ℤ → String
  pub quoted : String → String
  -- float64(a) / float64(b) > 100
  pub exceeds_hundredfold : ℤ → ℤ → Bool
  -- sort.Slice by a text, and the text of a zero byte
  pub sort_recommendations : (Recommendation → String) → List Recommendation → List Recommendation
  pub nul : String
