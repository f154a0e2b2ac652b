-- ===== src/Insights/Patterns.antt =====
-- The slow patterns that an analysis reports, against the documents.
use mongodb_operator.Common.{
  ℕ, ◌+◌, ◌<◌, String, Bool, ◌&&◌, not, Option, none, some, List, [], ◌∷◌, ◌≡◌, refl, arith, str_eq,
  eq_iff, if◌then◌else◌, ltb, lookup, ◌∙◌, ap, sym, Bool-cases, inl, inr, ◌⊎◌,
}
use mongodb_operator.Common.Int.{ℤ, pos, ltb_ℤ}
use mongodb_operator.Insights.{ProfileDoc, Runtime}
use mongodb_operator.Insights.Group.{
  occurrences, occurrences-sort_texts, gathered, lookup-group, IsMap, group-IsMap,
}
use mongodb_operator.Insights.Analysis.{
  SlowBucket, slow_key, make_slow, add_slow, average, is_slow, slow_of, slow_groups, slow_keys,
}

module _ (o : Runtime) where
  -- How many documents have the pattern, and how long they took together.
  unfoldable pub count_of : String → List ProfileDoc → ℕ
  count_of k [] = 0
  count_of k (d ∷ ds) = if str_eq (slow_key o d) k then 1 + count_of k ds else count_of k ds

  unfoldable pub millis_of : String → List ProfileDoc → ℕ
  millis_of k [] = 0
  millis_of k (d ∷ ds) =
      if str_eq (slow_key o d) k then d.millis + millis_of k ds else millis_of k ds

  abbrev collected : String → List ProfileDoc → Option SlowBucket → Option SlowBucket
  collected = gathered (slow_key o) (make_slow o) (add_slow o)

  -- A bucket of the counts.
  abbrev pub Holds : Option SlowBucket → ℕ → ℕ → Type 0
  Holds x n total = (b : SlowBucket) × (x ≡ some b) × (b.count ≡ n) × (b.total ≡ total)

  collected_some :
      (k : String) (ds : List ProfileDoc) (b : SlowBucket)
      → Holds (collected k ds (some b)) (b.count + count_of k ds) (b.total + millis_of k ds)
  unfolding gathered count_of millis_of
  collected_some k [] b = (b, refl, omega arith, omega arith)
  collected_some k (d ∷ ds) b = elim (Bool-cases (str_eq (slow_key o d) k)) [
    | inl same ↦
        let (b', e, n, t) = collected_some k ds (add_slow o d b) in
        rw same (b', e, omega (arith, n), omega (arith, t))
    | inr other ↦ rw other (collected_some k ds b)
  ]

  collected_none :
      (k : String) (ds : List ProfileDoc) → count_of k ds ≡ 0 → collected k ds none ≡ none
  unfolding gathered count_of
  collected_none k [] h = refl
  collected_none k (d ∷ ds) h = ground (arith, collected_none k ds)

  collected_first :
      (k : String) (ds : List ProfileDoc)
      → 0 < count_of k ds
      → Holds (collected k ds none) (count_of k ds) (millis_of k ds)
  unfolding gathered count_of millis_of
  collected_first k [] h = absurd (omega arith)
  collected_first k (d ∷ ds) h = elim (Bool-cases (str_eq (slow_key o d) k)) [
    | inl same ↦
        let (b', e, n, t) = collected_some k ds (add_slow o d (make_slow o d)) in
        rw same (b', e, omega (arith, n), omega (arith, t))
    | inr other ↦ rw other (collected_first k ds (rw other at h))
  ]

  abbrev once : ℤ → Option SlowBucket → ℕ
  once threshold none = 0
  once threshold (some b) = if is_slow o threshold b then 1 else 0

  occurrences-slow_of :
      (k : String) (threshold : ℤ) (m : List (String × SlowBucket))
      → IsMap (slow_key o) (make_slow o) (add_slow o) m
      → occurrences k (slow_of o threshold m) ≡ once threshold (lookup k m)
  unfolding occurrences lookup
  occurrences-slow_of k threshold [] h = refl
  occurrences-slow_of k threshold ((j, b) ∷ m) (alone, h) = elim (Bool-cases (str_eq j k)) [
    | inl same ↦
        let e : j ≡ k = (eq_iff j k).0 same in
        let rest : occurrences k (slow_of o threshold m) ≡ 0 =
          occurrences-slow_of k threshold m h
          ∙ ap (once threshold) (ap (λ i. lookup i m) (sym e) ∙ alone) in
        ground (arith, rest)
    | inr other ↦ ground (arith, occurrences-slow_of k threshold m h)
  ]

  groups_are_collected :
      (k : String) (docs : List ProfileDoc) → lookup k (slow_groups o docs) ≡ collected k docs none
  unfolding lookup
  groups_are_collected k docs = lookup-group (slow_key o) (make_slow o) (add_slow o) k docs []

  abbrev pub is_slow_pattern : ℕ → ℕ → ℤ → Bool
  is_slow_pattern n total threshold =
      not (ltb n 3) && not (ltb_ℤ (pos (average o total n)) threshold)

  once_slow :
      (threshold : ℤ) (x : Option SlowBucket) (n total : ℕ)
      → Holds x n total
      → once threshold x ≡ (if is_slow_pattern n total threshold then 1 else 0)
  once_slow threshold x n total (b, e, hn, ht) = rw (e, ← hn, ← ht) refl

  occurrences-slow_keys :
      (k : String) (docs : List ProfileDoc) (threshold : ℤ)
      → occurrences k (slow_keys o docs threshold) ≡ once threshold (collected k docs none)
  unfolding slow_keys
  occurrences-slow_keys k docs threshold =
      occurrences-sort_texts k (slow_of o threshold (slow_groups o docs))
      ∙ occurrences-slow_of k threshold (slow_groups o docs)
          (group-IsMap (slow_key o) (make_slow o) (add_slow o) docs [] tt)
      ∙ ap (once threshold) (groups_are_collected k docs)

  -- A pattern of queries, a namespace with the keys of a filter, is reported as slow exactly once if at
  -- least three of the documents have it and their average latency, over all of them, fast or slow, is
  -- at least the threshold; otherwise it is not reported. A pattern that occurs has a bucket with the
  -- number of its documents and the sum of their latencies, from which its recommendation is made.
  pub slow_keys_exact :
      (k : String) (docs : List ProfileDoc) (threshold : ℤ)
      → (occurrences k (slow_keys o docs threshold)
          ≡ (if is_slow_pattern (count_of k docs) (millis_of k docs) threshold then 1 else 0))
        × ((count_of k docs ≡ 0)
            ⊎ Holds (lookup k (slow_groups o docs)) (count_of k docs) (millis_of k docs))
  slow_keys_exact k docs threshold = elim (Bool-cases (ltb 0 (count_of k docs))) [
    | inl some_docs ↦
        let filled = collected_first k docs (ground arith) in
        (
          occurrences-slow_keys k docs threshold
              ∙ once_slow threshold (collected k docs none) (count_of k docs) (millis_of k docs)
                  filled,
          inr (rw (groups_are_collected k docs) filled),
        )
    | inr no_docs ↦
        let zero_docs : count_of k docs ≡ 0 = ground arith in
        (
          occurrences-slow_keys k docs threshold
              ∙ ap (once threshold) (collected_none k docs zero_docs)
              ∙ rw zero_docs refl,
          inl zero_docs,
        )
  ]
