-- ===== src/Insights/Group.antt =====
-- A Go map that is filled by a loop: the first element with a key makes a bucket, and each element is
-- added to the bucket of its key.
use mongodb_operator.Common.{
  ℕ, ◌+◌, String, Option, none, some, List, [], ◌∷◌, ◌≡◌, refl, arith, str_eq, eq_iff,
  if◌then◌else◌, lookup, sort_texts, insert_text, ◌∙◌, ap, Bool-cases, inl, inr,
}

-- How often a text occurs.
unfoldable pub occurrences : String → List String → ℕ
occurrences k [] = 0
occurrences k (s ∷ ss) = if str_eq s k then 1 + occurrences k ss else occurrences k ss

-- `sort.Strings` keeps every text as often as it was.
occurrences-insert_text :
    (k s : String) (ts : List String) → occurrences k (insert_text s ts) ≡ occurrences k (s ∷ ts)
unfolding occurrences insert_text
occurrences-insert_text k s [] = refl
occurrences-insert_text k s (t ∷ ts) = ground (arith, occurrences-insert_text k s ts)

occurrences_cons :
    (k t : String) (ss ts : List String)
    → occurrences k ss ≡ occurrences k ts
    → occurrences k (t ∷ ss) ≡ occurrences k (t ∷ ts)
unfolding occurrences
occurrences_cons k t ss ts h = rw h refl

pub occurrences-sort_texts :
    (k : String) (ts : List String) → occurrences k (sort_texts ts) ≡ occurrences k ts
unfolding sort_texts
occurrences-sort_texts k [] = refl
occurrences-sort_texts k (t ∷ ts) =
    occurrences-insert_text k t (sort_texts ts)
    ∙ occurrences_cons k t _ _ (occurrences-sort_texts k ts)

module _ {A B : Type 0} (key : A → String) (make : A → B) (add : A → B → B) where
  -- The bucket of an element with what was there before.
  abbrev pub bucket : A → Option B → B
  bucket d none = add d (make d)
  bucket d (some b) = add d b

  unfoldable pub upsert : A → List (String × B) → List (String × B)
  upsert d [] = (key d, bucket d none) ∷ []
  upsert d ((j, b) ∷ m) = if str_eq j (key d) then (j, add d b) ∷ m else (j, b) ∷ upsert d m

  -- The loop over the elements.
  unfoldable pub group : List A → List (String × B) → List (String × B)
  unfolding upsert
  group [] m = m
  group (d ∷ ds) m = group ds (upsert d m)

  -- What the loop makes of one key: the elements with the key, in turn.
  unfoldable pub gathered : String → List A → Option B → Option B
  gathered k [] o = o
  gathered k (d ∷ ds) o = gathered k ds (if str_eq (key d) k then some (bucket d o) else o)

  lookup-upsert :
      (k : String) (d : A) (m : List (String × B))
      → lookup k (upsert d m)
        ≡ (if str_eq (key d) k then some (bucket d (lookup k m)) else lookup k m)
  unfolding upsert lookup
  lookup-upsert k d [] = ground arith
  lookup-upsert k d ((j, b) ∷ m) =
      ground (arith, lookup-upsert k d m, eq_iff (key d) k, eq_iff j (key d), eq_iff j k)

  pub lookup-group :
      (k : String) (ds : List A) (m : List (String × B))
      → lookup k (group ds m) ≡ gathered k ds (lookup k m)
  unfolding group gathered
  lookup-group k [] m = refl
  lookup-group k (d ∷ ds) m =
      lookup-group k ds (upsert d m) ∙ ap (gathered k ds) (lookup-upsert k d m)

  -- A key has one bucket.
  abbrev pub IsMap : List (String × B) → Type 0
  IsMap [] = Unit
  IsMap ((j, b) ∷ m) = (lookup j m ≡ none) × IsMap m

  upsert-IsMap : (d : A) (m : List (String × B)) → IsMap m → IsMap (upsert d m)
  unfolding upsert lookup
  upsert-IsMap d [] h = (refl, tt)
  upsert-IsMap d ((j, b) ∷ m) (alone, h) = elim (Bool-cases (str_eq j (key d))) [
    | inl same ↦ rw same (alone, h)
    | inr other ↦ rw other (
      lookup-upsert j d m ∙ ground (arith, eq_iff j (key d), eq_iff (key d) j),
      upsert-IsMap d m h,
    )
  ]

  pub group-IsMap : (ds : List A) (m : List (String × B)) → IsMap m → IsMap (group ds m)
  unfolding group
  group-IsMap [] m h = h
  group-IsMap (d ∷ ds) m h = group-IsMap ds (upsert d m) (upsert-IsMap d m h)
