-- ===== src/Admission/Chain.antt =====
-- The versions that a MongoDB object takes on while all its changes pass the webhook.
use mongodb_operator.Common.{
  ℕ, suc, ◌+◌, ◌≤◌, String, Bool, true, false, ◌&&◌, ◌||◌, Option, none, some, List, [], ◌≡◌, refl,
  arith, str_eq, eq_iff, if◌then◌else◌, is_empty, ap, sym, ◌∙◌, ◌⊎◌, inl, inr, split_n,
}
use mongodb_operator.Versions.{
  PathError, IsMustList, is_supported_version, parse_mongo_version, is_valid_upgrade_path,
}
use mongodb_operator.Versions.Paths.{rank_of, is_nil, next_to, upgrade_path_sequence}
use mongodb_operator.Admission.Fields.{FieldPath, report, invalid, child, ◌/◌}
use mongodb_operator.Admission.Sections.{Packages, validate_version}
use mongodb_operator.Admission.ReplicaSet.{
  MongoDbSpec, validate_mongodb_spec, validate_create, validate_path, validate_update,
  mongodb_checks, spec_path,
}
use mongodb_operator.Admission.Encryption.{is_set}
use mongodb_operator.Admission.Keys.{null-concat}

-- What is relied on of the packages: the list of versions is the one of `MustList`, and
-- `ValidateWithPredicate` returns nil only for a value that satisfies the predicate.
pub record IsPackages {Q : Type 0} (k : Packages Q) : Type 0 where
  pub is_must_list : IsMustList k.versions
  pub checks :
      (p : FieldPath) (v : String) (f : String → Bool) (l : List String)
      → k.validate_with_predicate p v f l ≡ none
      → f v ≡ true

abbrev pub rank_of_version : String → Option ℕ
rank_of_version v = rank_of (parse_mongo_version v)

-- The rank is the given one or the next.
abbrev pub IsStep : ℕ → Option ℕ → Type 0
IsStep r o = (s : ℕ) × (o ≡ some s) × (r ≤ s) × (s ≤ r + 1)

next-IsStep : (r : ℕ) (o : Option ℕ) → next_to (some r) o ≡ true → IsStep r o
next-IsStep r none h = ground (arith, h)
next-IsStep r (some s) h = (s, refl, ground (arith, h), ground (arith, h))

path-cases :
    (empty same a b next : Bool) (v : Option PathError)
    → is_nil v ≡ (same || (a && (b && next)))
    → empty ≡ false
    → (if empty || same
        then []
        else report (is_set v) invalid (spec_path / child "version" / child "version"))
      ≡ []
    → (same ≡ true) ⊎ (next ≡ true)
path-cases empty same a b next v sequence set e = ground (arith, sequence, set, e)

module _ {Q : Type 0} (k : Packages Q) where
  -- `n` updates lead from the one spec to the other, each admitted.
  pub data Updates (a : MongoDbSpec Q) : ℕ → MongoDbSpec Q → Type 0 where
    created : Updates a 0 a
    updated :
        {n : ℕ} {b c : MongoDbSpec Q}
        → Updates a n b
        → validate_update k b c ≡ []
        → Updates a (suc n) c

  module _ (h : IsPackages k) where
    create-supported :
        (s : MongoDbSpec Q)
        → validate_mongodb_spec k s ≡ []
        → is_supported_version k.versions s.version ≡ true
    unfolding validate_mongodb_spec validate_version
    create-supported s e =
        h.checks (spec_path / child "version" / child "version") s.version
          (is_supported_version k.versions) k.versions.strings
          (ground (arith, null-concat (mongodb_checks k s), e))

    update-spec :
        (b c : MongoDbSpec Q) → validate_update k b c ≡ [] → validate_mongodb_spec k c ≡ []
    unfolding validate_update
    update-spec b c e = ground (arith, e)

    update-path :
        (b c : MongoDbSpec Q)
        → validate_update k b c ≡ []
        → validate_path k b.version c.version ≡ []
    unfolding validate_update
    update-path b c e = ground (arith, e)

    path-next :
        (old new : String)
        → is_empty old ≡ false
        → validate_path k old new ≡ []
        → (str_eq old new ≡ true) ⊎ (next_to (rank_of_version old) (rank_of_version new) ≡ true)
    unfolding validate_path
    path-next old new set e =
        path-cases (is_empty old) (str_eq old new) (is_supported_version k.versions old)
          (is_supported_version k.versions new)
          (next_to (rank_of_version old) (rank_of_version new))
          (is_valid_upgrade_path k.versions old new)
          (upgrade_path_sequence k.versions old new h.is_must_list) set e

    path-rank :
        (old new : String) (r : ℕ)
        → is_empty old ≡ false
        → validate_path k old new ≡ []
        → rank_of_version old ≡ some r
        → IsStep r (rank_of_version new)
    path-rank old new r set e old_rank = elim (path-next old new set e) [
      | inl same ↦ (
        r,
        ap rank_of_version (sym ((eq_iff old new).0 same)) ∙ old_rank,
        omega arith,
        omega arith,
      )
      | inr next ↦ next-IsStep r (rank_of_version new) (rw (← old_rank) next)
    ]

    supported-set : (v : String) → is_supported_version k.versions v ≡ true → is_empty v ≡ false
    unfolding is_supported_version split_n
    supported-set String.[] e = ground (arith, e)
    supported-set (String.◌∷◌ c v) e = refl

    -- From a spec that passed ValidateCreate, whatever updates pass ValidateUpdate: the version is always
    -- a supported one, it never goes back behind the first one in the order of the releases, and `n`
    -- updates carry it at most `n` releases further.
    pub updates_climb :
        {a b : MongoDbSpec Q} {n r : ℕ}
        → validate_create k a ≡ []
        → rank_of_version a.version ≡ some r
        → Updates a n b
        → (is_supported_version k.versions b.version ≡ true)
          × ((s : ℕ) × (rank_of_version b.version ≡ some s) × (r ≤ s) × (s ≤ r + n))
    unfolding validate_create
    updates_climb {a = a} {r = r} e start created =
        (create-supported a e, (r, start, omega arith, omega arith))
    updates_climb {a = a} {b = c} e start (updated {n = m} {b} u accepted) =
        let (supported, (s, at, low, high)) = updates_climb e start u in
        let (t, new, up, near) =
          path-rank b.version c.version s (supported-set b.version supported)
            (update-path b c accepted) at in
        (create-supported c (update-spec b c accepted), (t, new, omega arith, omega arith))
