-- ===== src/Shards/Namespaces.antt =====
-- The names of sharded collections: bucketsNamespace and userNamespaceFromBuckets of
-- internal/mongodb/sharding.go. A sharded timeseries is registered under its buckets.
use Prim.Native.Char.{Char, code}
use text.Mathlib.TextLemmas.{nil-append, cons-append, append_assoc}
use mongodb_operator.Common.{
  ℕ, String, true, false, Option, none, some, ◌≡◌, refl, arith, if◌then◌else◌, ◌==◌, has_prefix,
  has_byte, Bool-cases, inl, inr,
}
use mongodb_operator.Upgrade.Status.{◌+++◌}

abbrev cut_behind : Char → Option (String × String) → Option (String × String)
cut_behind c none = none
cut_behind c (some (s, t)) = some (String.◌∷◌ c s, t)

-- `strings.IndexByte`, and the pieces before and behind the byte.
unfoldable pub cut : ℕ → String → Option (String × String)
cut sep String.[] = none
cut sep (String.◌∷◌ c s) =
    let rest = cut sep s in if code c == sep then some (String.[], s) else cut_behind c rest

abbrev drop_prefix : String → String → String
drop_prefix String.[] s = s
drop_prefix (String.◌∷◌ c p) String.[] = String.[]
drop_prefix (String.◌∷◌ c p) (String.◌∷◌ d s) = drop_prefix p s

-- `strings.TrimPrefix`
unfoldable pub trim_prefix : String → String → String
unfolding has_prefix
trim_prefix p s = if has_prefix p s then drop_prefix p s else s

abbrev pub buckets_prefix : String
buckets_prefix = "system.buckets."

-- bucketsNamespace
unfoldable pub buckets_namespace : String → String → String
unfolding has_prefix
buckets_namespace database collection =
    if has_prefix buckets_prefix collection
    then database +++ "." +++ collection
    else database +++ ".system.buckets." +++ collection

abbrev user_namespace_of : String → Option (String × String) → String
user_namespace_of namespace none = namespace
user_namespace_of namespace (some (database, rest)) =
    if has_prefix buckets_prefix rest
    then database +++ "." +++ trim_prefix buckets_prefix rest
    else namespace

-- userNamespaceFromBuckets
unfoldable pub user_namespace_from_buckets : String → String
unfolding cut trim_prefix
user_namespace_from_buckets namespace = user_namespace_of namespace (cut b'.' namespace)

-- The first dot cuts in front of a text that begins with one.
cut-append :
    (d t rest : String)
    → cut b'.' t ≡ some ("", rest)
    → has_byte b'.' d ≡ false
    → cut b'.' (d +++ t) ≡ some (d, rest)
unfolding cut has_byte
cut-append String.[] t rest e h = rw (nil-append t) e
cut-append (String.◌∷◌ c d) t rest e h =
    rw (cons-append c d t) (ground (arith, cut-append d t rest e))

has_prefix-append : (p s : String) → has_prefix p (p +++ s) ≡ true
unfolding has_prefix
has_prefix-append String.[] s = refl
has_prefix-append (String.◌∷◌ c p) s =
    rw (cons-append c p s) (ground (arith, has_prefix-append p s))

drop_prefix-append : (p s : String) → drop_prefix p (p +++ s) ≡ s
drop_prefix-append String.[] s = nil-append s
drop_prefix-append (String.◌∷◌ c p) s = rw (cons-append c p s) (drop_prefix-append p s)

cut_dot : (s : String) → cut b'.' ("." +++ s) ≡ some ("", s)
unfolding cut
cut_dot s = rw (cons-append (Char.char 46 tt) String.[] s, nil-append s) refl

cut_buckets : (s : String) → cut b'.' (".system.buckets." +++ s) ≡ some ("", buckets_prefix +++ s)
cut_buckets s = rw (append_assoc "." buckets_prefix s) (cut_dot (buckets_prefix +++ s))

-- The user's namespace of the buckets of a collection is that of the collection itself: of a
-- collection `d.c` whose buckets are registered, `d.c` is reported, without the prefix of the buckets
-- if `c` has it already. The name of the database has no dot.
pub user_namespace-buckets_namespace :
    (database collection : String)
    → has_byte b'.' database ≡ false
    → user_namespace_from_buckets (buckets_namespace database collection)
      ≡ database +++ "." +++ trim_prefix buckets_prefix collection
unfolding user_namespace_from_buckets buckets_namespace trim_prefix
user_namespace-buckets_namespace d c h = elim (Bool-cases (has_prefix buckets_prefix c)) [
  | inl e ↦ rw (e, append_assoc d "." c, cut-append d ("." +++ c) c (cut_dot c) h, e) refl
  | inr e ↦
      rw
        (
          e,
          append_assoc d ".system.buckets." c,
          cut-append d (".system.buckets." +++ c) (buckets_prefix +++ c) (cut_buckets c) h,
          has_prefix-append buckets_prefix c,
          drop_prefix-append buckets_prefix c,
        )
        refl
]
