-- ===== src/Admission/Keys.antt =====
-- What an admitted declaration of sharded collections is, and an admitted encryption section.
use Prim.Native.Char.{Char}
use mongodb_operator.Common.{
  ℕ, ◌+◌, String, Bool, true, false, not, ◌&&◌, ◌||◌, Option, none, some, List, [], ◌∷◌, ◌++◌, map,
  ◌≡◌, refl, arith, str_eq, eq_iff, is_empty, is_one_of, if◌then◌else◌,
}
use mongodb_operator.Admission.Fields.{FieldPath, ErrorKind, FieldError, index, ◌/◌, report, concat}
use mongodb_operator.Mongo.{ShardKeyField, TimeseriesSpec, ShardedCollectionSpec}
use mongodb_operator.Admission.Sharded.{
  key_orders, namespace, validate_shard_key, validate_time_key, validate_timeseries,
  validate_collection, validate_collections_from, validate_sharded_collections,
}
use mongodb_operator.Admission.Encryption.{KmsConfig, block, is_set}

abbrev pub null {ℓ} : {A : Type ℓ} → List A → Bool
null [] = true
null (_ ∷ _) = false

null-append {ℓ} : {A : Type ℓ} (xs ys : List A) → null (xs ++ ys) ≡ (null xs && null ys)
null-append [] ys = refl
null-append (x ∷ xs) ys = refl

null-guard :
    (b : Bool) (kind : ErrorKind) (path : FieldPath) (xs : List FieldError)
    → null (report b kind path ++ xs) ≡ (not b && null xs)
null-guard true kind path xs = refl
null-guard false kind path xs = refl

null-report : (b : Bool) (kind : ErrorKind) (path : FieldPath) → null (report b kind path) ≡ not b
null-report true kind path = refl
null-report false kind path = refl

abbrev pub all {ℓ} : {A : Type ℓ} → (A → Bool) → List A → Bool
all p [] = true
all p (x ∷ xs) = p x && all p xs

pub null-concat : (parts : List (List FieldError)) → null (concat parts) ≡ all null parts
unfolding concat
null-concat [] = refl
null-concat (part ∷ parts) = rw (null-append part (concat parts), null-concat parts) refl

abbrev pub is_key_field : ShardKeyField → Bool
is_key_field f = not (is_empty f.field) && is_one_of key_orders f.order

-- No hashed field of the key is the time field.
abbrev pub is_unhashed : String → ShardKeyField → Bool
is_unhashed time f = not (str_eq f.field time && str_eq f.order "hashed")

abbrev pub is_timeseries_ok : ShardedCollectionSpec → Option TimeseriesSpec → Bool
is_timeseries_ok sc none = true
is_timeseries_ok sc (some t) =
    not sc.unique && (not (is_empty t.time_field) && all (is_unhashed t.time_field) sc.shard_key)

abbrev pub is_well_formed : ShardedCollectionSpec → Bool
is_well_formed sc =
    not (is_empty sc.database)
    && (not (is_empty sc.collection)
        && (not (null sc.shard_key)
            && (all is_key_field sc.shard_key && is_timeseries_ok sc sc.timeseries)))

abbrev pub is_distinct : List String → Bool
is_distinct [] = true
is_distinct (x ∷ xs) = not (is_one_of xs x) && is_distinct xs

abbrev avoids : List String → List String → Bool
avoids seen [] = true
avoids seen (x ∷ xs) = not (is_one_of seen x) && avoids seen xs

str_eq_comm : (s t : String) → str_eq s t ≡ str_eq t s
str_eq_comm s t = ground (arith, eq_iff s t, eq_iff t s)

avoids-cons :
    (y : String) (seen xs : List String)
    → avoids (y ∷ seen) xs ≡ (not (is_one_of xs y) && avoids seen xs)
avoids-cons y seen [] = refl
avoids-cons y seen (x ∷ xs) = rw (avoids-cons y seen xs, str_eq_comm y x) (ground arith)

shard_key-null :
    (path : FieldPath) (j : ℕ) (fs : List ShardKeyField)
    → null (validate_shard_key path j fs) ≡ all is_key_field fs
unfolding validate_shard_key
shard_key-null path j [] = refl
shard_key-null path j (f ∷ fs) = ground (arith, shard_key-null path (j + 1) fs)

time_key-null :
    (path : FieldPath) (j : ℕ) (time : String) (fs : List ShardKeyField)
    → null (validate_time_key path j time fs) ≡ all (is_unhashed time) fs
unfolding validate_time_key
time_key-null path j time [] = refl
time_key-null path j time (f ∷ fs) = ground (arith, time_key-null path (j + 1) time fs)

timeseries-null :
    (path : FieldPath) (sc : ShardedCollectionSpec) (t : Option TimeseriesSpec)
    → null (validate_timeseries path sc.unique sc.shard_key t) ≡ is_timeseries_ok sc t
timeseries-null path sc none = refl
timeseries-null path sc (some t) = ground (arith, time_key-null path 0 t.time_field sc.shard_key)

collection-null :
    (path : FieldPath) (seen : List String) (sc : ShardedCollectionSpec)
    → null (validate_collection path seen sc)
      ≡ (not (is_one_of seen (namespace sc)) && is_well_formed sc)
unfolding validate_collection
collection-null path seen sc = ground (
  arith,
  null-append (validate_shard_key path 0 sc.shard_key)
      (validate_timeseries path sc.unique sc.shard_key sc.timeseries),
  shard_key-null path 0 sc.shard_key,
  timeseries-null path sc sc.timeseries,
)

collections-null :
    (path : FieldPath) (i : ℕ) (seen : List String) (scs : List ShardedCollectionSpec)
    → null (validate_collections_from path i seen scs) ≡ (
        all is_well_formed scs
        && (avoids seen (map namespace scs) && is_distinct (map namespace scs)))
unfolding validate_collections_from
collections-null path i seen [] = refl
collections-null path i seen (sc ∷ scs) =
    rw
      (
        null-append,
        collection-null (path / index i) seen sc,
        collections-null path (i + 1) (namespace sc ∷ seen) scs,
        avoids-cons (namespace sc) seen (map namespace scs),
      )
      (ground arith)

avoids-nil : (xs : List String) → avoids [] xs ≡ true
avoids-nil [] = refl
avoids-nil (x ∷ xs) = avoids-nil xs

-- validateShardedCollections reports nothing exactly if every collection is well formed (its names and
-- its shard key are not empty, each key field has a name and one of the three orders, and a time
-- series is not unique, names its time field and does not hash it), and no two collections have the
-- same database and collection name.
pub sharded_collections_admitted :
    (path : FieldPath) (scs : List ShardedCollectionSpec)
    → null (validate_sharded_collections path scs)
      ≡ (all is_well_formed scs && is_distinct (map namespace scs))
unfolding validate_sharded_collections
sharded_collections_admitted path scs =
    rw (collections-null path 0 [] scs, avoids-nil (map namespace scs)) refl

-- Whether the configuration has the block of the provider.
abbrev pub has_block : String → Option KmsConfig → Bool
has_block provider c =
    (str_eq provider "secret" && is_set (block (λ x. x.secret) c))
    || ((str_eq provider "vault" && is_set (block (λ x. x.vault) c))
        || ((str_eq provider "aws-kms" && is_set (block (λ x. x.aws_kms) c))
            || ((str_eq provider "gcp-kms" && is_set (block (λ x. x.gcp_kms) c))
                || (str_eq provider "azure-kv" && is_set (block (λ x. x.azure_kv) c)))))

abbrev has_argument : String → List String → Bool
has_argument a [] = false
has_argument a (b ∷ bs) = str_eq a b || has_argument a bs

-- The arguments behind the first two, which switch the encryption on and choose the cipher.
abbrev pub key_part : List String → List String
key_part (_ ∷ _ ∷ args) = args
key_part _ = []

-- The key file for a secret; the server and the port of a KMIP proxy, and no key file, for the others.
abbrev pub has_key_arguments : String → List String → Bool
has_key_arguments provider args =
    let file = has_argument "--encryptionKeyFile=/etc/mongodb-encryption/keyfile" args in
    if str_eq provider "secret"
    then file
    else not file
      && (has_argument "--kmipServerName=localhost" args && has_argument "--kmipPort=5696" args)
