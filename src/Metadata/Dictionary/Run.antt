-- ===== src/Metadata/Dictionary/Run.antt =====
-- server/metadata/dictionary.go: sequences of its operations.
use mathlib.Core.Path.{subst}
use tigris.Base.{
  ℕ, ◌+◌, ◌<◌, ◌≤◌, ◌≡◌, ◌≢◌, refl, ap, String, Option, none, some, List, [], ◌∷◌, Error, Result,
  ok, err, length, arith,
}
use tigris.Kv.Data.{Bytes, Timestamp}
use tigris.Metadata.Subspace.{MetaTx, IsMetaStore}
use tigris.Metadata.Entries.{
  decode_database, decode_primary_index, DatabaseMetadata, PrimaryIndexMetadata, Index, db_key,
  dropped_db_key, coll_key, dropped_coll_key, index_key, dropped_index_key, validate_db_args,
  validate_coll_args, validate_index_args,
}
use tigris.Metadata.Dictionary.{
  get_database, get_primary_index, update_database, update_primary_index, NameRegistry, Jsons,
  create_database, create_collection, create_primary_index, drop_database, drop_collection,
  drop_primary_index, update_collection, activated,
}
use tigris.Metadata.Dictionary.Effects.{soft_delete_metadata-Moves}
use tigris.Metadata.Dictionary.Whole.{db_key-is_whole, coll_key-is_whole, index_key-is_whole}
use tigris.Metadata.Dictionary.Unique.{IsUnique}
use tigris.Metadata.Dictionary.Relocate.{moved-IsUnique}
use tigris.Metadata.Dictionary.Steps.{HasId, created-IsUnique, updated-IsUnique, rewritten-IsUnique}

-- The operations that write, with their arguments.
pub data Request : Type 0 where
  new_database : String → ℕ → ℕ → Request
  new_collection : String → ℕ → ℕ → List Index → Request
  new_primary_index : String → ℕ → ℕ → ℕ → Request
  change_database : String → ℕ → ℕ → ℕ → Request
  change_primary_index : String → ℕ → ℕ → ℕ → String → Request
  change_collection : String → ℕ → ℕ → List Index → Request
  remove_database : String → ℕ → Request
  remove_collection : String → ℕ → ℕ → Request
  remove_primary_index : String → ℕ → ℕ → ℕ → Request

abbrev pub forget {ℓ κ} : {A : Type ℓ} {S : Type κ} → Result A × S → Option Error × S
forget (ok a, t) = (none, t)
forget (err e, t) = (some e, t)

module _ (s : MetaTx) (r : NameRegistry) (json : Jsons) (now : Timestamp) where
  -- An update of the metadata that is read.
  abbrev pub rewrite :
      {A : Type 0} → Result A → (A → s.Tx → Option Error × s.Tx) → s.Tx → Option Error × s.Tx
  rewrite (err e) update t = (some e, t)
  rewrite (ok m) update t = update m t

  unfoldable pub run_request : Request → s.Tx → Option Error × s.Tx
  unfolding create_database create_collection create_primary_index drop_database drop_collection
      drop_primary_index update_collection get_database get_primary_index update_database
      update_primary_index
  run_request (new_database name ns ver) t = forget (create_database s r json now name ns ver t)
  run_request (new_collection name ns db indexes) t =
      forget (create_collection s r json now name ns db indexes t)
  run_request (new_primary_index name ns db coll) t =
      forget (create_primary_index s r json now name ns db coll t)
  run_request (change_database name ns ver min_ver) t =
      rewrite (get_database s r json now name ns t)
        (λ m.
          update_database s r json now name ns
            (record m { schema_version = ver; min_schema_version = min_ver }))
        t
  run_request (change_primary_index name ns db coll label) t =
      rewrite (get_primary_index s r json now name ns db coll t)
        (λ m. update_primary_index s r json now name ns db coll (record m { name = label })) t
  run_request (change_collection name ns db indexes) t =
      forget (update_collection s r json now name ns db indexes t)
  run_request (remove_database name ns) t = drop_database s r json now name ns t
  run_request (remove_collection name ns db) t = drop_collection s r json now name ns db t
  run_request (remove_primary_index name ns db coll) t =
      drop_primary_index s r json now name ns db coll t

  -- A transaction stops at the first error.
  abbrev pub and_then : Option Error × s.Tx → (s.Tx → Option Error × s.Tx) → Option Error × s.Tx
  and_then (none, t) next = next t
  and_then (some e, t) next = (some e, t)

  unfoldable pub run_requests : List Request → s.Tx → Option Error × s.Tx
  unfolding run_request
  run_requests [] t = (none, t)
  run_requests (q ∷ qs) t = and_then (run_request q t) (run_requests qs)

module _ (s : MetaTx) (store : IsMetaStore s) (r : NameRegistry) (json : Jsons) (now : Timestamp)
    (id_in : Bytes → Option ℕ) (apart : r.encoding ≢ r.reserved)
    (has_db : HasId json.database (λ m. m.id) id_in)
    (has_coll : HasId json.collection (λ m. m.id) id_in)
    (has_index : HasId json.primary_index (λ m. m.id) id_in) where
  abbrev Unique : ℕ → s.Tx → Type 0
  Unique n t = IsUnique s store r json now id_in n t

  forget-ok :
      {A : Type 0} (p : Result A × s.Tx) (t' : s.Tx)
      → forget p ≡ (none, t')
      → (a : A) × (p ≡ (ok a, t'))
  forget-ok {A} (ok a, t) t' h = (a, ap (λ (q : Option Error × s.Tx). (ok a, q.1)) h)
  forget-ok (err e, t) t' h =
      let h' : ◌≡◌ {A = Option Error × s.Tx} (some e, t) (none, t') = h in cc h'

  rewrite-both :
      {A : Type 0} (got : Result A) (update : A → s.Tx → Option Error × s.Tx) (t t' : s.Tx)
      → rewrite s r json now got update t ≡ (none, t')
      → (m : A) × (got ≡ ok m) × (update m t ≡ (none, t'))
  rewrite-both (ok m) update t t' h = (m, refl, h)
  rewrite-both (err e) update t t' h =
      let h' : ◌≡◌ {A = Option Error × s.Tx} (some e, t) (none, t') = h in cc h'

  -- The identifiers stay unique, and at most one was allocated.
  abbrev Advances : ℕ → s.Tx → Type 0
  Advances n t' = (m : ℕ) × (m ≤ n + 1) × Unique m t'

  run_request-Advances :
      (q : Request) (n : ℕ) (t t' : s.Tx)
      → n + 1 < 4294967296
      → Unique n t
      → run_request s r json now q t ≡ (none, t')
      → Advances n t'
  unfolding run_request create_database create_collection create_primary_index drop_database
      drop_collection drop_primary_index get_database get_primary_index update_database
      update_primary_index decode_database decode_primary_index db_key dropped_db_key coll_key
      dropped_coll_key index_key dropped_index_key
  run_request-Advances (new_database name ns ver) n t t' room unique h =
      let (m, e) = forget-ok (create_database s r json now name ns ver t) t' h in
      (
        n + 1,
        omega arith,
        created-IsUnique s store r json now id_in apart json.database (λ m. m.id)
            (λ id. record { id = id; schema_version = ver; min_schema_version = 0 })
            (validate_db_args ns name) (db_key r.encoding ns name) n m t t' has_db (λ i. refl) refl
            room unique e,
      )
  run_request-Advances (new_collection name ns db indexes) n t t' room unique h =
      let (m, e) = forget-ok (create_collection s r json now name ns db indexes t) t' h in
      (
        n + 1,
        omega arith,
        created-IsUnique s store r json now id_in apart json.collection (λ m. m.id)
            (λ id. record { id = id; indexes = activated indexes }) (validate_coll_args ns db name)
            (coll_key r.encoding ns db name) n m t t' has_coll (λ i. refl) refl room unique e,
      )
  run_request-Advances (new_primary_index name ns db coll) n t t' room unique h =
      let (m, e) = forget-ok (create_primary_index s r json now name ns db coll t) t' h in
      (
        n + 1,
        omega arith,
        created-IsUnique s store r json now id_in apart json.primary_index (λ m. m.id)
            (λ id. record { id = id; name = "" }) (validate_index_args ns db coll name)
            (index_key r.encoding ns db coll name) n m t t' has_index (λ i. refl) refl room unique
            e,
      )
  run_request-Advances (change_database name ns ver min_ver) n t t' room unique h =
      let update = λ (m : DatabaseMetadata).
        update_database s r json now name ns
          (record m { schema_version = ver; min_schema_version = min_ver }) in
      let (m, got, done) = rewrite-both (get_database s r json now name ns t) update t t' h in
      (
        n,
        omega arith,
        rewritten-IsUnique s store r json now id_in apart json.database (λ m. m.id)
            (λ id. record { id = id; schema_version = 0; min_schema_version = 0 })
            "failed to unmarshal database metadata" (validate_db_args ns name)
            (db_key r.encoding ns name) n m
            (record m { schema_version = ver; min_schema_version = min_ver }) t t' (λ i. refl)
            has_db (db_key-is_whole r.encoding ns name) refl refl got done unique,
      )
  run_request-Advances (change_primary_index name ns db coll label) n t t' room unique h =
      let update = λ (m : PrimaryIndexMetadata).
        update_primary_index s r json now name ns db coll (record m { name = label }) in
      let (m, got, done) =
        rewrite-both (get_primary_index s r json now name ns db coll t) update t t' h in
      (
        n,
        omega arith,
        rewritten-IsUnique s store r json now id_in apart json.primary_index (λ m. m.id)
            (λ id. record { id = id; name = "" }) "failed to unmarshal collection metadata"
            (validate_index_args ns db coll name) (index_key r.encoding ns db coll name) n m
            (record m { name = label }) t t' (λ i. refl) has_index
            (index_key-is_whole r.encoding ns db coll name) refl refl got done unique,
      )
  run_request-Advances (change_collection name ns db indexes) n t t' room unique h =
      let (m, e) = forget-ok (update_collection s r json now name ns db indexes t) t' h in
      (
        n,
        omega arith,
        updated-IsUnique s store r json now id_in apart name ns db indexes m n t t' has_coll e
            unique,
      )
  run_request-Advances (remove_database name ns) n t t' room unique h = (
    n,
    omega arith,
    moved-IsUnique s store r json now id_in apart n (db_key r.encoding ns name)
        (dropped_db_key r.encoding ns name) t t' refl refl
        (soft_delete_metadata-Moves s store (validate_db_args ns name) (db_key r.encoding ns name)
          (dropped_db_key r.encoding ns name) t t' (db_key-is_whole r.encoding ns name) h)
        unique,
  )
  run_request-Advances (remove_collection name ns db) n t t' room unique h = (
    n,
    omega arith,
    moved-IsUnique s store r json now id_in apart n (coll_key r.encoding ns db name)
        (dropped_coll_key r.encoding ns db name) t t' refl refl
        (soft_delete_metadata-Moves s store (validate_coll_args ns db name)
          (coll_key r.encoding ns db name) (dropped_coll_key r.encoding ns db name) t t'
          (coll_key-is_whole r.encoding ns db name) h)
        unique,
  )
  run_request-Advances (remove_primary_index name ns db coll) n t t' room unique h = (
    n,
    omega arith,
    moved-IsUnique s store r json now id_in apart n (index_key r.encoding ns db coll name)
        (dropped_index_key r.encoding ns db coll name) t t' refl refl
        (soft_delete_metadata-Moves s store (validate_index_args ns db coll name)
          (index_key r.encoding ns db coll name) (dropped_index_key r.encoding ns db coll name) t t'
          (index_key-is_whole r.encoding ns db coll name) h)
        unique,
  )

  and_then-ok :
      (p : Option Error × s.Tx) (next : s.Tx → Option Error × s.Tx) (t' : s.Tx)
      → and_then s r json now p next ≡ (none, t')
      → (t1 : s.Tx) × (p ≡ (none, t1)) × (next t1 ≡ (none, t'))
  and_then-ok (none, t1) next t' h = (t1, refl, h)
  and_then-ok (some e, t1) next t' h =
      let h' : ◌≡◌ {A = Option Error × s.Tx} (some e, t1) (none, t') = h in cc h'

  -- A sequence of creations, updates and drops of databases, collections and primary indexes that
  -- answers no error keeps the identifiers unique: none is stored under two keys, a dropped name's
  -- included, and each is below the next one of the counter. An update is of the metadata that it reads,
  -- whose identifier it keeps. There are fewer than 2 ^ 32 identifiers, the JSON of a metadata has its
  -- identifier, the counter and the entries are in different subspaces, and the transaction is a store
  -- of keys.
  pub run_requests-IsUnique :
      (qs : List Request) (n : ℕ) (t t' : s.Tx)
      → n + length qs < 4294967296
      → IsUnique s store r json now id_in n t
      → run_requests s r json now qs t ≡ (none, t')
      → (m : ℕ) × (m ≤ n + length qs) × IsUnique s store r json now id_in m t'
  unfolding run_requests
  run_requests-IsUnique [] n t t' room unique h =
      (n, omega arith, subst (Unique n) (ap (λ (q : Option Error × s.Tx). q.1) h) unique)
  run_requests-IsUnique (q ∷ qs) n t t' room unique h =
      let (t1, first, rest) =
        and_then-ok (run_request s r json now q t) (run_requests s r json now qs) t' h in
      let (m, small, unique1) = run_request-Advances q n t t1 (omega arith) unique first in
      let (k, small', unique') = run_requests-IsUnique qs m t1 t' (omega arith) unique1 rest in
      (k, omega arith, unique')
