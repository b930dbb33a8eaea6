-- ===== src/Metadata/Dictionary/Steps.antt =====
-- server/metadata/dictionary.go: a creation and an update leave the identifiers unique.
use mathlib.Core.Path.{subst}
use tigris.Base.{
  ℕ, ◌+◌, ◌<◌, ◌≡◌, ◌≢◌, refl, sym, ◌∙◌, ap, inl, inr, String, Option, none, some, true,
  if◌then◌else◌, List, [], Error, Result, ok, err, Bool-cases, Result-cases, Option-cases,
  ok-injective, >>=-eq-ok, ◌>>=◌, ◌==◌, internal,
}
use tigris.Kv.Data.{Bytes, Timestamp, TableData, new_table_data_with_version}
use tigris.Transaction.Session.{TableKey}
use tigris.Metadata.Subspace.{
  MetaTx, IsMetaStore, insert_metadata, update_metadata, byte_to_uint32, get_payload, is_whole,
}
use tigris.Metadata.Entries.{
  CollectionMetadata, Index, Json, coll_key, validate_coll_args, decode_collection,
  or_unmarshal_error,
}
use tigris.Metadata.Dictionary.{
  NameRegistry, Jsons, allocate_token, with_id, answered, update_collection, get_collection,
  update_metadata_indexes,
}
use tigris.Metadata.Dictionary.Counter.{
  Allocates, allocate_token-Allocates, answered-ok, with_id-ok,
}
use tigris.Metadata.Dictionary.Effects.{
  insert_metadata-inserts, update_metadata-replaces, get_payload-stored,
}
use tigris.Metadata.Dictionary.Whole.{coll_key-is_whole}
use tigris.Metadata.Dictionary.Unique.{entry_id, IsUnique, inserted-IsUnique}
use tigris.Metadata.Dictionary.Relocate.{changed-IsUnique}

-- The JSON of a metadata has its identifier.
pub record HasId {A : Type 0} (j : Json A) (id_of : A → ℕ) (id_in : Bytes → Option ℕ) : Type 0 where
  pub marshal-id : (a : A) (b : Bytes) → j.marshal a ≡ some b → id_in b ≡ some (id_of a)
  pub unmarshal-id : (a : A) (b : Bytes) → j.unmarshal b ≡ some a → id_in b ≡ some (id_of a)

module _ (s : MetaTx) (store : IsMetaStore s) (r : NameRegistry) (json : Jsons) (now : Timestamp)
    (id_in : Bytes → Option ℕ) (apart : r.encoding ≢ r.reserved) where
  abbrev Unique : ℕ → s.Tx → Type 0
  Unique n t = IsUnique s store r json now id_in n t

  -- The id of what was just written.
  new_id :
      {A : Type 0} (j : Json A) (id_of : A → ℕ)
      → HasId j id_of id_in
      → (a : A) (b : Bytes) → j.marshal a ≡ some b
      → entry_id id_in (new_table_data_with_version now b 1) ≡ ok (id_of a)
  unfolding new_table_data_with_version
  new_id j id_of has a b e = rw (has.marshal-id a b e) refl

  -- A creation, of an entry at a key of the dictionary.
  pub created-IsUnique :
      {A : Type 0} (j : Json A) (id_of : A → ℕ) (meta : ℕ → A) (invalid : Option Error)
      (k : TableKey) (n : ℕ) (a : A) (t t' : s.Tx)
      → HasId j id_of id_in
      → ((i : ℕ) → id_of (meta i) ≡ i)
      → k.table ≡ r.encoding
      → n + 1 < 4294967296
      → Unique n t
      → with_id s r json now (allocate_token s r json now t) (λ id t1.
        answered s r json now
          (meta id)
          (insert_metadata s now invalid k 1 (j.marshal (meta id)) t1))
        ≡ (ok a, t')
      → Unique (n + 1) t'
  created-IsUnique j id_of meta invalid k n a t t' has ids own room unique h =
      let (m, t1, e, h1) =
        with_id-ok s store r json now (allocate_token s r json now t)
          (λ id t1.
            answered s r json now (meta id)
              (insert_metadata s now invalid k 1 (j.marshal (meta id)) t1))
          a t' h in
      let (same, done) =
        answered-ok s store r json now (meta m) a
          (insert_metadata s now invalid k 1 (j.marshal (meta m)) t1) t' h1 in
      let (valid, (b, marshalled, inserted)) =
        insert_metadata-inserts s store now invalid k 1 (j.marshal (meta m)) t1 t' done in
      let allocates = allocate_token-Allocates s store r json now m t t1 e in
      let is_next : m ≡ n = ok-injective (sym allocates.0 ∙ unique.0) in
      inserted-IsUnique s store r json now id_in apart n k (new_table_data_with_version now b 1) t
        t1 t' own (new_id j id_of has (meta m) b marshalled ∙ ap ok (ids m ∙ is_next))
        (subst (λ z. Allocates s store r json now z t t1) is_next allocates) inserted room unique

  -- As the three decoders read a row: version 0 is the identifier alone.
  abbrev pub decoded : {A : Type 0} → Json A → (ℕ → A) → String → TableData → Result A
  decoded j of_id what x =
      if x.ver == 0
      then (do id ← byte_to_uint32 x.raw_data; ok (of_id id))
      else or_unmarshal_error what (j.unmarshal x.raw_data)

  decoded_id :
      {A : Type 0} (j : Json A) (id_of : A → ℕ) (of_id : ℕ → A) (what : String) (x : TableData)
      (m : A)
      → ((i : ℕ) → id_of (of_id i) ≡ i)
      → HasId j id_of id_in
      → decoded j of_id what x ≡ ok m
      → entry_id id_in x ≡ ok (id_of m)
  decoded_id {A} j id_of of_id what x m ids has h = elim (Bool-cases (x.ver == 0)) [
    | inl e ↦
        let (id, e1, e2) =
          >>=-eq-ok (byte_to_uint32 x.raw_data) (λ id. ok (of_id id)) (rw e at h) in
        rw e (e1 ∙ ap ok (sym (ids id) ∙ ap id_of (ok-injective e2)))
    | inr e ↦ elim (Option-cases (j.unmarshal x.raw_data)) [
      | inl none_read ↦
          let h' : ◌≡◌ {A = Result A} (err (internal what)) (ok m) = rw (e, none_read) at h in cc h'
      | inr (c, read) ↦
          let same : c ≡ m = ok-injective (rw (e, read) at h) in
          rw (e, has.unmarshal-id c x.raw_data read) (ap ok (ap id_of same))
    ]
  ]

  -- What is read under a key has the identifier of what is stored there.
  pub got-stored :
      {A : Type 0} (j : Json A) (id_of : A → ℕ) (of_id : ℕ → A) (what : String)
      (invalid : Option Error) (k : TableKey) (m : A) (t : s.Tx)
      → ((i : ℕ) → id_of (of_id i) ≡ i)
      → HasId j id_of id_in
      → (invalid ≡ none → is_whole k.index_parts ≡ true)
      → (get_payload s invalid k t >>= decoded j of_id what) ≡ ok m
      → (x : TableData) × (s.stored k t ≡ some x) × (entry_id id_in x ≡ ok (id_of m))
  got-stored j id_of of_id what invalid k m t ids has whole h =
      let (x, paid, read) = >>=-eq-ok (get_payload s invalid k t) (decoded j of_id what) h in
      (
        x,
        (get_payload-stored s store invalid k t x whole paid).1,
        decoded_id j id_of of_id what x m ids has read,
      )

  -- An update of an entry that keeps the identifier that it reads.
  pub rewritten-IsUnique :
      {A : Type 0} (j : Json A) (id_of : A → ℕ) (of_id : ℕ → A) (what : String)
      (invalid : Option Error) (k : TableKey) (n : ℕ) (m m' : A) (t t' : s.Tx)
      → ((i : ℕ) → id_of (of_id i) ≡ i)
      → HasId j id_of id_in
      → (invalid ≡ none → is_whole k.index_parts ≡ true)
      → k.table ≡ r.encoding
      → id_of m' ≡ id_of m
      → (get_payload s invalid k t >>= decoded j of_id what) ≡ ok m
      → update_metadata s now invalid k 1 (j.marshal m') t ≡ (none, t')
      → Unique n t
      → Unique n t'
  rewritten-IsUnique j id_of of_id what invalid k n m m' t t' ids has whole own same got done
        unique =
      let (b, marshalled, replaced) =
        update_metadata-replaces s store now invalid k 1 (j.marshal m') t t' done in
      let (x, held, id_x) = got-stored j id_of of_id what invalid k m t ids has whole got in
      changed-IsUnique s store r json now id_in apart n (id_of m) k x
        (new_table_data_with_version now b 1) t t' own held id_x
        (new_id j id_of has m' b marshalled ∙ ap ok same) replaced unique

  pub updated-IsUnique :
      (name : String) (ns db : ℕ) (indexes : List Index) (m : CollectionMetadata) (n : ℕ)
      (t t' : s.Tx)
      → HasId json.collection (λ c. c.id) id_in
      → update_collection s r json now name ns db indexes t ≡ (ok m, t')
      → Unique n t
      → Unique n t'
  unfolding update_collection get_collection decode_collection coll_key
  updated-IsUnique name ns db indexes m n t t' has h unique =
      elim (Result-cases (get_collection s r json now name ns db t)) [
        | inr (e, failed) ↦
            let h' : ◌≡◌ {A = Result CollectionMetadata × s.Tx} (err e, t) (ok m, t') =
              rw (failed, update_collection) at h in
            cc h'
        | inl (old, got) ↦
            let meta : CollectionMetadata = record old {
              indexes = update_metadata_indexes old.indexes indexes;
            } in
            let k = coll_key r.encoding ns db name in
            let h' : answered s r json now meta (
                  update_metadata s now (validate_coll_args ns db name) k 1
                    (json.collection.marshal meta) t)
                ≡ (ok m, t') =
              rw (got, update_collection) at h in
            let (same, done) =
              answered-ok s store r json now meta m
                (update_metadata s now (validate_coll_args ns db name) k 1
                  (json.collection.marshal meta) t)
                t' h' in
            rewritten-IsUnique json.collection (λ c. c.id) (λ id. record { id = id; indexes = [] })
              "failed to unmarshal collection metadata" (validate_coll_args ns db name) k n old meta
              t t' (λ i. refl) has (coll_key-is_whole r.encoding ns db name) refl refl got done
              unique
      ]
