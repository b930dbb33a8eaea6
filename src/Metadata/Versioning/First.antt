-- ===== src/Metadata/Versioning/First.antt =====
-- server/metadata/database.go: the first update in a transaction, and those after it.
use mathlib.Core.Path.{subst}
use tigris.Base.{
  ℕ, ◌≤◌, ◌+◌, ◌<◌, ◌≡◌, ◌≢◌, refl, sym, ◌∙◌, ap, inl, inr, String, true, false, ◌&&◌, Option, none,
  some, List, [], ◌∷◌, ◌==◌, All, arith, Error, Result, ok, internal, Result-cases,
  invalid_argument, false, ltb, le→ltb,
}
use tigris.Kv.Data.{Bytes, Timestamp, new_table_data_with_version}
use tigris.Metadata.Subspace.{MetaTx, IsMetaStore}
use tigris.Metadata.Entries.{DatabaseMetadata, db_key, validate_db_args}
use tigris.Metadata.Dictionary.{NameRegistry, Jsons, get_database, update_database}
use tigris.Metadata.Dictionary.Effects.{update_metadata-replaces}
use tigris.Metadata.Versioning.{
  Database, next_version, next_metadata, max_schema_version, written, first_update,
  update_schema_version, run_updates,
}
use tigris.Metadata.Versioning.Life.{
  Next, next_metadata-Next, max_schema_version-NotAbove, NotAbove, then_update-both, pending_only,
}

module _ (s : MetaTx) (store : IsMetaStore s) (r : NameRegistry) (json : Jsons) (now : Timestamp)
    (subspace_name : Bytes) (ns : ℕ) where
  abbrev Out : Type 0
  Out = Option Error × Database × s.Tx

  abbrev max_of : Database → s.Tx → Result ℕ
  max_of db t = max_schema_version s r json now subspace_name ns db.id db.collections t 0

  abbrev pub pending : Database → DatabaseMetadata → DatabaseMetadata → Database
  pending db m m' = record db {
    pending_schema_version = m'.schema_version;
    current_schema_version = m.schema_version;
  }

  -- The row of the database holds the metadata.
  abbrev pub Holds : String → DatabaseMetadata → s.Tx → Type 0
  Holds name m t =
      (b : Bytes) × (json.database.marshal m ≡ some b)
      × (s.stored (db_key r.encoding ns name) t ≡ some (new_table_data_with_version now b 1))

  written-both :
      (db db' : Database) (p : Option Error × s.Tx) (t' : s.Tx)
      → written s r json now subspace_name ns db p ≡ (none, db', t')
      → (p ≡ (none, t')) × (db' ≡ db)
  written-both db db' (none, t) t' h =
      (ap (λ (q : Out). (none, q.2)) h, ap (λ (q : Out). q.1) (sym h))
  written-both db db' (some e, t) t' h =
      let h' : ◌≡◌ {A = Out} (some (internal "failed to update database metadata"), db, t)
          (none, db', t') =
        h in
      cc h'

  update_database-Holds :
      (name : String) (m : DatabaseMetadata) (t t' : s.Tx)
      → update_database s r json now name ns m t ≡ (none, t')
      → Holds name m t'
  unfolding update_database
  update_database-Holds name m t t' h =
      let k = db_key r.encoding ns name in
      let (b, marshalled, replaced) =
        update_metadata-replaces s store now (validate_db_args ns name) k 1
          (json.database.marshal m) t t' h in
      let x = new_table_data_with_version now b 1 in
      (
        b,
        marshalled,
        subst (λ u. s.stored k u ≡ some x) (ap (λ (q : Option Error × s.Tx). q.1) replaced)
            (store.stored-replace_self k x t (ap (λ (q : Option Error × s.Tx). q.0) replaced)),
      )

  first_update-Next :
      (db db' : Database) (v : ℕ) (m : DatabaseMetadata) (t t' : s.Tx)
      → m.schema_version + 1 < 4294967296
      → ((m.schema_version == 0) && (v == 0)) ≡ false
      → first_update s r json now subspace_name ns db v t (ok m) ≡ (none, db', t')
      → (m' : DatabaseMetadata) × Next m v (max_of db t) m'
        × (db' ≡ pending db m m')
        × Holds db.name m' t'
  first_update-Next db db' v m t t' room versioned h =
      elim (Result-cases (next_metadata m v (max_of db t))) [
        | inr (e, failed) ↦
            let h' : ◌≡◌ {A = Out} (some e, db, t) (none, db', t') = rw (versioned, failed) at h in
            cc h'
        | inl (m', next) ↦
            let h' : written s r json now subspace_name ns (pending db m m')
                  (update_database s r json now db.name ns m' t)
                ≡ (none, db', t') =
              rw (versioned, next) at h in
            let (done, same) =
              written-both (pending db m m') db' (update_database s r json now db.name ns m' t) t'
                h' in
            (
              m',
              next_metadata-Next m v (max_of db t) m' room next,
              same,
              update_database-Holds db.name m' t t' done,
            )
      ]

  Next-nonzero :
      (m m' : DatabaseMetadata) (v : ℕ) (max_ver : Result ℕ)
      → ((m.schema_version == 0) && (v == 0)) ≡ false
      → Next m v max_ver m'
      → m'.schema_version ≢ 0
  Next-nonzero m m' v max_ver versioned (inl (zero_m, is_v, least, above)) z = ground arith
  Next-nonzero m m' v max_ver versioned (inr (n, least, le, inl (old, same))) z = n (sym same ∙ z)
  Next-nonzero m m' v max_ver versioned (inr (n, least, le, inr (new, same))) z = omega arith

  -- The first version of a database is above the latest of each of its collections.
  abbrev pub Starts : Database → ℕ → DatabaseMetadata → s.Tx → Type 0
  Starts db v m t =
      m.schema_version ≡ 0
      → (n : ℕ) × (n < v) × NotAbove s store r json now subspace_name ns n db.id db.collections t

  Next-Starts :
      (db : Database) (v : ℕ) (m m' : DatabaseMetadata) (t : s.Tx)
      → Next m v (max_of db t) m'
      → Starts db v m t
  Next-Starts db v m m' t (inl (z, version, least, (n, known, above))) start = (
    n,
    above,
    (max_schema_version-NotAbove s store r json now subspace_name ns db.id db.collections t 0 n
        known).1,
  )
  Next-Starts db v m m' t (inr (nonzero, least, le, grown)) start = absurd (nonzero start)

  -- When the updates of one transaction answer no error, with no version pending before them, over a
  -- database whose metadata is read and that has a version or is given one: the first, which is not behind the least version, leaves the
  -- version of the database where it asks for that or an older one, and makes it the next one where it
  -- asks for that; or it starts the versions with the one that it asks for, above the latest of each
  -- collection. The metadata with that version is stored, the version is pending, and all later updates
  -- ask for that one. The version of the database is below the greatest number of 32 bits.
  pub run_updates-Next :
      (db db' : Database) (v : ℕ) (vs : List ℕ) (m : DatabaseMetadata) (t t' : s.Tx)
      → db.pending_schema_version ≡ 0
      → get_database s r json now db.name ns t ≡ ok m
      → m.schema_version + 1 < 4294967296
      → ((m.schema_version == 0) && (v == 0)) ≡ false
      → run_updates s r json now subspace_name ns (v ∷ vs) db t ≡ (none, db', t')
      → (m' : DatabaseMetadata) × Next m v
          (max_schema_version s r json now subspace_name ns db.id db.collections t 0)
          m'
        × Starts db v m t
        × (db' ≡ pending db m m')
        × Holds db.name m' t'
        × All (λ w. w ≡ m'.schema_version) vs
  unfolding run_updates update_schema_version
  run_updates-Next db db' v vs m t t' fresh got room versioned h =
      let (db1, t1, first, rest) =
        then_update-both s store r json now subspace_name ns
          (update_schema_version s r json now subspace_name ns db v t)
          (run_updates s r json now subspace_name ns vs) db' t' h in
      let is_first : (db.pending_schema_version == 0) ≡ true = ground arith in
      let (m', next, db1-pending, holds) =
        first_update-Next db db1 v m t t1 room versioned (rw (is_first, got) at first) in
      let rest' =
        subst (λ u. run_updates s r json now subspace_name ns vs u t1 ≡ (none, db', t')) db1-pending
          rest in
      let (same, same_t, all) =
        pending_only s store r json now subspace_name ns vs (pending db m m') db' t1 t'
          (Next-nonzero m m' v (max_of db t) versioned next) rest' in
      (
        m',
        next,
        Next-Starts db v m m' t next,
        same,
        subst (Holds db.name m') (sym same_t) holds,
        all,
      )

  -- The first update in a transaction that asks for an older version than the database's, not behind
  -- the least, is accepted, and the version that is then pending is the database's; so the same request
  -- a second time is rejected. The metadata is read, and its write answers no error. The version of the
  -- database is below the greatest number of 32 bits.
  pub run_updates_older :
      (db : Database) (v : ℕ) (m : DatabaseMetadata) (t t' : s.Tx)
      → db.pending_schema_version ≡ 0
      → get_database s r json now db.name ns t ≡ ok m
      → m.schema_version + 1 < 4294967296
      → v < m.schema_version
      → m.min_schema_version ≤ v
      → update_database s r json now db.name ns m t ≡ (none, t')
      → (run_updates s r json now subspace_name ns (v ∷ []) db t ≡ (none, pending db m m, t'))
        × (run_updates s r json now subspace_name ns (v ∷ (v ∷ [])) db t ≡ (
          some (invalid_argument "collection schema version should be the same in the transaction"),
          pending db m m,
          t',
        ))
  unfolding run_updates update_schema_version next_metadata
  run_updates_older db v m t t' fresh got room behind le stored =
      let nonzero : (m.schema_version == 0) ≡ false = ground arith in
      let first : update_schema_version s r json now subspace_name ns db v t
          ≡ (none, pending db m m, t') =
        rw
          (
            zero_pending db fresh,
            got,
            nonzero,
            le→ltb v m.min_schema_version le,
            not_far m v room behind,
            not_next m v room behind,
            stored,
            update_schema_version,
            next_metadata,
          )
          refl in
      let other : (v == m.schema_version) ≡ false = ground arith in
      (rw first refl, rw (first, nonzero, other, update_schema_version) refl)
    where
      zero_pending :
          (db : Database) → db.pending_schema_version ≡ 0 → (db.pending_schema_version == 0) ≡ true
      zero_pending db e = ground arith

      not_far :
          (m : DatabaseMetadata) (v : ℕ)
          → m.schema_version + 1 < 4294967296
          → v < m.schema_version
          → ltb (next_version m) v ≡ false
      not_far m v room behind = ground arith

      not_next :
          (m : DatabaseMetadata) (v : ℕ)
          → m.schema_version + 1 < 4294967296
          → v < m.schema_version
          → (next_version m == v) ≡ false
      not_next m v room behind = ground arith
