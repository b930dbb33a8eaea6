-- ===== src/Metadata/Versioning/Life.antt =====
-- server/metadata/database.go: the versions that the updates of one transaction accept.
use mathlib.Core.Path.{subst}
use tigris.Base.{
  ℕ, ◌+◌, ◌≤◌, ◌<◌, ◌≡◌, ◌≢◌, refl, sym, ◌∙◌, ap, ◌⊎◌, inl, inr, false, Option, none, some, List,
  [], ◌∷◌, ◌==◌, ltb, leb, All, Bool-cases, arith, if◌then◌else◌, Error, Result, ok, err,
  invalid_argument, ok-injective, >>=-eq-ok, ◌>>=◌,
}
use tigris.Kv.Data.{Bytes, Timestamp}
use tigris.Metadata.Subspace.{MetaTx, IsMetaStore}
use tigris.Metadata.Entries.{DatabaseMetadata}
use tigris.Metadata.Dictionary.{NameRegistry, Jsons}
use tigris.Metadata.Schemas.{Version, schema_key, schema_get_latest}
use tigris.Metadata.Versioning.{
  Database, version_of, start_versions, next_version, next_metadata, max_schema_version,
  update_schema_version, then_update, run_updates,
}

-- What an update makes of the metadata: the first version of a database, above `max_ver`; or, for a
-- version that is not behind the least, the one that it has or exactly the next one, as is asked for.
abbrev pub Next : DatabaseMetadata → ℕ → Result ℕ → DatabaseMetadata → Type 0
Next m v max_ver m' =
    ((m.schema_version ≡ 0)
      × (m'.schema_version ≡ v)
      × (m'.min_schema_version ≡ v)
      × ((n : ℕ) × (max_ver ≡ ok n) × (n < v)))
    ⊎ ((m.schema_version ≢ 0)
        × (m'.min_schema_version ≡ m.min_schema_version)
        × (m.min_schema_version ≤ v)
        × (((v ≤ m.schema_version) × (m'.schema_version ≡ m.schema_version))
            ⊎ ((v ≡ m.schema_version + 1) × (m'.schema_version ≡ v))))

start_versions-Next :
    (m : DatabaseMetadata) (v n : ℕ) (m' : DatabaseMetadata)
    → start_versions m v n ≡ ok m'
    → (m'.schema_version ≡ v) × (m'.min_schema_version ≡ v) × (n < v)
start_versions-Next m v n m' h = elim (Bool-cases (leb v n)) [
  | inl e ↦
      let h' : ◌≡◌ {A = Result DatabaseMetadata}
          (err (invalid_argument "next schema version should be")) (ok m') =
        rw e at h in
      cc h'
  | inr e ↦
      let same : record m { schema_version = v; min_schema_version = v } ≡ m' =
        ok-injective (rw e at h) in
      (
        ap (λ (d : DatabaseMetadata). d.schema_version) (sym same),
        ap (λ (d : DatabaseMetadata). d.min_schema_version) (sym same),
        ground arith,
      )
]

pub next_metadata-Next :
    (m : DatabaseMetadata) (v : ℕ) (max_ver : Result ℕ) (m' : DatabaseMetadata)
    → m.schema_version + 1 < 4294967296
    → next_metadata m v max_ver ≡ ok m'
    → Next m v max_ver m'
unfolding next_metadata
next_metadata-Next m v max_ver m' room h = elim (Bool-cases (m.schema_version == 0)) [
  | inl e ↦
      let (n, known, h1) = >>=-eq-ok max_ver (λ n. start_versions m v n) (rw e at h) in
      let (version, least, above) = start_versions-Next m v n m' h1 in
      inl (ground arith, version, least, (n, known, above))
  | inr e ↦
      let nonzero : m.schema_version ≢ 0 = λ z. ground arith in
      let next : next_version m ≡ m.schema_version + 1 = omega arith in
      elim (Bool-cases (ltb v m.min_schema_version)) [
        | inl e1 ↦
            let h' : ◌≡◌ {A = Result DatabaseMetadata}
                (err (invalid_argument "schema version cannot be less than")) (ok m') =
              rw (e, e1) at h in
            cc h'
        | inr e1 ↦ elim (Bool-cases (ltb (next_version m) v)) [
          | inl e2 ↦
              let h' : ◌≡◌ {A = Result DatabaseMetadata}
                  (err (invalid_argument "next schema version should be")) (ok m') =
                rw (e, e1, e2) at h in
              cc h'
          | inr e2 ↦ elim (Bool-cases (next_version m == v)) [
            | inl e3 ↦
                let same : record m { schema_version = next_version m } ≡ m' =
                  ok-injective (rw (e, e1, e2, e3) at h) in
                let version : next_version m ≡ m'.schema_version =
                  ap (λ (d : DatabaseMetadata). d.schema_version) same in
                inr (
                  nonzero,
                  ap (λ (d : DatabaseMetadata). d.min_schema_version) (sym same),
                  ground arith,
                  inr (ground arith, ground arith),
                )
            | inr e3 ↦
                let same : m ≡ m' = ok-injective (rw (e, e1, e2, e3) at h) in
                let version : m.schema_version ≡ m'.schema_version =
                  ap (λ (d : DatabaseMetadata). d.schema_version) same in
                inr (
                  nonzero,
                  ap (λ (d : DatabaseMetadata). d.min_schema_version) (sym same),
                  ground arith,
                  inl (ground arith, sym version),
                )
          ]
        ]
      ]
]

module _ (s : MetaTx) (store : IsMetaStore s) (r : NameRegistry) (json : Jsons) (now : Timestamp)
    (subspace_name : Bytes) (ns : ℕ) where
  abbrev Out : Type 0
  Out = Option Error × Database × s.Tx

  -- The latest schema of each collection is of a version that is not above `n`.
  abbrev pub NotAbove : ℕ → ℕ → List ℕ → s.Tx → Type 0
  NotAbove n db_id cs t =
      All
        (λ c.
          (w : Version) × (schema_get_latest s (schema_key subspace_name ns db_id c 0) t
            ≡ ok (some w))
          × (w.version ≤ n))
        cs

  version_of-some :
      (o : Option Version) (n : ℕ)
      → version_of o ≡ ok n
      → (w : Version) × (o ≡ some w) × (w.version ≡ n)
  version_of-some none n h = cc
  version_of-some (some w) n h = (w, refl, ok-injective h)

  pub max_schema_version-NotAbove :
      (db_id : ℕ) (cs : List ℕ) (t : s.Tx) (k n : ℕ)
      → max_schema_version s r json now subspace_name ns db_id cs t k ≡ ok n
      → (k ≤ n) × NotAbove n db_id cs t
  unfolding max_schema_version
  max_schema_version-NotAbove db_id [] t k n h = (let e : k ≡ n = ok-injective h in omega arith, tt)
  max_schema_version-NotAbove db_id (c ∷ cs) t k n h =
      let greater = λ (v : ℕ). if ltb k v then v else k in
      let next =
        λ (v : ℕ). max_schema_version s r json now subspace_name ns db_id cs t (greater v) in
      let (latest, got, h1) =
        >>=-eq-ok (schema_get_latest s (schema_key subspace_name ns db_id c 0) t)
          (λ latest. version_of latest >>= next) h in
      let (v, of_latest, h2) = >>=-eq-ok (version_of latest) next h1 in
      let (w, some_w, version) = version_of-some latest v of_latest in
      let (above, rest) = max_schema_version-NotAbove db_id cs t (greater v) n h2 in
      let bounds : (k ≤ n) × (v ≤ n) = elim (Bool-cases (ltb k v)) [
        | inl e ↦ let le : v ≤ n = rw e at above in (ground arith, le)
        | inr e ↦ let le : k ≤ n = rw e at above in (le, ground arith)
      ] in
      (bounds.0, ((w, got ∙ ap ok some_w, rw version bounds.1), rest))

  pub then_update-both :
      (p : Out) (next : Database → s.Tx → Out) (db' : Database) (t' : s.Tx)
      → then_update s r json now subspace_name ns p next ≡ (none, db', t')
      → (db : Database) × (t : s.Tx) × (p ≡ (none, db, t)) × (next db t ≡ (none, db', t'))
  then_update-both (none, db, t) next db' t' h = (db, t, refl, h)
  then_update-both (some e, db, t) next db' t' h =
      let h' : ◌≡◌ {A = Out} (some e, db, t) (none, db', t') = h in cc h'

  -- Once a version is pending, only that one is accepted, and nothing changes.
  pub pending_only :
      (vs : List ℕ) (db db' : Database) (t t' : s.Tx)
      → db.pending_schema_version ≢ 0
      → run_updates s r json now subspace_name ns vs db t ≡ (none, db', t')
      → (db' ≡ db) × (t' ≡ t) × All (λ w. w ≡ db.pending_schema_version) vs
  unfolding run_updates update_schema_version
  pending_only [] db db' t t' pending h =
      (ap (λ (q : Out). q.1) (sym h), ap (λ (q : Out). q.2) (sym h), tt)
  pending_only (v ∷ vs) db db' t t' pending h =
      let other : (db.pending_schema_version == 0) ≡ false = ground arith in
      let (db1, t1, first, rest) =
        then_update-both (update_schema_version s r json now subspace_name ns db v t)
          (run_updates s r json now subspace_name ns vs) db' t' h in
      elim (Bool-cases (v == db.pending_schema_version)) [
        | inr e ↦
            let h' : ◌≡◌ {A = Out}
                (
                  some (
                      invalid_argument
                        "collection schema version should be the same in the transaction"),
                  db,
                  t,
                )
                (none, db1, t1) =
              rw (other, e) at first in
            cc h'
        | inl e ↦
            let h' : ◌≡◌ {A = Out} (none, db, t) (none, db1, t1) = rw (other, e) at first in
            let db-same : db ≡ db1 = ap (λ (q : Out). q.1) h' in
            let t-same : t ≡ t1 = ap (λ (q : Out). q.2) h' in
            let (same, same_t, all) = pending_only vs db db' t t' pending (
              subst (λ u. run_updates s r json now subspace_name ns vs u t ≡ (none, db', t'))
                (sym db-same)
                (subst (λ u. run_updates s r json now subspace_name ns vs db1 u ≡ (none, db', t'))
                  (sym t-same) rest)) in
            (same, same_t, (ground arith, all))
      ]
