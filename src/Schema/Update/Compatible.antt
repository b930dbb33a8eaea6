-- ===== src/Schema/Update/Compatible.antt =====
-- schema/migration.go: CompatibleSchemaSince and UpdateRowSchema.
use tigris.Base.{
  ℕ, suc, zero, ◌+◌, ◌/◌, ◌≤◌, ◌≡◌, refl, Bool, true, false, some, List, [], ◌∷◌, ltb, leb, length,
  drop, Result, ok, panic, Bool-cases, inl, inr, arith, ok-injective, some-injective, Option-cases,
  ltb→lt, le→ltb,
}
use tigris.Schema.Migration.{VersionDelta}
use tigris.Schema.Convert.{Library, Members}
use tigris.Schema.Update.{
  apply_deltas, version_at, search, update_row_schema, last_version, compatible_schema_since,
}

-- The versions of the deltas do not fall.
abbrev pub Ascending : List VersionDelta → Type 0
Ascending [] = Unit
Ascending (d ∷ []) = Unit
Ascending (d ∷ e ∷ ds) = (d.version ≤ e.version) × Ascending (e ∷ ds)

drop-length {ℓ} : {A : Type ℓ} (xs : List A) → drop (length xs) xs ≡ []
drop-length [] = refl
drop-length (x ∷ xs) = drop-length xs

search-none :
    (f : ℕ → Bool) (fuel i j : ℕ)
    → ((h : ℕ) → f h ≡ false)
    → i ≤ j
    → j ≤ i + fuel
    → search f fuel i j ≡ j
unfolding search
search-none f zero i j never le enough = omega arith
search-none f (suc fuel) i j never le enough = elim (Bool-cases (ltb i j)) [
  | inl more ↦
      let l = ltb→lt i j more in
      rw (more, never ((i + j) / 2))
        (search-none f fuel ((i + j) / 2 + 1) j never (omega arith) (omega arith))
  | inr done ↦ let e : i ≡ j = ground arith in rw done e
]

version_at-bound :
    (deltas : List VersionDelta) (last h : ℕ)
    → last_version deltas ≡ some last
    → Ascending deltas
    → version_at deltas h ≤ last
version_at-bound [] last h e a = omega arith
version_at-bound (d ∷ []) last zero e a = let q = some-injective e in omega arith
version_at-bound (d ∷ []) last (suc h) e a = omega arith
version_at-bound (d ∷ d' ∷ ds) last zero e (le, a) =
    let b = version_at-bound (d' ∷ ds) last 0 e a in omega arith
version_at-bound (d ∷ d' ∷ ds) last (suc h) e (le, a) = version_at-bound (d' ∷ ds) last h e a

compatible-last :
    (deltas : List VersionDelta) (version : ℕ)
    → compatible_schema_since deltas version ≡ ok true
    → (last : ℕ) × (last_version deltas ≡ some last) × (last ≤ version)
unfolding compatible_schema_since
compatible-last deltas version h = elim (Option-cases (last_version deltas)) [
  | inl e ↦
      let wrong : Result.err (panic "index out of range") ≡ ok true =
        rw (e, compatible_schema_since) at h in
      cc wrong
  | inr (last, e) ↦
      let q : leb last version ≡ true = ok-injective (rw (e, compatible_schema_since) at h) in
      (last, e, ground arith)
]

-- Where the deltas ascend by version and the schema is compatible since the version of a row, the
-- update of the row to the latest schema is the row itself.
pub update_row_schema-compatible :
    {F : Type 0} (lib : Library F) (deltas : List VersionDelta) (doc : Members F) (version : ℕ)
    → Ascending deltas
    → compatible_schema_since deltas version ≡ ok true
    → update_row_schema lib deltas doc version ≡ ok doc
unfolding update_row_schema apply_deltas
update_row_schema-compatible lib deltas doc version a h =
    let (last, e, le) = compatible-last deltas version h in
    let never : (i : ℕ) → ltb version (version_at deltas i) ≡ false = λ i.
      le→ltb version (version_at deltas i) (omega (arith, version_at-bound deltas last i e a)) in
    rw (
      search-none (λ i. ltb version (version_at deltas i)) (length deltas) 0 (length deltas) never
          (omega arith) (omega arith),
      drop-length deltas,
    )
