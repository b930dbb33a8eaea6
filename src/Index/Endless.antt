-- ===== src/Index/Endless.antt =====
-- secondary_indexer.go: BuildCollection with batches of one document.
use mathlib.Core.Path.{subst}
use tigris.Base.{
  ℕ, zero, suc, ◌*◌, ◌/◌, ◌++◌, ◌≤◌, ◌<◌, ◌≡◌, ◌≢◌, refl, sym, ◌∙◌, ap, true, Option, none, some,
  List, [], ◌∷◌, inl, inr, leb, ◌==◌, if◌then◌else◌, length, Error, arith, Bool-cases, List-cases,
  All,
}
use tigris.Index.Bulk.{
  Attempt, Batch, read_batch, bulk_docs, build_batches, build_all, should_retry_bulk_index,
}
use tigris.Index.Batches.{Succeeds, batch-Covers, continued, read_batch-step, unless}

-- 2 ^ n
abbrev power : ℕ → ℕ
power zero = 1
power (suc n) = 2 * power n

power_pos : (n : ℕ) → 1 ≤ power n
power_pos zero = omega arith
power_pos (suc n) = omega (arith, power_pos n)

power_mono : (m n : ℕ) → m ≤ n → power m ≤ power n
power_mono zero n h = power_pos n
power_mono (suc m) zero h = absurd (omega arith)
power_mono (suc m) (suc n) h = omega (arith, power_mono m n (omega arith))

large : (n : ℕ) → 8 ≤ n → 500 < 2 * power n
large n h = omega (arith, power_mono 8 n h)

module _ {D S : Type 0} (index_doc : D → S → Option Error × S)
    (index-none : (d : D) (t : S) → (index_doc d t).0 ≡ none) where
  endless :
      (docs : List D) (attempts : List Attempt) (doc_fetch : ℕ) (first last : Option (List D))
      (r : D) (rows : List D) (t : S)
      → bulk_docs index_doc docs first last ≡ r ∷ rows
      → All Succeeds attempts
      → doc_fetch ≤ 1
      → build_batches index_doc docs attempts doc_fetch first last t ≡ none
  unfolding build_batches bulk_docs
  endless docs [] doc_fetch first last r rows t e h few = refl
  endless docs (a ∷ attempts) doc_fetch first last r rows t e (h, hs) few =
      let (l, left, (fail, last', counted, long, keeps, covers)) =
        batch-Covers index_doc (λ d t. Unit {0}) index-none (λ d t. tt) (λ d e t u. tt) doc_fetch
          first last r rows t in
      let b = read_batch index_doc doc_fetch 0 first last t (r ∷ rows) in
      continued index_doc (λ d t. Unit {0}) index-none (λ d t. tt) (λ d e t u. tt) docs (r ∷ rows)
        (l ∷ left) a attempts doc_fetch first last t e h fail last' (ground arith)
      ∙ endless docs attempts doc_fetch none (some (l ∷ left)) l left b.tx refl hs few

  -- A commit that fails in a way that is retried.
  abbrev pub Retried : Attempt → Type 0
  Retried a =
      (a.start ≡ none) × ((e : Error) × (a.commit ≡ some e) × (should_retry_bulk_index e ≡ true))

  first_kept :
      (doc_fetch count : ℕ) (first last : Option (List D)) (t : S) (rows : List D)
      → (read_batch index_doc doc_fetch (suc count) first last t rows).first ≡ first
  unfolding read_batch
  first_kept doc_fetch count first last t [] = refl
  first_kept doc_fetch count first last t (x ∷ rows) =
      elim (Bool-cases (leb (suc count) doc_fetch)) [
        | inr e ↦ rw e refl
        | inl e ↦
            ap (λ (b : Batch index_doc). b.first)
              (read_batch-step index_doc (λ d t. Unit {0}) index-none (λ d t. tt) (λ d e t u. tt)
                doc_fetch (suc count) first last x rows t e)
            ∙ first_kept doc_fetch (suc count) (if suc count == 0 then some (x ∷ rows) else first)
                (some (x ∷ rows)) (index_doc x t).1 rows
            ∙ unless {b = suc count == 0} (ground arith) _ _
      ]

  -- After a batch, `first` is the row at which it began.
  batch-first :
      (doc_fetch : ℕ) (first last : Option (List D)) (t : S) (r : D) (rows : List D)
      → (read_batch index_doc doc_fetch 0 first last t (r ∷ rows)).first ≡ some (r ∷ rows)
  batch-first doc_fetch first last t r rows =
      ap (λ (b : Batch index_doc). b.first)
        (read_batch-step index_doc (λ d t. Unit {0}) index-none (λ d t. tt) (λ d e t u. tt)
          doc_fetch 0 first last r rows t (ground arith))
      ∙ first_kept doc_fetch 0 (some (r ∷ rows)) (some (r ∷ rows)) (index_doc r t).1 rows

  retried :
      (docs : List D) (a : Attempt) (attempts : List Attempt) (doc_fetch : ℕ)
      (first last : Option (List D)) (t : S) (e : Error)
      → a.start ≡ none
      → a.commit ≡ some e
      → should_retry_bulk_index e ≡ true
      → (read_batch index_doc doc_fetch 0 first last t (bulk_docs index_doc docs first last)).fail
        ≡ none
      → build_batches index_doc docs (a ∷ attempts) doc_fetch first last t ≡ (
          let b =
            read_batch index_doc doc_fetch 0 first last t (bulk_docs index_doc docs first last) in
          build_batches index_doc docs attempts (doc_fetch / 2) b.first b.last t)
  unfolding build_batches
  retried docs a attempts doc_fetch first last t e starts commits again fail = ground arith

  endless_after :
      (docs : List D) (fails attempts : List Attempt) (doc_fetch : ℕ) (first last : Option (List D))
      (r : D) (rows : List D) (t : S)
      → bulk_docs index_doc docs first last ≡ r ∷ rows
      → All Retried fails
      → All Succeeds attempts
      → doc_fetch < 2 * power (length fails)
      → build_batches index_doc docs (fails ++ attempts) doc_fetch first last t ≡ none
  unfolding bulk_docs
  endless_after docs [] attempts doc_fetch first last r rows t e h hs few =
      endless docs attempts doc_fetch first last r rows t e hs (omega arith)
  endless_after docs (a ∷ fails) attempts doc_fetch first last r rows t e
        ((starts, (x, commits, again)), h) hs few =
      let (l, left, (fail, last', counted, long, keeps, covers)) =
        batch-Covers index_doc (λ d t. Unit {0}) index-none (λ d t. tt) (λ d e t u. tt) doc_fetch
          first last r rows t in
      let b = read_batch index_doc doc_fetch 0 first last t (bulk_docs index_doc docs first last) in
      let begun : b.first ≡ some (r ∷ rows) =
        subst (λ z. (read_batch index_doc doc_fetch 0 first last t z).first ≡ some (r ∷ rows))
          (sym e) (batch-first doc_fetch first last t r rows) in
      retried docs a (fails ++ attempts) doc_fetch first last t x starts commits again
        (subst (λ z. (read_batch index_doc doc_fetch 0 first last t z).fail ≡ none) (sym e) fail)
      ∙ endless_after docs fails attempts (doc_fetch / 2) b.first b.last r rows t
          (ap (λ z. bulk_docs index_doc docs z b.last) begun) h hs (omega arith)

  -- BuildCollection of a collection that is not empty does not return after eight commits or more
  -- have failed in a way that is retried, however many batches the store then carries out. Indexing
  -- a document answers no error.
  pub build_all-endless :
      (docs : List D) (fails attempts : List Attempt) (t : S)
      → docs ≢ []
      → All Retried fails
      → All Succeeds attempts
      → 8 ≤ length fails
      → build_all index_doc docs (fails ++ attempts) t ≡ none
  unfolding build_all bulk_docs
  build_all-endless docs fails attempts t full h hs many = elim (List-cases docs) [
    | inl e ↦ absurd (full e)
    | inr (r, (rows, e)) ↦
        endless_after docs fails attempts 500 none none r rows t e h hs (large (length fails) many)
  ]
