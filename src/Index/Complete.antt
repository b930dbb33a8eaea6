-- ===== src/Index/Complete.antt =====
-- secondary_indexer.go: BuildCollection returns, and has indexed each document.
use Prim.Native.Nat.{min}
use mathlib.Core.Path.{subst}
use tigris.Base.{
  ℕ, suc, ◌+◌, ◌≤◌, ◌<◌, ◌≡◌, refl, ◌∙◌, false, Option, none, some, List, [], ◌∷◌, ◌⊎◌, inl, inr,
  ltb, length, Error, arith, Bool-cases, List-cases, All,
}
use tigris.Index.Bulk.{Attempt, read_batch, bulk_docs, build_batches, build_all}
use tigris.Index.Same.{In}
use tigris.Index.Batches.{Succeeds, batch-Covers, returned, continued}

module _ {D S : Type 0} (index_doc : D → S → Option Error × S) where
  module _ (Indexed : D → S → Type 0) (index-none : (d : D) (t : S) → (index_doc d t).0 ≡ none)
      (index-Indexed : (d : D) (t : S) → Indexed d (index_doc d t).1)
      (index-keeps : (d e : D) (t : S) → Indexed e t → Indexed e (index_doc d t).1) where
    -- The build returns, with no error, and has indexed each of the documents `rows`.
    abbrev pub Builds : List D → S → Option (Option Error × S) → Type 0
    Builds rows t result =
        (t' : S) × (result ≡ some (none, t'))
        × ((d : D) → Indexed d t → Indexed d t')
        × ((d : D) → In d rows → Indexed d t')

    none_left : (d : D) (left : List D) (P : Type 0) → length left ≡ 0 → P ⊎ In d left → P
    none_left d left P e (inl h) = h
    none_left d [] P e (inr i) = elim i [ ]
    none_left d (x ∷ left) P e (inr i) = absurd (omega arith)

    shorter :
        (doc_fetch rows left count attempts : ℕ)
        → count ≡ suc (min rows doc_fetch)
        → left + min rows doc_fetch ≡ rows
        → ltb count doc_fetch ≡ false
        → 2 ≤ doc_fetch
        → suc rows < suc attempts
        → suc left < attempts
    shorter doc_fetch rows left count attempts counted long full many enough = ground arith

    build_batches-Builds :
        (docs : List D) (attempts : List Attempt) (doc_fetch : ℕ) (first last : Option (List D))
        (t : S)
        → All Succeeds attempts
        → 2 ≤ doc_fetch
        → length (bulk_docs index_doc docs first last) < length attempts
        → Builds
            (bulk_docs index_doc docs first last)
            t
            (build_batches index_doc docs attempts doc_fetch first last t)
    unfolding read_batch bulk_docs
    build_batches-Builds docs [] doc_fetch first last t h many enough = absurd (omega arith)
    build_batches-Builds docs (a ∷ attempts) doc_fetch first last t (h, hs) many enough =
        elim (List-cases (bulk_docs index_doc docs first last)) [
          | inl e ↦ (
            t,
            returned index_doc Indexed index-none index-Indexed index-keeps docs [] a attempts
                doc_fetch first last t e h refl (ground arith),
            (λ d k. k),
            λ d i. absurd (subst (In d) e i),
          )
          | inr (r, (rows, e)) ↦
              let (l, left, (fail, last', counted, long, keeps, covers)) =
                batch-Covers index_doc Indexed index-none index-Indexed index-keeps doc_fetch first
                  last r rows t in
              let b = read_batch index_doc doc_fetch 0 first last t (r ∷ rows) in
              elim (Bool-cases (ltb b.count doc_fetch)) [
                | inl few ↦ (
                  b.tx,
                  returned index_doc Indexed index-none index-Indexed index-keeps docs (r ∷ rows) a
                      attempts doc_fetch first last t e h fail few,
                  keeps,
                  λ d i.
                      none_left d left (Indexed d b.tx) (ground arith)
                        (covers d (subst (In d) e i)),
                )
                | inr full ↦
                    let (t', result, keeps', finds) =
                      build_batches-Builds docs attempts doc_fetch none (some (l ∷ left)) b.tx hs
                        many
                        (shorter doc_fetch (length rows) (length left) b.count (length attempts)
                          counted long full many
                          (subst (λ x. length x < suc (length attempts)) e enough)) in
                    (
                      t',
                      continued index_doc Indexed index-none index-Indexed index-keeps docs
                            (r ∷ rows) (l ∷ left) a attempts doc_fetch first last t e h fail last'
                            full
                          ∙ result,
                      (λ d k. keeps' d (keeps d k)),
                      λ d i. elim (covers d (subst (In d) e i)) [
                        | inl done ↦ keeps' d done
                        | inr later ↦ finds d (inr later)
                      ],
                    )
              ]
        ]

    -- BuildCollection returns with no error once the store has carried out more batches than there are
    -- documents, and each document has then been indexed. The store carries out each batch, and
    -- indexing a document answers no error and keeps what is indexed.
    pub build_all-Builds :
        (docs : List D) (attempts : List Attempt) (t : S)
        → All Succeeds attempts
        → length docs < length attempts
        → Builds docs t (build_all index_doc docs attempts t)
    unfolding build_all bulk_docs
    build_all-Builds docs attempts t h enough =
        build_batches-Builds docs attempts 500 none none t h (omega arith) enough
