-- ===== src/Index/Batches.antt =====
-- secondary_indexer.go: one batch of BuildCollection.
use Prim.Native.Nat.{min}
use mathlib.Core.Path.{subst}
use tigris.Base.{
  ℕ, suc, ◌+◌, ◌-◌, ◌≤◌, ◌≡◌, refl, sym, ◌∙◌, ap, Bool, true, false, Option, none, some, List, [],
  ◌∷◌, ◌⊎◌, inl, inr, ltb, leb, ◌==◌, if◌then◌else◌, length, Error, arith, Bool-cases,
}
use tigris.Index.Bulk.{Attempt, Batch, read_batch, bulk_docs, build_batches, indexed}
use tigris.Index.Same.{In}

-- An attempt that the store carries out.
abbrev pub Succeeds : Attempt → Type 0
Succeeds a = (a.start ≡ none) × (a.commit ≡ none)

pub when : {A : Type 0} {b : Bool} → b ≡ true → (x y : A) → (if b then x else y) ≡ x
when h x y = rw h refl

pub unless : {A : Type 0} {b : Bool} → b ≡ false → (x y : A) → (if b then x else y) ≡ y
unless h x y = rw h refl

module _ {D S : Type 0} (index_doc : D → S → Option Error × S) where
  module _ (Indexed : D → S → Type 0) (index-none : (d : D) (t : S) → (index_doc d t).0 ≡ none)
      (index-Indexed : (d : D) (t : S) → Indexed d (index_doc d t).1)
      (index-keeps : (d e : D) (t : S) → Indexed e t → Indexed e (index_doc d t).1) where
    -- The rest of a batch that has read the row `r`, which is indexed: `l` is the last row that is
    -- read, and `left` are those behind it.
    abbrev Ends : ℕ → ℕ → D → List D → S → Batch index_doc → D → List D → Type 0
    Ends doc_fetch count r rows t b l left =
        (b.fail ≡ none)
        × (b.last ≡ some (l ∷ left))
        × (b.count ≡ count + min (length rows) (suc doc_fetch - count))
        × (length left + (b.count - count) ≡ length rows)
        × ((d : D) → Indexed d t → Indexed d b.tx)
        × ((d : D) → In d (r ∷ rows) → Indexed d b.tx ⊎ In d left)

    -- A batch over the rows `r ∷ rows`.
    abbrev pub Covers : ℕ → D → List D → S → Batch index_doc → D → List D → Type 0
    Covers doc_fetch r rows t b l left =
        (b.fail ≡ none)
        × (b.last ≡ some (l ∷ left))
        × (b.count ≡ suc (min (length rows) doc_fetch))
        × (length left + min (length rows) doc_fetch ≡ length rows)
        × ((d : D) → Indexed d t → Indexed d b.tx)
        × ((d : D) → In d (r ∷ rows) → Indexed d b.tx ⊎ In d left)

    pub next-eq :
        (b : Batch index_doc) (d : D) (t : S) (next : S → Batch index_doc)
        → indexed index_doc b (index_doc d t) next ≡ next (index_doc d t).1
    next-eq b d t next = by_error b (index_doc d t) (index-none d t) next
      where
        by_error :
            (b : Batch index_doc) (r : Option Error × S)
            → r.0 ≡ none
            → (next : S → Batch index_doc) → indexed index_doc b r next ≡ next r.1
        by_error b (none, t) h next = refl
        by_error b (some e, t) h next = cc

    -- A row is read while the batch is not full.
    pub read_batch-step :
        (doc_fetch count : ℕ) (first last : Option (List D)) (x : D) (rows : List D) (t : S)
        → leb count doc_fetch ≡ true
        → read_batch index_doc doc_fetch count first last t (x ∷ rows)
          ≡ read_batch index_doc doc_fetch
              (suc count)
              (if count == 0 then some (x ∷ rows) else first)
              (some (x ∷ rows))
              (index_doc x t).1
              rows
    unfolding read_batch
    read_batch-step doc_fetch count first last x rows t e =
        when e _ _
        ∙ next-eq
            (record {
              count = count;
              first = if count == 0 then some (x ∷ rows) else first;
              last = some (x ∷ rows);
              fail = none;
              tx = t;
            })
            x t
            (λ t'.
              read_batch index_doc doc_fetch (suc count)
                (if count == 0 then some (x ∷ rows) else first) (some (x ∷ rows)) t' rows)

    Ends-step :
        (doc_fetch count : ℕ) (r x : D) (rows : List D) (t : S) (b : Batch index_doc) (l : D)
        (left : List D)
        → count ≤ doc_fetch
        → Indexed r t
        → Ends doc_fetch (suc count) x rows (index_doc x t).1 b l left
        → Ends doc_fetch count r (x ∷ rows) t b l left
    Ends-step doc_fetch count r x rows t b l left few h (fail, last, counted, long, keeps, covers) =
        (
          fail,
          last,
          omega arith,
          omega arith,
          (λ d k. keeps d (index-keeps x d t k)),
          λ d i. elim i [
            | inl own ↦ inl (keeps d (index-keeps x d t (subst (λ z. Indexed z t) own h)))
            | inr later ↦ covers d later
          ],
        )

    own_row :
        (r d : D) (rows : List D) (t : S) → Indexed r t → In d (r ∷ rows) → Indexed d t ⊎ In d rows
    own_row r d rows t h (inl own) = inl (subst (λ z. Indexed z t) own h)
    own_row r d rows t h (inr later) = inr later

    read_batch-Ends :
        (doc_fetch count : ℕ) (first : Option (List D)) (r : D) (rows : List D) (t : S)
        → Indexed r t
        → (l : D) × (left : List D) × Ends doc_fetch count r rows t
            (read_batch index_doc doc_fetch count first (some (r ∷ rows)) t rows)
            l
            left
    unfolding read_batch
    read_batch-Ends doc_fetch count first r [] t h =
        (r, [], (refl, refl, omega arith, omega arith, (λ d k. k), λ d i. own_row r d [] t h i))
    read_batch-Ends doc_fetch count first r (x ∷ rows) t h =
        elim (Bool-cases (leb count doc_fetch)) [
          | inr e ↦ (
            r,
            x ∷ rows,
            rw e (
              refl,
              refl,
              ground arith,
              omega arith,
              (λ d k. k),
              λ d i. own_row r d (x ∷ rows) t h i,
            ),
          )
          | inl e ↦
              let start = if count == 0 then some (x ∷ rows) else first in
              let t1 = (index_doc x t).1 in
              let (l, left, ends) =
                read_batch-Ends doc_fetch (suc count) start x rows t1 (index-Indexed x t) in
              (
                l,
                left,
                subst (λ b. Ends doc_fetch count r (x ∷ rows) t b l left)
                    (sym (read_batch-step doc_fetch count first (some (r ∷ (x ∷ rows))) x rows t e))
                    (Ends-step doc_fetch count r x rows t
                      (read_batch index_doc doc_fetch (suc count) start (some (x ∷ rows)) t1 rows) l
                      left (ground arith) h ends),
              )
        ]

    Ends-Covers :
        (doc_fetch : ℕ) (r : D) (rows : List D) (t : S) (b : Batch index_doc) (l : D)
        (left : List D)
        → Ends doc_fetch 1 r rows (index_doc r t).1 b l left
        → Covers doc_fetch r rows t b l left
    Ends-Covers doc_fetch r rows t b l left (fail, last, counted, long, keeps, covers) =
        (fail, last, omega arith, omega arith, (λ d k. keeps d (index-keeps r d t k)), covers)

    pub batch-Covers :
        (doc_fetch : ℕ) (first last : Option (List D)) (r : D) (rows : List D) (t : S)
        → (l : D) × (left : List D) × Covers doc_fetch r rows t
            (read_batch index_doc doc_fetch 0 first last t (r ∷ rows))
            l
            left
    batch-Covers doc_fetch first last r rows t =
        let (l, left, ends) =
          read_batch-Ends doc_fetch 1 (some (r ∷ rows)) r rows (index_doc r t).1
            (index-Indexed r t) in
        (
          l,
          left,
          subst (λ b. Covers doc_fetch r rows t b l left)
              (sym (read_batch-step doc_fetch 0 first last r rows t (ground arith)))
              (Ends-Covers doc_fetch r rows t
                (read_batch index_doc doc_fetch 1 (some (r ∷ rows)) (some (r ∷ rows))
                  (index_doc r t).1 rows)
                l left ends),
        )

    -- A batch that succeeds ends the build if it has read fewer rows than `doc_fetch`.
    succeeded :
        (docs : List D) (a : Attempt) (attempts : List Attempt) (doc_fetch : ℕ)
        (first last : Option (List D)) (t : S)
        → Succeeds a
        → (read_batch index_doc doc_fetch 0 first last t (bulk_docs index_doc docs first last)).fail
          ≡ none
        → build_batches index_doc docs (a ∷ attempts) doc_fetch first last t ≡ (
            let b =
              read_batch index_doc doc_fetch 0 first last t (bulk_docs index_doc docs first last) in
            if ltb b.count doc_fetch
            then some (none, b.tx)
            else build_batches index_doc docs attempts doc_fetch none b.last b.tx)
    unfolding build_batches
    succeeded docs a attempts doc_fetch first last t (starts, commits) e = ground arith

    abbrev pub batch_of : ℕ → Option (List D) → Option (List D) → S → List D → Batch index_doc
    batch_of doc_fetch first last t rows = read_batch index_doc doc_fetch 0 first last t rows

    pub returned :
        (docs rows : List D) (a : Attempt) (attempts : List Attempt) (doc_fetch : ℕ)
        (first last : Option (List D)) (t : S)
        → bulk_docs index_doc docs first last ≡ rows
        → Succeeds a
        → (batch_of doc_fetch first last t rows).fail ≡ none
        → ltb (batch_of doc_fetch first last t rows).count doc_fetch ≡ true
        → build_batches index_doc docs (a ∷ attempts) doc_fetch first last t
          ≡ some (none, (batch_of doc_fetch first last t rows).tx)
    returned docs rows a attempts doc_fetch first last t e h fail few =
        let fail' = subst (λ r. (batch_of doc_fetch first last t r).fail ≡ none) (sym e) fail in
        let few' =
          subst (λ r. ltb (batch_of doc_fetch first last t r).count doc_fetch ≡ true) (sym e) few in
        succeeded docs a attempts doc_fetch first last t h fail'
        ∙ when few' _ _
        ∙ ap (λ r. some (none, (batch_of doc_fetch first last t r).tx)) e

    pub continued :
        (docs rows left : List D) (a : Attempt) (attempts : List Attempt) (doc_fetch : ℕ)
        (first last : Option (List D)) (t : S)
        → bulk_docs index_doc docs first last ≡ rows
        → Succeeds a
        → (batch_of doc_fetch first last t rows).fail ≡ none
        → (batch_of doc_fetch first last t rows).last ≡ some left
        → ltb (batch_of doc_fetch first last t rows).count doc_fetch ≡ false
        → build_batches index_doc docs (a ∷ attempts) doc_fetch first last t
          ≡ build_batches index_doc docs attempts doc_fetch none
              (some left)
              (batch_of doc_fetch first last t rows).tx
    continued docs rows left a attempts doc_fetch first last t e h fail last' full =
        let fail' = subst (λ r. (batch_of doc_fetch first last t r).fail ≡ none) (sym e) fail in
        let full' =
          subst (λ r. ltb (batch_of doc_fetch first last t r).count doc_fetch ≡ false) (sym e)
            full in
        succeeded docs a attempts doc_fetch first last t h fail'
        ∙ unless full' _ _
        ∙ ap
            (λ r.
              build_batches index_doc docs attempts doc_fetch none
                (batch_of doc_fetch first last t r).last (batch_of doc_fetch first last t r).tx)
            e
        ∙ ap
            (λ l.
              build_batches index_doc docs attempts doc_fetch none l
                (batch_of doc_fetch first last t rows).tx)
            last'
