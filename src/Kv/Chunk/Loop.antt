-- ===== src/Kv/Chunk/Loop.antt =====
-- store/kv/chunk.go: the loop of executeChunks, against lists of pieces.
use native.Mathlib.Nat.{div-eq_of_lt, add-div_right}
use tigris.Base.{
  ℕ, zero, suc, ◌+◌, ◌-◌, ◌/◌, ◌≤◌, ◌<◌, ◌≡◌, refl, ap, ◌∙◌, sym, Option, none, List, [], ◌∷◌, ◌++◌,
  inl, inr, arith, ltb, lt→ltb, le→ltb, ltb→lt, Bool-cases, length, take, drop, length-drop,
  length-take, take-append-drop, All, if◌then◌else◌, Error,
}
use tigris.Base.Int32.{int32}
use tigris.Kv.Data.{Bytes}
use tigris.Kv.Chunk.{continue, execute_from}

unfoldable pub pieces : ℕ → ℕ → Bytes → List Bytes
pieces size zero doc = []
pieces size (suc fuel) [] = []
pieces size (suc fuel) (x ∷ xs) = take size (x ∷ xs) ∷ pieces size fuel (drop size (x ∷ xs))

unfoldable pub concat : List Bytes → Bytes
concat [] = []
concat (p ∷ ps) = p ++ concat ps

unfoldable pub for_chunks {ℓ} :
    {S : Type ℓ} (cb : ℕ → Bytes → S → Option Error × S) → ℕ → List Bytes → S → Option Error × S
for_chunks cb chunk [] s = (none, s)
for_chunks cb chunk (p ∷ ps) s =
    let (e, s') = cb chunk p s in let rest = for_chunks cb (suc chunk) ps s' in continue e s' rest

take_all {ℓ} : {A : Type ℓ} (n : ℕ) (xs : List A) → length xs ≤ n → take n xs ≡ xs
take_all zero [] h = refl
take_all zero (x ∷ xs) h = elim h [ ]
take_all (suc n) [] h = refl
take_all (suc n) (x ∷ xs) h = ap (λ t. x ∷ t) (take_all n xs (omega arith))

drop_all {ℓ} : {A : Type ℓ} (n : ℕ) (xs : List A) → length xs ≤ n → drop n xs ≡ []
drop_all zero [] h = refl
drop_all zero (x ∷ xs) h = elim h [ ]
drop_all (suc n) [] h = refl
drop_all (suc n) (x ∷ xs) h = drop_all n xs (omega arith)

drop-drop {ℓ} : {A : Type ℓ} (m n : ℕ) (xs : List A) → drop n (drop m xs) ≡ drop (m + n) xs
drop-drop zero n xs = ap (λ k. drop k xs) (omega arith)
drop-drop (suc m) zero [] = let e : suc m + 0 ≡ suc m = omega arith in rw e
drop-drop (suc m) (suc n) [] = let e : suc m + suc n ≡ suc (m + suc n) = omega arith in rw e
drop-drop (suc m) n (x ∷ xs) =
    let e : suc m + n ≡ suc (m + n) = omega arith in rw e (drop-drop m n xs)

pieces-suc :
    (size fuel : ℕ) (doc : Bytes)
    → 0 < length doc
    → pieces size (suc fuel) doc ≡ take size doc ∷ pieces size fuel (drop size doc)
unfolding pieces
pieces-suc size fuel [] h = elim h [ ]
pieces-suc size fuel (x ∷ xs) h = refl

-- A cut at the end of the document is a cut at the size.
take_bounded :
    (size start : ℕ) (doc : Bytes)
    → take
        ((if ltb (length doc) (start + size) then length doc else start + size) - start)
        (drop start doc)
      ≡ take size (drop start doc)
take_bounded size start doc = elim (Bool-cases (ltb (length doc) (start + size))) [
  | inl past ↦
      let n = length-drop start doc in
      let h = ltb→lt _ _ past in
      rw past (
        take_all (length doc - start) (drop start doc) (omega arith)
        ∙ sym (take_all size (drop start doc) (omega arith)))
  | inr within ↦ let e : start + size - start ≡ size = omega arith in rw (within, e)
]

module _ {ℓ} {S : Type ℓ} (size : ℕ) (doc : Bytes) (cb : ℕ → Bytes → S → Option Error × S) where
  execute_from-more :
      (fuel start chunk : ℕ) (s : S)
      → start < length doc
      → chunk + 1 < 4294967296
      → let r = cb chunk (take size (drop start doc)) s in
        execute_from size doc cb (suc fuel) start chunk s
        ≡ continue r.0 r.1 (execute_from size doc cb fuel (start + size) (suc chunk) r.1)
  unfolding execute_from
  execute_from-more fuel start chunk s h small =
      let e : int32 (chunk + 1) ≡ suc chunk = omega arith in
      rw (lt→ltb _ _ h, take_bounded size start doc, e, execute_from)

  execute_from-done :
      (fuel start chunk : ℕ) (s : S)
      → length doc ≤ start
      → execute_from size doc cb fuel start chunk s ≡ (none, s)
  unfolding execute_from
  execute_from-done zero start chunk s h = refl
  execute_from-done (suc fuel) start chunk s h = rw (le→ltb _ _ h)

  for_chunks-cons :
      (chunk : ℕ) (p : Bytes) (ps : List Bytes) (s : S)
      → for_chunks cb chunk (p ∷ ps) s
        ≡ continue (cb chunk p s).0 (cb chunk p s).1 (for_chunks cb (suc chunk) ps (cb chunk p s).1)
  unfolding for_chunks
  for_chunks-cons chunk p ps s = refl

  for_chunks-nil : (chunk : ℕ) (s : S) → for_chunks cb chunk [] s ≡ (none, s)
  unfolding for_chunks
  for_chunks-nil chunk s = refl

  pieces-nil : (fuel : ℕ) → pieces size fuel [] ≡ []
  unfolding pieces
  pieces-nil zero = refl
  pieces-nil (suc fuel) = refl

  -- With fuel for the rest of the document, the loop hands `cb` the pieces in order.
  pub execute_from-pieces :
      (fuel start chunk : ℕ) (s : S)
      → 0 < size
      → length doc < start + fuel
      → chunk + fuel < 4294967296
      → execute_from size doc cb fuel start chunk s
        ≡ for_chunks cb chunk (pieces size fuel (drop start doc)) s
  execute_from-pieces zero start chunk s pos enough small = rw (
    execute_from-done zero start chunk s (omega arith),
    drop_all start doc (omega arith),
    pieces-nil,
    for_chunks-nil,
  )
  execute_from-pieces (suc fuel) start chunk s pos enough small =
      elim (Bool-cases (ltb start (length doc))) [
        | inl more ↦
            let n = length-drop start doc in
            let h = ltb→lt _ _ more in
            rw (
              execute_from-more fuel start chunk s h (omega arith),
              pieces-suc size fuel (drop start doc) (omega arith),
              for_chunks-cons,
              drop-drop start size doc,
              execute_from-pieces fuel (start + size) (suc chunk)
                  (cb chunk (take size (drop start doc)) s).1 pos (omega arith) (omega arith),
            )
        | inr done ↦
            let h : length doc ≤ start = ground arith in
            rw (
              execute_from-done (suc fuel) start chunk s h,
              drop_all start doc h,
              pieces-nil,
              for_chunks-nil,
            )
      ]

-- The pieces make up the document, none is empty or above the size, and their number is the
-- quotient of the lengths, rounded up.
pub concat-pieces :
    (size fuel : ℕ) (doc : Bytes)
    → 0 < size
    → length doc ≤ fuel
    → concat (pieces size fuel doc) ≡ doc
unfolding concat pieces
concat-pieces size zero [] pos h = refl
concat-pieces size zero (x ∷ xs) pos h = elim h [ ]
concat-pieces size (suc fuel) [] pos h = refl
concat-pieces size (suc fuel) (x ∷ xs) pos h =
    rw (concat-pieces size fuel (drop size (x ∷ xs)) pos (omega (arith, length-drop size (x ∷ xs))))
      (take-append-drop size (x ∷ xs))

abbrev pub FitsIn : ℕ → Bytes → Type 0
FitsIn size p = (0 < length p) × (length p ≤ size)

pub pieces-FitsIn :
    (size fuel : ℕ) (doc : Bytes) → 0 < size → All (FitsIn size) (pieces size fuel doc)
unfolding pieces
pieces-FitsIn size zero doc pos = tt
pieces-FitsIn size (suc fuel) [] pos = tt
pieces-FitsIn size (suc fuel) (x ∷ xs) pos =
    let n = length-take size (x ∷ xs) in
    ((omega arith, omega arith), pieces-FitsIn size fuel (drop size (x ∷ xs)) pos)

ceil_zero : (size : ℕ) → 0 < size → (0 + size - 1) / size ≡ 0
ceil_zero size pos = div-eq_of_lt (omega arith)

ceil_suc :
    (n size : ℕ) → 0 < n → 0 < size → (n + size - 1) / size ≡ suc ((n - size + size - 1) / size)
ceil_suc n size h pos = elim (Bool-cases (ltb size n)) [
  | inl more ↦
      let e : n + size - 1 ≡ (n - size + size - 1) + size = omega (arith, ltb→lt size n more) in
      rw e (omega (arith, add-div_right (n - size + size - 1) pos))
  | inr last ↦
      let le : n ≤ size = ground arith in
      let e : n + size - 1 ≡ (n - 1) + size = omega arith in
      let z : n - size + size - 1 ≡ 0 + size - 1 = omega arith in
      rw (e, z, ceil_zero size pos)
        (omega (
          arith,
          add-div_right (n - 1) pos,
          let q : (n - 1) / size ≡ 0 = div-eq_of_lt (omega arith) in q,
        ))
]

pub length-pieces :
    (size fuel : ℕ) (doc : Bytes)
    → 0 < size
    → length doc ≤ fuel
    → length (pieces size fuel doc) ≡ (length doc + size - 1) / size
unfolding pieces
length-pieces size zero [] pos h = sym (ceil_zero size pos)
length-pieces size zero (x ∷ xs) pos h = elim h [ ]
length-pieces size (suc fuel) [] pos h = sym (ceil_zero size pos)
length-pieces size (suc fuel) (x ∷ xs) pos h =
    let n = length-drop size (x ∷ xs) in
    let ih = length-pieces size fuel (drop size (x ∷ xs)) pos (omega arith) in
    ap suc ih ∙ rw n (sym (ceil_suc (length (x ∷ xs)) size (omega arith) pos))
