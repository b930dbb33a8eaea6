-- ===== src/Query/Range/Kind.antt =====
-- query/filter/key_builder.go: the type of the plan that RangeKeyComposer makes for a field.
use tigris.Base.{
  ℕ, zero, suc, ◌+◌, ◌≡◌, refl, ◌∙◌, String, ◌&&◌, none, some, List, [], ◌∷◌, inl, inr, str_eq, ltb,
  if◌then◌else◌, Bool-cases, Result, ok, Result-cases, >>=-eq-ok, ok-injective, arith,
}
use tigris.Query.Filter.{Selector}
use tigris.Query.Plan.{QueryPlanType, range, full_range, Fieldable}
use tigris.Query.Range.{
  is_greater, is_range, Bounds, exclusive, is_gt, is_lte, missing_begin, missing_end, add_bound,
  field_bounds,
}

-- How many of the selectors are bounds of the field.
unfoldable pub count_bounds : {V : Type 0} → Fieldable → List (Selector V) → ℕ
count_bounds k [] = 0
count_bounds k (s ∷ rest) =
    if str_eq k.name s.name && is_range s.matcher
    then suc (count_bounds k rest)
    else count_bounds k rest

abbrev pub kind_of : ℕ → QueryPlanType
kind_of n = if ltb 1 n then range else full_range

module _ {V P K : Type 0} (encode : List P → Result K) (build_parts : String → V → List P)
    (after : P) (least greatest : V) where
  -- Neither or both of the ends are there, by the number of bounds that were met.
  abbrev Met : ℕ → Bounds K → Type 0
  Met zero b = (b.begin ≡ none) × (b.end ≡ none) × (b.range_type ≡ full_range)
  Met (suc n) b =
      ((x : K) × (b.begin ≡ some x))
      × ((y : K) × (b.end ≡ some y))
      × (b.range_type ≡ kind_of (suc n))

  missing_end-Met :
      (n : ℕ) (s : Selector V) (b b' : Bounds K) (key : K)
      → missing_end encode build_parts after least greatest s (record b { begin = some key })
        ≡ ok b'
      → Met n b
      → Met (suc n) b'
  missing_end-Met zero s b b' key h (e, e', e'') =
      elim (Result-cases (encode (build_parts s.name greatest))) [
        | inr (x, f) ↦ let wrong : Result.err x ≡ ok b' = rw (e', f) at h in cc wrong
        | inl (y, f) ↦
            let g = ok-injective (rw (e', f) at h) in
            rw (← g) ((key, refl), (y, refl), e'' ∙ (ground arith))
      ]
  missing_end-Met (suc n) s b b' key h ((x, e), (y, e'), e'') =
      let g = ok-injective (rw e' at h) in rw (← g) ((key, refl), (y, e'), ground arith)

  missing_begin-Met :
      (n : ℕ) (s : Selector V) (b b' : Bounds K) (key : K)
      → missing_begin encode build_parts after least greatest s (record b { end = some key })
        ≡ ok b'
      → Met n b
      → Met (suc n) b'
  missing_begin-Met zero s b b' key h (e, e', e'') =
      elim (Result-cases (encode (build_parts s.name least))) [
        | inr (x, f) ↦ let wrong : Result.err x ≡ ok b' = rw (e, f) at h in cc wrong
        | inl (y, f) ↦
            let g = ok-injective (rw (e, f) at h) in
            rw (← g) ((y, refl), (key, refl), e'' ∙ (ground arith))
      ]
  missing_begin-Met (suc n) s b b' key h ((x, e), (y, e'), e'') =
      let g = ok-injective (rw e at h) in rw (← g) ((x, e), (key, refl), ground arith)

  add_bound-Met :
      (n : ℕ) (s : Selector V) (b b' : Bounds K)
      → add_bound encode build_parts after least greatest s b ≡ ok b'
      → Met n b
      → Met (suc n) b'
  unfolding add_bound
  add_bound-Met n s b b' h met = elim (Bool-cases (is_greater s.matcher)) [
    | inl e ↦
        let (key, hk, h') =
          >>=-eq-ok (encode (exclusive after (is_gt s.matcher) (build_parts s.name s.value)))
            (λ k.
              missing_end encode build_parts after least greatest s (record b { begin = some k }))
            (rw e at h) in
        missing_end-Met n s b b' key h' met
    | inr e ↦
        let (key, hk, h') =
          >>=-eq-ok (encode (exclusive after (is_lte s.matcher) (build_parts s.name s.value)))
            (λ k.
              missing_begin encode build_parts after least greatest s (record b { end = some k }))
            (rw e at h) in
        missing_begin-Met n s b b' key h' met
  ]

  field_bounds-Met :
      (n : ℕ) (k : Fieldable) (sels : List (Selector V)) (b b' : Bounds K)
      → field_bounds encode build_parts after least greatest k sels b ≡ ok b'
      → Met n b
      → Met (count_bounds k sels + n) b'
  unfolding field_bounds count_bounds
  field_bounds-Met n k [] b b' h met =
      let e : 0 + n ≡ n = omega arith in rw (← ok-injective h, e) met
  field_bounds-Met n k (s ∷ rest) b b' h met =
      elim (Bool-cases (str_eq k.name s.name && is_range s.matcher)) [
        | inr e ↦ rw e (field_bounds-Met n k rest b b' (rw e at h) met)
        | inl e ↦
            let (b1, h1, h2) =
              >>=-eq-ok (add_bound encode build_parts after least greatest s b)
                (λ b1. field_bounds encode build_parts after least greatest k rest b1)
                (rw e at h) in
            let more = field_bounds-Met (suc n) k rest b1 b' h2 (add_bound-Met n s b b1 h1 met) in
            let e' : suc (count_bounds k rest) + n ≡ count_bounds k rest + suc n = omega arith in
            rw (e, e') more
      ]

  Met-kind : (n : ℕ) (b : Bounds K) → Met n b → b.range_type ≡ kind_of n
  Met-kind zero b (_, _, e) = e ∙ ground arith
  Met-kind (suc n) b (_, _, e) = e

  -- The type of the plan that is found for a field is a range when two selectors or more are bounds
  -- of the field, be they on the same side or not, and the full range when fewer are.
  pub field_bounds_kind :
      (k : Fieldable) (sels : List (Selector V)) (b : Bounds K)
      → field_bounds encode build_parts after least greatest k sels
          (record { begin = none; end = none; range_type = full_range })
        ≡ ok b
      → b.range_type ≡ kind_of (count_bounds k sels)
  field_bounds_kind k sels b h =
      let start : Bounds K = record { begin = none; end = none; range_type = full_range } in
      let e : count_bounds k sels + 0 ≡ count_bounds k sels = omega arith in
      Met-kind (count_bounds k sels) b
        (rw e at (field_bounds-Met 0 k sels start b h (refl, refl, refl)))
