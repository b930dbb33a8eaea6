-- ===== src/Query/Range/Ends.antt =====
-- query/filter/key_builder.go: the ends that RangeKeyComposer finds for a field.
use tigris.Base.{
  ◌≡◌, refl, ◌∙◌, String, Bool, true, none, some, List, [], ◌∷◌, ◌++◌, inl, inr, str_eq, eq_iff,
  ltb, if◌then◌else◌, Bool-cases, Option-cases, All, append-All, Result, ok, err, Result-cases,
  >>=-eq-ok, ok-injective, some-injective, ◌>>=◌, invalid_argument, length,
}
use tigris.Query.Filter.{LogicalOp, Selector}
use tigris.Query.Plan.{IndexType, range, full_range, Fieldable, QueryPlan, new_query_plan}
use tigris.Query.Range.{
  is_greater, is_less, is_range, Bounds, exclusive, is_gt, is_lte, missing_begin, missing_end,
  add_bound, field_bounds, bounds_plan, range_plans, compose_range,
}

-- What the order of the keys gives for one document: `Lower` and `Upper` say that the key is an end
-- below or above the document's.
module _ {V P K : Type 0} (encode : List P → Result K) (build_parts : String → V → List P)
    (after : P) (least greatest : V) (accepts : Selector V → Bool)
    (Lower Upper : String → K → Type 0) where
  -- An encoded lower bound that the document meets is an end below its key.
  pub record IsOrdered : Type 0 where
    pub above :
        (s : Selector V) (key : K)
        → accepts s ≡ true
        → is_greater s.matcher ≡ true
        → encode (exclusive after (is_gt s.matcher) (build_parts s.name s.value)) ≡ ok key
        → Lower s.name key
    pub below :
        (s : Selector V) (key : K)
        → accepts s ≡ true
        → is_less s.matcher ≡ true
        → encode (exclusive after (is_lte s.matcher) (build_parts s.name s.value)) ≡ ok key
        → Upper s.name key
    pub lowest :
        (name : String) (key : K) → encode (build_parts name least) ≡ ok key → Lower name key
    pub highest :
        (name : String) (key : K) → encode (build_parts name greatest) ≡ ok key → Upper name key

  abbrev Around : String → Bounds K → Type 0
  Around name b =
      ((key : K) → b.begin ≡ some key → Lower name key)
      × ((key : K) → b.end ≡ some key → Upper name key)

  -- The ends of a plan are an end below and an end above the document's key for its field.
  abbrev pub Encloses : QueryPlan K → Type 0
  Encloses p =
      (l : K) × (r : K) × (p.keys ≡ l ∷ r ∷ []) × Lower p.field_name l × Upper p.field_name r

  module _ (ordered : IsOrdered) where
    missing_end-Around :
        (s : Selector V) (b b' : Bounds K)
        → missing_end encode build_parts after least greatest s b ≡ ok b'
        → Around s.name b
        → Around s.name b'
    missing_end-Around s b b' h (l, u) = elim (Option-cases b.end) [
      | inr (key, e) ↦
          let e' : record b { end = some key; range_type = range } ≡ b' =
            ok-injective (rw e at h) in
          rw (← e') (l, λ key' same. u key' (e ∙ same))
      | inl e ↦ elim (Result-cases (encode (build_parts s.name greatest))) [
        | inr (x, e') ↦ let wrong : Result.err x ≡ ok b' = rw (e, e') at h in cc wrong
        | inl (key, e') ↦
            let e'' : record b { end = some key } ≡ b' = ok-injective (rw (e, e') at h) in
            rw (← e'')
              (l, λ key' same. ordered.highest s.name key' (rw (some-injective same) at e'))
      ]
    ]

    missing_begin-Around :
        (s : Selector V) (b b' : Bounds K)
        → missing_begin encode build_parts after least greatest s b ≡ ok b'
        → Around s.name b
        → Around s.name b'
    missing_begin-Around s b b' h (l, u) = elim (Option-cases b.begin) [
      | inr (key, e) ↦
          let e' : record b { begin = some key; range_type = range } ≡ b' =
            ok-injective (rw e at h) in
          rw (← e') ((λ key' same. l key' (e ∙ same)), u)
      | inl e ↦ elim (Result-cases (encode (build_parts s.name least))) [
        | inr (x, e') ↦ let wrong : Result.err x ≡ ok b' = rw (e, e') at h in cc wrong
        | inl (key, e') ↦
            let e'' : record b { begin = some key } ≡ b' = ok-injective (rw (e, e') at h) in
            rw (← e'')
              ((λ key' same. ordered.lowest s.name key' (rw (some-injective same) at e')), u)
      ]
    ]

    add_bound-Around :
        (s : Selector V) (b b' : Bounds K)
        → is_range s.matcher ≡ true
        → accepts s ≡ true
        → add_bound encode build_parts after least greatest s b ≡ ok b'
        → Around s.name b
        → Around s.name b'
    unfolding add_bound
    add_bound-Around s b b' ranged accepted h (l, u) = elim (Bool-cases (is_greater s.matcher)) [
      | inl e ↦
          let (key, hk, h') =
            >>=-eq-ok (encode (exclusive after (is_gt s.matcher) (build_parts s.name s.value)))
              (λ k.
                missing_end encode build_parts after least greatest s (record b { begin = some k }))
              (rw e at h) in
          missing_end-Around s (record b { begin = some key }) b' h'
            ((λ key' same. rw (← some-injective same) (ordered.above s key accepted e hk)), u)
      | inr e ↦
          let (key, hk, h') =
            >>=-eq-ok (encode (exclusive after (is_lte s.matcher) (build_parts s.name s.value)))
              (λ k.
                missing_begin encode build_parts after least greatest s (record b { end = some k }))
              (rw e at h) in
          missing_begin-Around s (record b { end = some key }) b' h'
            (
              l,
              λ key' same.
                  rw (← some-injective same) (ordered.below s key accepted (rw e at ranged) hk),
            )
    ]

    field_bounds-Around :
        (k : Fieldable) (sels : List (Selector V)) (b b' : Bounds K)
        → field_bounds encode build_parts after least greatest k sels b ≡ ok b'
        → All (λ s. accepts s ≡ true) sels
        → Around k.name b
        → Around k.name b'
    unfolding field_bounds
    field_bounds-Around k [] b b' h a around = rw (← ok-injective h) around
    field_bounds-Around k (s ∷ rest) b b' h (accepted, a) around =
        elim (Bool-cases (str_eq k.name s.name)) [
          | inr e ↦ field_bounds-Around k rest b b' (rw e at h) a around
          | inl e ↦ elim (Bool-cases (is_range s.matcher)) [
            | inr e' ↦ field_bounds-Around k rest b b' (rw (e, e') at h) a around
            | inl e' ↦
                let named : k.name ≡ s.name = (eq_iff k.name s.name).0 e in
                let (b1, h1, h2) =
                  >>=-eq-ok (add_bound encode build_parts after least greatest s b)
                    (λ b1. field_bounds encode build_parts after least greatest k rest b1)
                    (rw (e, e') at h) in
                field_bounds-Around k rest b1 b' h2 a
                  (rw named (add_bound-Around s b b1 e' accepted h1 (rw named at around)))
          ]
        ]

    bounds_plan-Encloses :
        (index_type : IndexType) (k : Fieldable) (b : Bounds K)
        → Around k.name b
        → All Encloses (bounds_plan encode build_parts after least greatest index_type k b)
    unfolding new_query_plan
    bounds_plan-Encloses index_type k b (l, u) = elim (Option-cases b.begin) [
      | inl e ↦ rw e tt
      | inr (x, e) ↦ elim (Option-cases b.end) [
        | inl e' ↦ rw (e, e') tt
        | inr (y, e') ↦ rw (e, e') ((x, y, refl, l x e, u y e'), tt)
      ]
    ]

    range_plans-Encloses :
        (index_type : IndexType) (sels : List (Selector V)) (keys : List Fieldable)
        (plans : List (QueryPlan K))
        → range_plans encode build_parts after least greatest index_type sels keys ≡ ok plans
        → All (λ s. accepts s ≡ true) sels
        → All Encloses plans
    unfolding range_plans
    range_plans-Encloses index_type sels [] plans h a =
        let e : [] ≡ plans = ok-injective h in rw (← e) tt
    range_plans-Encloses index_type sels (k ∷ ks) plans h a =
        let start : Bounds K = record { begin = none; end = none; range_type = full_range } in
        let (b, h1, h2) =
          >>=-eq-ok (field_bounds encode build_parts after least greatest k sels start)
            (λ b. range_plans encode build_parts after least greatest index_type sels ks >>= λ rest.
              ok (bounds_plan encode build_parts after least greatest index_type k b ++ rest))
            h in
        let (rest, h3, h4) =
          >>=-eq-ok (range_plans encode build_parts after least greatest index_type sels ks)
            (λ rest.
              ok (bounds_plan encode build_parts after least greatest index_type k b ++ rest))
            h2 in
        rw (← ok-injective h4) (
          append-All Encloses (bounds_plan encode build_parts after least greatest index_type k b)
            rest
            (bounds_plan-Encloses index_type k b (
              field_bounds-Around k sels start b h1 a ((λ key same. cc same), λ key same. cc same)))
            (range_plans-Encloses index_type sels ks rest h3 a))

    -- When the conditions of all the selectors hold of a document, and the keys are ordered as
    -- their values are, each plan of a range has two ends that enclose the document's key for the
    -- field of the plan.
    pub compose_range-Encloses :
        (index_type : IndexType) (sels : List (Selector V)) (keys : List Fieldable) (op : LogicalOp)
        (plans : List (QueryPlan K))
        → compose_range encode build_parts after least greatest index_type sels keys op ≡ ok plans
        → All (λ s. accepts s ≡ true) sels
        → All Encloses plans
    unfolding compose_range
    compose_range-Encloses index_type sels keys op plans h a =
        let (plans', h1, h2) =
          >>=-eq-ok (range_plans encode build_parts after least greatest index_type sels keys)
            (λ plans.
              if ltb 0 (length plans)
              then ok plans
              else err (invalid_argument "No range query found"))
            h in
        elim (Bool-cases (ltb 0 (length plans'))) [
          | inl e ↦
              rw (← ok-injective (rw e at h2))
                (range_plans-Encloses index_type sels keys plans' h1 a)
          | inr e ↦
              let wrong : Result.err (invalid_argument "No range query found") ≡ ok plans =
                rw e at h2 in
              cc wrong
        ]
