-- ===== src/Query/Strict/PrimaryKey.antt =====
-- query/filter/key_builder.go: StrictEqKeyComposer.Compose where every key must be matched.
use mathlib.Core.List.{append-nil, append_assoc}
use tigris.Base.{
  ℕ, String, ◌≡◌, ◌≢◌, refl, ap, ◌∙◌, sym, Bool, true, List, [], ◌∷◌, ◌++◌, str_eq, eq_iff, ltb,
  arith, if◌then◌else◌, Bool-cases, inl, inr, length, All, Result, ok, err, invalid_argument, ◌>>=◌,
  >>=-eq-ok, ok-injective, Result-cases, str_eq-false,
}
use tigris.Schema.FieldType.{FieldType}
use tigris.Query.Filter.{LogicalOp, and_op, MatcherType, eq, Selector}
use tigris.Query.Plan.{IndexType, equal, Fieldable, QueryPlan, new_query_plan, is_eq}
use tigris.Query.Strict.{
  repeated_fields, extend, add_fields, composite_keys, plan_field, selector_parts, and_plan,
  query_plans, compose_strict,
}

is_eq-true : (m : MatcherType) → is_eq m ≡ true → m ≡ eq
is_eq-true eq h = refl
is_eq-true _ h = cc

module _ {V P : Type 0} (build_parts : String → V → List P) (doc : String → V) where
  -- A condition of equality holds of the document, by the value of its field.
  abbrev pub EqHolds : Selector V → Type 0
  EqHolds s = s.matcher ≡ eq → doc s.name ≡ s.value

  -- The parts of the key that the document has.
  unfoldable pub key_parts : List Fieldable → List P
  key_parts [] = []
  key_parts (k ∷ ks) = build_parts k.name (doc k.name) ++ key_parts ks

module _ {V P K : Type 0} (encode : List P → Result K) (build_parts : String → V → List P)
    (doc : String → V) where
  abbrev Found : Fieldable → Selector V → Type 0
  Found k s = (k.name ≡ s.name) × (doc s.name ≡ s.value)

  repeated_fields-Found :
      (k : Fieldable) (sels : List (Selector V)) (r : List (Selector V))
      → repeated_fields encode build_parts true k sels ≡ ok r
      → All (EqHolds build_parts doc) sels
      → All (Found k) r
  unfolding repeated_fields
  repeated_fields-Found k [] r h a = let e : [] ≡ r = ok-injective h in rw (← e) tt
  repeated_fields-Found k (s ∷ rest) r h (holds, others) = elim (Bool-cases (is_eq s.matcher)) [
    | inl same ↦
        let (found, hf, e) =
          >>=-eq-ok (repeated_fields encode build_parts true k rest)
            (λ found. ok (if str_eq k.name s.name then s ∷ found else found)) (rw same at h) in
        let ih = repeated_fields-Found k rest found hf others in
        elim (Bool-cases (str_eq k.name s.name)) [
          | inl named ↦
              let e' : s ∷ found ≡ r = ok-injective (rw named at e) in
              rw (← e') (((eq_iff k.name s.name).0 named, holds (is_eq-true s.matcher same)), ih)
          | inr other ↦ let e' : found ≡ r = ok-injective (rw other at e) in rw (← e') ih
        ]
    | inr different ↦
        let e : Result.err (invalid_argument "filters only supporting $eq comparison") ≡ ok r =
          rw different at h in
        cc e
  ]

  -- A composite key that is extended with one selector for each user-defined key.
  abbrev Chosen : List Fieldable → List (Selector V) → Type 0
  Chosen ks chosen = selector_parts encode build_parts chosen ≡ key_parts build_parts doc ks

  composite_keys-Chosen :
      (sels : List (Selector V)) (c : List (Selector V)) (ks : List Fieldable)
      (cs : List (List (Selector V)))
      → composite_keys encode build_parts true and_op sels (c ∷ []) ks ≡ ok cs
      → All (EqHolds build_parts doc) sels
      → (chosen : List (Selector V)) × (cs ≡ (c ++ chosen) ∷ []) × Chosen ks chosen
  unfolding composite_keys add_fields extend selector_parts key_parts
  composite_keys-Chosen sels c [] cs h holds =
      ([], sym (ok-injective h) ∙ ap (λ x. x ∷ []) (sym (append-nil c)), refl)
  composite_keys-Chosen sels c (k ∷ ks) cs h holds =
      let (found, hf, h') =
        >>=-eq-ok (repeated_fields encode build_parts true k sels)
          (λ found. add_fields encode build_parts true and_op (c ∷ []) found >>= λ composite.
            composite_keys encode build_parts true and_op sels composite ks)
          h in
      one_field found (repeated_fields-Found k sels found hf holds) h'
        (λ c' h''. composite_keys-Chosen sels c' ks cs h'' holds)
    where
      one_field :
          (found : List (Selector V))
          → All (Found k) found
          → (add_fields encode build_parts true and_op (c ∷ []) found >>= λ composite.
              composite_keys encode build_parts true and_op sels composite ks)
            ≡ ok cs
          → ((c' : List (Selector V))
              → composite_keys encode build_parts true and_op sels (c' ∷ []) ks ≡ ok cs
              → (chosen : List (Selector V)) × (cs ≡ (c' ++ chosen) ∷ []) × Chosen ks chosen)
          → (chosen : List (Selector V)) × (cs ≡ (c ++ chosen) ∷ []) × Chosen (k ∷ ks) chosen
      one_field [] a h' ih = cc
      one_field (s ∷ []) ((named, held), _) h' ih =
          let (chosen, e, same) = ih (c ++ s ∷ []) h' in
          (
            s ∷ chosen,
            e ∙ ap (λ x. x ∷ []) (append_assoc c (s ∷ []) chosen),
            rw (named, held, same),
          )
      one_field (s ∷ t ∷ more) a h' ih =
          let two : ltb 0 (length (t ∷ more)) ≡ true = ground arith in
          let e : Result.err (invalid_argument "reusing same fields for conditions on equality")
              ≡ ok cs =
            rw two at h' in
          cc e

  query_plans-one :
      (index_type : IndexType) (count : ℕ) (c : List (Selector V)) (plans : List (QueryPlan K))
      → query_plans encode build_parts index_type and_op count (c ∷ []) ≡ ok plans
      → (field : String × FieldType) × (key : K) × (encode (selector_parts encode build_parts c)
          ≡ ok key)
        × (plans ≡ new_query_plan equal field.0 field.1 (key ∷ []) index_type ∷ [])
  unfolding query_plans and_plan
  query_plans-one index_type count c plans h =
      elim (Result-cases (encode (selector_parts encode build_parts c))) [
        | inl (key, e) ↦ (plan_field encode build_parts c, key, e, sym (ok-injective (rw e at h)))
        | inr (x, e) ↦ let wrong : Result.err x ≡ ok plans = rw e at h in cc wrong
      ]

  -- A plan whose only key is the encoding of the document's own primary key.
  abbrev pub Covers : IndexType → List Fieldable → List (QueryPlan K) → Type 0
  Covers index_type keys plans =
      (field : String × FieldType) × (key : K) × (encode (key_parts build_parts doc keys) ≡ ok key)
      × (plans ≡ new_query_plan equal field.0 field.1 (key ∷ []) index_type ∷ [])

  -- When every key must be matched and the conditions of an AND compose, each equality among them
  -- true of a document, the plan is one, and its only key is the encoding of the document's own
  -- values of the keys, in the order of the keys.
  pub compose_strict-Covers :
      (index_type : IndexType) (sels : List (Selector V)) (keys : List Fieldable)
      (plans : List (QueryPlan K))
      → compose_strict encode build_parts true index_type sels keys and_op ≡ ok plans
      → All (EqHolds build_parts doc) sels
      → Covers index_type keys plans
  unfolding compose_strict
  compose_strict-Covers index_type sels keys plans h holds =
      let (cs, hc, h1) =
        >>=-eq-ok (composite_keys encode build_parts true and_op sels ([] ∷ []) keys)
          (query_plans encode build_parts index_type and_op (length keys)) h in
      let (chosen, e, same) = composite_keys-Chosen sels [] keys cs hc holds in
      let h2 : query_plans encode build_parts index_type and_op (length keys) (chosen ∷ [])
          ≡ ok plans =
        rw e at h1 in
      let (field, key, hk, e') = query_plans-one index_type (length keys) chosen plans h2 in
      (field, key, rw same at hk, e')

module _ {V P K : Type 0} (encode : List P → Result K) (build_parts : String → V → List P)
    (s : Selector V) (same : s.matcher ≡ eq) where
  repeated_fields_forgets :
      (match_all : Bool) (k : Fieldable) (sels : List (Selector V))
      → k.name ≢ s.name
      → repeated_fields encode build_parts match_all k (s ∷ sels)
        ≡ repeated_fields encode build_parts match_all k sels
  unfolding repeated_fields
  repeated_fields_forgets match_all k sels different =
      let other = str_eq-false k.name s.name different in
      elim (Result-cases (repeated_fields encode build_parts match_all k sels)) [
        | inl (found, e) ↦ rw (same, other, e)
        | inr (x, e) ↦ rw (same, e)
      ]

  -- The selectors before it are examined, and may fail, as they do without it.
  repeated_fields_forgets_within :
      (match_all : Bool) (k : Fieldable) (before after : List (Selector V))
      → k.name ≢ s.name
      → repeated_fields encode build_parts match_all k (before ++ s ∷ after)
        ≡ repeated_fields encode build_parts match_all k (before ++ after)
  unfolding repeated_fields
  repeated_fields_forgets_within match_all k [] after different =
      repeated_fields_forgets match_all k after different
  repeated_fields_forgets_within match_all k (r ∷ before) after different =
      let rest = λ (found : Result (List (Selector V))).
        if is_eq r.matcher
        then (found >>= λ rs. ok (if str_eq k.name r.name then r ∷ rs else rs))
        else if match_all
        then err (invalid_argument "filters only supporting $eq comparison")
        else found in
      ap rest (repeated_fields_forgets_within match_all k before after different)

  composite_keys_forgets :
      (match_all : Bool) (op : LogicalOp) (before after : List (Selector V))
      (c : List (List (Selector V))) (ks : List Fieldable)
      → All (λ k. k.name ≢ s.name) ks
      → composite_keys encode build_parts match_all op (before ++ s ∷ after) c ks
        ≡ composite_keys encode build_parts match_all op (before ++ after) c ks
  unfolding composite_keys
  composite_keys_forgets match_all op before after c [] _ = refl
  composite_keys_forgets match_all op before after c (k ∷ ks) (different, others) =
      let first = repeated_fields_forgets_within match_all k before after different in
      elim (Result-cases (repeated_fields encode build_parts match_all k (before ++ after))) [
        | inr (x, e) ↦ rw (first, e)
        | inl (found, e) ↦
            elim (Result-cases (add_fields encode build_parts match_all op c found)) [
              | inr (x, e') ↦ rw (first, e, e')
              | inl (c', e') ↦
                  rw (first, e, e') (composite_keys_forgets match_all op before after c' ks others)
            ]
      ]

  -- A condition of equality on a field that is none of the keys changes nothing, wherever it stands
  -- among the conditions, under an OR too: the plans, or the error, are those without it.
  pub compose_strict_forgets :
      (match_all : Bool) (index_type : IndexType) (op : LogicalOp)
      (before after : List (Selector V)) (keys : List Fieldable)
      → All (λ k. k.name ≢ s.name) keys
      → compose_strict encode build_parts match_all index_type (before ++ s ∷ after) keys op
        ≡ compose_strict encode build_parts match_all index_type (before ++ after) keys op
  unfolding compose_strict
  compose_strict_forgets match_all index_type op before after keys different = rw (
      composite_keys_forgets match_all op before after (if match_all then [] ∷ [] else []) keys
        different)
