-- ===== src/Metadata/Dictionary/Counter.antt =====
-- server/metadata/dictionary.go: allocateToken.
use mathlib.Core.Path.{subst}
use tigris.Base.{
  ℕ, ◌+◌, ◌%◌, ◌<◌, ◌≡◌, ◌≢◌, refl, ap, Option, none, some, List, [], ◌∷◌, Error, Result, ok, err,
  ◌>>=◌, arith, Result-cases, inl, inr, ok-injective,
}
use tigris.Kv.Data.{Timestamp, TableData, new_table_data}
use tigris.Kv.Fdb.{Key}
use tigris.Transaction.Session.{TableKey}
use tigris.Metadata.Subspace.{MetaTx, IsMetaStore, uint32_to_byte, byte_to_uint32}
use tigris.Metadata.Dictionary.{
  NameRegistry, Jsons, counter_key, next_value, allocate_token, answered, with_id,
}

pub byte_to_uint32-uint32_to_byte :
    (v : ℕ) → v < 4294967296 → byte_to_uint32 (uint32_to_byte v) ≡ ok v
unfolding byte_to_uint32 uint32_to_byte
byte_to_uint32-uint32_to_byte v h = ap ok (omega arith)

module _ (s : MetaTx) (store : IsMetaStore s) (r : NameRegistry) (json : Jsons)
    (now : Timestamp) where
  -- The identifier that is allocated next, by what is stored under the key of the counter.
  abbrev pub next_id : Option TableData → Result ℕ
  next_id none = ok r.base_counter_value
  next_id (some x) = do v ← byte_to_uint32 x.raw_data; ok ((v + 1) % 4294967296)

  next_value-next_id :
      (t : s.Tx) (rows : List (Key × TableData) × Option Error) (v : ℕ)
      → s.read (counter_key r) t ≡ ok rows
      → next_value s r json now rows ≡ ok v
      → next_id (s.stored (counter_key r) t) ≡ ok v
  unfolding next_value counter_key
  next_value-next_id t ([], none) v e h = rw (store.read-missing (counter_key r) t e) h
  next_value-next_id t ([], some x) v e h = cc
  next_value-next_id t (row ∷ rows, fail) v e h =
      rw (store.read-found (counter_key r) t row rows fail refl e) h

  pub answered-ok :
      {A : Type 0} (a b : A) (p : Option Error × s.Tx) (t' : s.Tx)
      → answered s r json now a p ≡ (ok b, t')
      → (a ≡ b) × (p ≡ (none, t'))
  answered-ok {A} a b (none, t) t' h = (
    ok-injective (ap (λ (q : Result A × s.Tx). q.0) h),
    ap (λ (q : Result A × s.Tx). (none, q.1)) h,
  )
  answered-ok {A} a b (some e, t) t' h =
      let h' : ◌≡◌ {A = Result A × s.Tx} (err e, t) (ok b, t') = h in cc h'

  pub with_id-ok :
      {A : Type 0} (p : Result ℕ × s.Tx) (next : ℕ → s.Tx → Result A × s.Tx) (a : A) (t' : s.Tx)
      → with_id s r json now p next ≡ (ok a, t')
      → (n : ℕ) × (t1 : s.Tx) × (p ≡ (ok n, t1)) × (next n t1 ≡ (ok a, t'))
  with_id-ok (ok n, t1) next a t' h = (n, t1, refl, h)
  with_id-ok {A} (err e, t1) next a t' h =
      let h' : ◌≡◌ {A = Result A × s.Tx} (err e, t1) (ok a, t') = h in cc h'

  -- An identifier that is allocated is the next one, which is then the last that the counter holds,
  -- and nothing else is written.
  abbrev pub Allocates : ℕ → s.Tx → s.Tx → Type 0
  Allocates v t t' =
      (next_id (s.stored (counter_key r) t) ≡ ok v)
      × (s.stored (counter_key r) t' ≡ some (new_table_data now (uint32_to_byte v)))
      × ((j : TableKey) → counter_key r ≢ j → s.stored j t' ≡ s.stored j t)

  replaced-Allocates :
      (v : ℕ) (t t' : s.Tx)
      → next_id (s.stored (counter_key r) t) ≡ ok v
      → s.replace (counter_key r) (new_table_data now (uint32_to_byte v)) t ≡ (none, t')
      → Allocates v t t'
  replaced-Allocates v t t' e h =
      let x = new_table_data now (uint32_to_byte v) in
      let e1 : (s.replace (counter_key r) x t).1 ≡ t' = ap (λ (q : Option Error × s.Tx). q.1) h in
      let e0 : (s.replace (counter_key r) x t).0 ≡ none = ap (λ (q : Option Error × s.Tx). q.0) h in
      (
        e,
        subst (λ u. s.stored (counter_key r) u ≡ some x) e1
            (store.stored-replace_self (counter_key r) x t e0),
        λ j ne.
            subst (λ u. s.stored j u ≡ s.stored j t) e1
              (store.stored-replace_ne (counter_key r) j x t ne),
      )

  pub allocate_token-Allocates :
      (v : ℕ) (t t' : s.Tx) → allocate_token s r json now t ≡ (ok v, t') → Allocates v t t'
  unfolding allocate_token
  allocate_token-Allocates v t t' h = elim (Result-cases (s.read (counter_key r) t)) [
    | inr (x, e) ↦
        let h' : ◌≡◌ {A = Result ℕ × s.Tx} (err x, t) (ok v, t') = rw (e, allocate_token) at h in
        cc h'
    | inl (rows, e) ↦ elim (Result-cases (next_value s r json now rows)) [
      | inr (x, e') ↦
          let h' : ◌≡◌ {A = Result ℕ × s.Tx} (err x, t) (ok v, t') =
            rw (e, allocate_token, e') at h in
          cc h'
      | inl (w, e') ↦
          let h' : answered s r json now w
                (s.replace (counter_key r) (new_table_data now (uint32_to_byte w)) t)
              ≡ (ok v, t') =
            rw (e, allocate_token, e') at h in
          let (same, written) =
            answered-ok w v (s.replace (counter_key r) (new_table_data now (uint32_to_byte w)) t) t'
              h' in
          subst (λ z. Allocates z t t') same
            (replaced-Allocates w t t' (next_value-next_id t rows w e e') written)
    ]
  ]
