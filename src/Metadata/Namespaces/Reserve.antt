-- ===== src/Metadata/Namespaces/Reserve.antt =====
-- server/metadata/dictionary.go: an identifier is reserved for one namespace.
use mathlib.Core.Path.{subst}
use tigris.Base.{
  ℕ, ◌≡◌, ◌≢◌, refl, sym, ◌∙◌, ap, Bool, true, false, ◌&&◌, String, Option, none, some, List, [],
  ◌∷◌, str_eq, ◌==◌, All, Bool-cases, Option-cases, inl, inr, Error, Result, ok, failed,
  already_exists, invalid_argument, >>=-eq-ok, ok-injective, ◌>>=◌,
}
use tigris.Kv.Data.{Bytes, Timestamp, TableData, new_table_data_with_version}
use tigris.Kv.Fdb.{Key}
use tigris.Metadata.Subspace.{MetaTx, IsMetaStore}
use tigris.Metadata.Entries.{Json, find_name}
use tigris.Metadata.Dictionary.{NameRegistry}
use tigris.Metadata.Namespaces.{
  NamespaceMetadata, Namespaces, has_id, any_id, add_namespace, decode_namespace, namespaces_key,
  namespace_key, reload_rows, reload, reserved, inserted, reserve_namespace,
}
use tigris.Metadata.Namespaces.Maps.{
  has_id-set_id_self, has_id-set_id, find_name-set_name_self, find_name-set_name_ne,
  any_id-find_name,
}

-- The namespaces have different names.
abbrev pub Distinct : List NamespaceMetadata → Type 0
Distinct [] = Unit
Distinct (m ∷ ms) = All (λ n. n.str_id ≢ m.str_id) ms × Distinct ms

abbrev add_all : List NamespaceMetadata → Namespaces → Namespaces
add_all [] ns = ns
add_all (m ∷ ms) ns = add_all ms (add_namespace m ns)

add_all-has_id :
    (i : ℕ) (ms : List NamespaceMetadata) (ns : Namespaces)
    → has_id i ns.by_id ≡ true
    → has_id i (add_all ms ns).by_id ≡ true
unfolding add_namespace
add_all-has_id i [] ns h = h
add_all-has_id i (m ∷ ms) ns h =
    add_all-has_id i ms (add_namespace m ns) (has_id-set_id i m.id m ns.by_id h)

add_all-find_name :
    (m : NamespaceMetadata) (ms : List NamespaceMetadata) (ns : Namespaces)
    → All (λ n. n.str_id ≢ m.str_id) ms
    → find_name m.str_id ns.by_str_id ≡ some m
    → find_name m.str_id (add_all ms ns).by_str_id ≡ some m
unfolding add_namespace
add_all-find_name m [] ns apart h = h
add_all-find_name m (n ∷ ms) ns (differ, apart) h =
    add_all-find_name m ms (add_namespace n ns) apart
      (find_name-set_name_ne m.str_id n.str_id n ns.by_str_id (λ q. differ (sym q)) ∙ h)

-- After a reload, the identifiers of all the namespaces are assigned.
add_all-Assigned :
    (ms : List NamespaceMetadata) (ns : Namespaces)
    → Distinct ms
    → All
        (λ m.
          (has_id m.id (add_all ms ns).by_id ≡ true)
          × (any_id m.id (add_all ms ns).by_str_id ≡ true))
        ms
unfolding add_namespace
add_all-Assigned [] ns distinct = tt
add_all-Assigned (m ∷ ms) ns (apart, distinct) =
    let ns' = add_namespace m ns in
    (
      (
        add_all-has_id m.id ms ns' (has_id-set_id_self m ns.by_id),
        any_id-find_name m.str_id m (add_all ms ns').by_str_id
            (add_all-find_name m ms ns' apart (find_name-set_name_self m.str_id m ns.by_str_id)),
      ),
      add_all-Assigned ms ns' distinct,
    )

not_assigned :
    (i : ℕ) (ns : Namespaces) (ms : List NamespaceMetadata)
    → has_id i ns.by_id && any_id i ns.by_str_id ≡ false
    → All (λ m. (has_id m.id ns.by_id ≡ true) × (any_id m.id ns.by_str_id ≡ true)) ms
    → All (λ m. m.id ≢ i) ms
not_assigned i ns [] h all = tt
not_assigned i ns (m ∷ ms) h ((known, named), all) = (
  λ same.
      let known' = subst (λ k. has_id k ns.by_id ≡ true) same known in
      let named' = subst (λ k. any_id k ns.by_str_id ≡ true) same named in
      let h' : ◌≡◌ {A = Bool} true false = rw (known', named') at h in true_false h',
  not_assigned i ns ms h all,
)
  where
    true_false : ◌≡◌ {A = Bool} true false → ⊥
    true_false e = cc

module _ (s : MetaTx) (store : IsMetaStore s) (r : NameRegistry) (json : Json NamespaceMetadata)
    (now : Timestamp) where
  abbrev pub decode_all : List (Key × TableData) → Result (List NamespaceMetadata)
  decode_all [] = ok []
  decode_all ((key, x) ∷ rows) = do
    m ← decode_namespace json key x
    ms ← decode_all rows
    ok (m ∷ ms)

  abbrev Out' : Type 0
  Out' = Option Error × Namespaces × s.Tx

  reserved-fresh :
      (namespace_id : String) (m : NamespaceMetadata) (ns ns' : Namespaces) (t t' : s.Tx)
      (ms : List NamespaceMetadata)
      → All (λ n. (has_id n.id ns.by_id ≡ true) × (any_id n.id ns.by_str_id ≡ true)) ms
      → reserved s r json now namespace_id m t (none, ns) ≡ (none, ns', t')
      → All (λ n. n.id ≢ m.id) ms
        × (s.stored (namespace_key s r json now namespace_id) t ≡ none)
        × ((b : Bytes) × (json.marshal m ≡ some b)
            × (s.stored (namespace_key s r json now namespace_id) t'
                ≡ some (new_table_data_with_version now b 1)))
  reserved-fresh namespace_id m ns ns' t t' ms assigned h =
      elim (Bool-cases (has_id m.id ns.by_id && any_id m.id ns.by_str_id)) [
        | inl e ↦
            let h' : ◌≡◌ {A = Out'}
                (some (already_exists "id is already assigned to the namespace"), ns, t)
                (none, ns', t') =
              rw e at h in
            cc h'
        | inr e ↦ elim (Option-cases (json.marshal m)) [
          | inl e' ↦
              let h' : ◌≡◌ {A = Out'} (some (failed "json"), ns, t) (none, ns', t') =
                rw (e, e') at h in
              cc h'
          | inr (b, e') ↦
              let k = namespace_key s r json now namespace_id in
              let x = new_table_data_with_version now b 1 in
              let h' : inserted s r json now ns (s.insert k x t) ≡ (none, ns', t') =
                rw (e, e') at h in
              let fine : (s.insert k x t).0 ≡ none = ap (λ (q : Out'). q.0) h' in
              (
                not_assigned m.id ns ms e assigned,
                store.insert-free k x t fine,
                (
                  b,
                  e',
                  subst (λ u. s.stored k u ≡ some x) (ap (λ (q : Out'). q.2) h')
                      (store.stored-insert_self k x t fine),
                ),
              )
        ]
      ]

  reload_rows_step :
      (key : Key) (x : TableData) (rows : List (Key × TableData)) (m : NamespaceMetadata)
      (ns : Namespaces) (out : Option Error × Namespaces)
      → decode_namespace json key x ≡ ok m
      → reload_rows s r json now rows none (add_namespace m ns) ≡ out
      → reload_rows s r json now ((key, x) ∷ rows) none ns ≡ out
  unfolding reload_rows
  reload_rows_step key x rows m ns out decoded h = rw (decoded, reload_rows) h

  reload_rows-add_all :
      (rows : List (Key × TableData)) (ms : List NamespaceMetadata) (ns : Namespaces)
      → decode_all rows ≡ ok ms
      → reload_rows s r json now rows none ns ≡ (none, add_all ms ns)
  unfolding reload_rows
  reload_rows-add_all [] ms ns h = let e : [] ≡ ms = ok-injective h in rw (← e) refl
  reload_rows-add_all ((key, x) ∷ rows) ms ns h =
      let (m, decoded, h1) =
        >>=-eq-ok (decode_namespace json key x) (λ m. do ms ← decode_all rows; ok (m ∷ ms)) h in
      let (rest, h2, h3) = >>=-eq-ok (decode_all rows) (λ ms. ok (m ∷ ms)) h1 in
      let e : m ∷ rest ≡ ms = ok-injective h3 in
      subst (λ l. reload_rows s r json now ((key, x) ∷ rows) none ns ≡ (none, add_all l ns)) e
        (reload_rows_step key x rows m ns (none, add_all (m ∷ rest) ns) decoded
          (reload_rows-add_all rows rest (add_namespace m ns) h2))

  -- A reservation that answers no error, where the rows of the namespaces are read and have different
  -- names, is of an identifier that none of those namespaces has, whatever the maps held before; the
  -- metadata is then stored under the key of the name, which had no row.
  pub reserve_namespace-fresh :
      (namespace_id : String) (m : NamespaceMetadata) (ns ns' : Namespaces) (t t' : s.Tx)
      (rows : List (Key × TableData)) (ms : List NamespaceMetadata)
      → s.read (namespaces_key s r json now) t ≡ ok (rows, none)
      → decode_all rows ≡ ok ms
      → Distinct ms
      → reserve_namespace s r json now namespace_id m ns t ≡ (none, ns', t')
      → All (λ n. n.id ≢ m.id) ms
        × (s.stored (namespace_key s r json now namespace_id) t ≡ none)
        × ((b : Bytes) × (json.marshal m ≡ some b)
            × (s.stored (namespace_key s r json now namespace_id) t'
                ≡ some (new_table_data_with_version now b 1)))
  unfolding reserve_namespace reload
  reserve_namespace-fresh namespace_id m ns ns' t t' rows ms read decoded distinct h =
      elim (Bool-cases (str_eq namespace_id "")) [
        | inl e ↦
            let h' : ◌≡◌ {A = Out'} (some (invalid_argument "namespaceId is empty"), ns, t)
                (none, ns', t') =
              rw e at h in
            cc h'
        | inr e ↦ elim (Bool-cases (m.id == 0)) [
          | inl e' ↦
              let h' : ◌≡◌ {A = Out'} (some (invalid_argument "id should be greater than 0"), ns, t)
                  (none, ns', t') =
                rw (e, e') at h in
              cc h'
          | inr e' ↦
              let loaded : reload s r json now t ns ≡ (none, add_all ms ns) =
                rw (read, reload) (reload_rows-add_all rows ms ns decoded) in
              reserved-fresh namespace_id m (add_all ms ns) ns' t t' ms
                (add_all-Assigned ms ns distinct) (rw (e, e', loaded) at h)
        ]
      ]
