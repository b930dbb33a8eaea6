-- ===== src/Metadata/Namespaces.antt =====
-- server/metadata/dictionary.go: reservedSubspace, the namespaces and their identifiers.
pub mod Maps
pub mod Reserve
pub mod Tests
use tigris.Base.{
  ℕ, Bool, true, false, ◌&&◌, ◌||◌, not, String, Option, none, some, List, [], ◌∷◌, str_eq, ltb,
  ◌==◌, length, if◌then◌else◌, Error, Result, ok, err, failed, internal, not_found, already_exists,
  invalid_argument,
}
use tigris.Kv.Data.{Bytes, Timestamp, TableData, new_table_data_with_version}
use tigris.Kv.Fdb.{Key, str}
use tigris.Transaction.Session.{TableKey}
use tigris.Metadata.Subspace.{MetaTx, key_end, byte_to_uint32}
use tigris.Metadata.Entries.{Json, set_name}
use tigris.Metadata.Dictionary.{NameRegistry}

-- The accounts by their text.
pub record NamespaceMetadata : Type 0 where
  pub id : ℕ
  pub str_id : String
  pub name : String
  pub accounts : Bytes

-- The two maps that the server keeps.
pub record Namespaces : Type 0 where
  pub by_id : List (ℕ × NamespaceMetadata)
  pub by_str_id : List (String × NamespaceMetadata)

unfoldable pub set_id :
    ℕ → NamespaceMetadata → List (ℕ × NamespaceMetadata) → List (ℕ × NamespaceMetadata)
set_id k m [] = (k, m) ∷ []
set_id k m ((j, n) ∷ rest) =
    let others = set_id k m rest in if k == j then (k, m) ∷ rest else (j, n) ∷ others

unfoldable pub has_id : ℕ → List (ℕ × NamespaceMetadata) → Bool
has_id k [] = false
has_id k ((j, n) ∷ rest) = (k == j) || has_id k rest

-- A namespace of the identifier.
unfoldable pub any_id : ℕ → List (String × NamespaceMetadata) → Bool
any_id k [] = false
any_id k ((s, n) ∷ rest) = (n.id == k) || any_id k rest

unfoldable pub add_namespace : NamespaceMetadata → Namespaces → Namespaces
unfolding set_id set_name
add_namespace m ns = record {
  by_id = set_id m.id m ns.by_id;
  by_str_id = set_name m.str_id m ns.by_str_id;
}

abbrev second_last : Key → Result String
second_last (str s ∷ (b ∷ [])) = ok s
second_last (a ∷ (b ∷ (c ∷ rest))) = second_last (b ∷ (c ∷ rest))
second_last _ = err (internal "unable to deduce the encoded key from fdb key")

unfoldable pub allocated_to : Key → Result String
allocated_to key = if ltb (length key) 3 then err (internal "not a valid key") else second_last key

abbrev unmarshalled : Option NamespaceMetadata → Result NamespaceMetadata
unmarshalled none = err (internal "unable to read the namespace for the namespaceKey")
unmarshalled (some m) = ok m

-- A legacy row is the four bytes of the identifier.
abbrev legacy : String → Result ℕ → Result NamespaceMetadata
legacy name (err e) = err e
legacy name (ok id) = ok (record { id = id; str_id = name; name = name; accounts = [] })

abbrev no_metadata : NamespaceMetadata
no_metadata = record { id = 0; str_id = ""; name = ""; accounts = [] }

unfoldable pub decode_namespace :
    Json NamespaceMetadata → Key → TableData → Result NamespaceMetadata
unfolding allocated_to byte_to_uint32
decode_namespace json key x = elim (allocated_to key) [
  | err e ↦ err e
  | ok name ↦
      if (x.encoding == 1) || not (x.ver == 0)
      then unmarshalled (json.unmarshal x.raw_data)
      else if x.encoding == 0
      then legacy name (byte_to_uint32 x.raw_data)
      else ok no_metadata
]

module _ (s : MetaTx) (r : NameRegistry) (json : Json NamespaceMetadata) (now : Timestamp) where
  unfoldable pub namespaces_key : TableKey
  namespaces_key = record { table = r.reserved; index_parts = str "namespace" ∷ [] }

  unfoldable pub namespace_key : String → TableKey
  namespace_key namespace_id = record {
    table = r.reserved;
    index_parts = str "namespace" ∷ (str namespace_id ∷ (str key_end ∷ []));
  }

  -- What the rows give is added to what the maps have.
  unfoldable pub reload_rows :
      List (Key × TableData) → Option Error → Namespaces → Option Error × Namespaces
  unfolding decode_namespace add_namespace
  reload_rows [] fail ns = (fail, ns)
  reload_rows ((key, x) ∷ rows) fail ns = elim (decode_namespace json key x) [
    | err e ↦ (some e, ns)
    | ok m ↦ reload_rows rows fail (add_namespace m ns)
  ]

  unfoldable pub reload : s.Tx → Namespaces → Option Error × Namespaces
  unfolding reload_rows namespaces_key
  reload t ns = elim (s.read namespaces_key t) [
    | err e ↦ (some e, ns)
    | ok rows ↦ reload_rows rows.0 rows.1 ns
  ]

  unfoldable pub un_reserve_namespace : String → s.Tx → Option Error × s.Tx
  unfolding namespace_key
  un_reserve_namespace namespace_id t =
      if str_eq namespace_id ""
      then (some (invalid_argument "namespaceId is empty"), t)
      else s.delete (namespace_key namespace_id) t

  abbrev Out : Type 0
  Out = Option Error × Namespaces × s.Tx

  abbrev pub inserted : Namespaces → Option Error × s.Tx → Out
  inserted ns (e, t) = (e, ns, t)

  abbrev pub reserved : String → NamespaceMetadata → s.Tx → Option Error × Namespaces → Out
  reserved namespace_id m t (some e, ns) = (some e, ns, t)
  reserved namespace_id m t (none, ns) =
      if has_id m.id ns.by_id && any_id m.id ns.by_str_id
      then (some (already_exists "id is already assigned to the namespace"), ns, t)
      else (elim (json.marshal m) [
        | none ↦ (some (failed "json"), ns, t)
        | some b ↦
            inserted ns
              (s.insert (namespace_key namespace_id) (new_table_data_with_version now b 1) t)
      ])

  unfoldable pub reserve_namespace : String → NamespaceMetadata → Namespaces → s.Tx → Out
  unfolding reload has_id any_id namespace_key
  reserve_namespace namespace_id m ns t =
      if str_eq namespace_id ""
      then (some (invalid_argument "namespaceId is empty"), ns, t)
      else if m.id == 0
      then (some (invalid_argument "id should be greater than 0"), ns, t)
      else reserved namespace_id m t (reload t ns)

  abbrev reloaded : Namespaces → Option Error × s.Tx → Out
  reloaded ns (e, t) = let (e', ns') = reload t ns in (e', ns', t)

  abbrev updated : NamespaceMetadata → s.Tx → Option Error × Namespaces → Out
  updated m t (some e, ns) = (some e, ns, t)
  updated m t (none, ns) =
      if has_id m.id ns.by_id
      then (elim (json.marshal m) [
        | none ↦ (some (failed "json"), ns, t)
        | some b ↦
            reloaded ns (s.replace (namespace_key m.str_id) (new_table_data_with_version now b 1) t)
      ])
      else (some (not_found "no namespace exists for id"), ns, t)

  -- The error of Replace is dropped.
  unfoldable pub update_namespace : NamespaceMetadata → Namespaces → s.Tx → Out
  unfolding reload has_id namespace_key
  update_namespace m ns t =
      if str_eq m.str_id ""
      then (some (invalid_argument "namespaceId is empty"), ns, t)
      else if m.id == 0
      then (some (invalid_argument "id should be greater than 0"), ns, t)
      else updated m t (reload t ns)
