-- ===== src/Metadata/Namespaces/Tests.antt =====
-- The reservation of a namespace at a transaction that is a map of keys.
use mathlib.Core.Bool.{true≢false}
use tigris.Base.{
  Bool-cases, inl, inr, sym, ◌∙◌, ◌≡◌, ◌≢◌, refl, Option, none, some, [], ◌∷◌, All, str_eq, List,
  Bool, true, false, if◌then◌else◌,
}
use tigris.Kv.Data.{Bytes, TableData, new_table_data, new_table_data_with_version}
use tigris.Kv.Fdb.{Key, str}
use tigris.Transaction.Session.{TableKey}
use tigris.Metadata.Subspace.{MetaTx, IsMetaStore, is_whole}
use tigris.Metadata.Entries.{Json}
use tigris.Metadata.Dictionary.Sample.{
  Map, put, rows_of, maps, with_rows, store_with, registry, clock, empty_map,
}
use tigris.Metadata.Namespaces.{NamespaceMetadata, Namespaces, namespace_key, reserve_namespace}
use tigris.Metadata.Namespaces.Reserve.{reserve_namespace-fresh}

abbrev json : Json NamespaceMetadata
json = record { marshal = λ m. some (m.id ∷ []); unmarshal = λ b. none }

abbrev tenant : NamespaceMetadata
tenant = record { id = 2; str_id = "tenant"; name = "Tenant"; accounts = [] }

abbrev no_namespaces : Namespaces
no_namespaces = record { by_id = []; by_str_id = [] }

abbrev main_key : TableKey
main_key = namespace_key maps registry json clock "main"

abbrev is_all : Key → Bool
is_all (str e ∷ []) = str_eq e "namespace"
is_all _ = false

-- The key of all namespaces reads that of the namespace "main".
abbrev others : Key → Map → List (Key × TableData)
others k t = if is_all k then rows_of main_key.index_parts (t main_key) else []

abbrev spaces : MetaTx
spaces = with_rows others

not_whole : (k : Key) → is_all k ≡ true → is_whole k ≡ false
not_whole (str e ∷ []) h = refl
not_whole k h = cc

none_whole : (k : Key) (t : Map) → is_whole k ≡ true → others k t ≡ []
none_whole k t whole = elim (Bool-cases (is_all k)) [
  | inl e ↦ absurd (true≢false (sym whole ∙ not_whole k e))
  | inr e ↦ rw e refl
]

spaces-IsMetaStore : IsMetaStore spaces
spaces-IsMetaStore = store_with others none_whole

abbrev main : NamespaceMetadata
main = record { id = 1; str_id = "main"; name = "main"; accounts = [] }

-- A legacy row.
abbrev main_row : TableData
main_row = new_table_data clock (0 ∷ (0 ∷ (0 ∷ (1 ∷ []))))

with_main : Map
with_main = put main_key (some main_row) empty_map

abbrev loaded : Namespaces
loaded = record { by_id = (1, main) ∷ []; by_str_id = ("main", main) ∷ [] }

reserved_map : Map
reserved_map =
    (reserve_namespace spaces registry json clock "tenant" tenant no_namespaces with_main).2

reserve_namespace-fresh_example :
    All (λ (n : NamespaceMetadata). n.id ≢ 2) (main ∷ [])
    × (with_main (namespace_key spaces registry json clock "tenant") ≡ none)
    × ((b : Bytes) × (◌≡◌ {A = Option Bytes} (some (2 ∷ [])) (some b))
        × (reserved_map (namespace_key spaces registry json clock "tenant")
            ≡ some (new_table_data_with_version clock b 1)))
unfolding reserve_namespace reserved_map with_main put new_table_data
reserve_namespace-fresh_example =
    reserve_namespace-fresh spaces spaces-IsMetaStore registry json clock "tenant" tenant
      no_namespaces loaded with_main reserved_map ((main_key.index_parts, main_row) ∷ [])
      (main ∷ []) refl refl (tt, tt) refl
