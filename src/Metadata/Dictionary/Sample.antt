-- ===== src/Metadata/Dictionary/Sample.antt =====
-- A transaction that is a map of keys, for the tests of the dictionary.
use mathlib.Core.List.{append-nil}
use tigris.Base.{
  ◌++◌, ◌∙◌, sym, ◌≡◌, ◌≢◌, refl, ap, ◌⊎◌, inl, inr, Option, none, some, List, [], ◌∷◌, Error,
  Result, ok, failed, arith, str_eq, eq_iff, ◌==◌, ◌&&◌, Bool, true, false, Bool-cases,
  if◌then◌else◌, some-injective,
}
use tigris.Kv.Data.{Timestamp, Bytes, Bytes, TableData}
use tigris.Kv.Fdb.{Key, Part, str, int, bytes}
use tigris.Transaction.Session.{TableKey}
use tigris.Metadata.Subspace.{MetaTx, IsMetaStore, is_whole, Extends}
use tigris.Metadata.Entries.{DatabaseMetadata, Json}
use tigris.Metadata.Dictionary.{NameRegistry, Jsons}

abbrev same_bytes : Bytes → Bytes → Bool
same_bytes [] [] = true
same_bytes (a ∷ p) (b ∷ q) = (a == b) && same_bytes p q
same_bytes _ _ = false

abbrev same_part : Part → Part → Bool
same_part (str a) (str b) = str_eq a b
same_part (int a) (int b) = a == b
same_part (bytes a) (bytes b) = same_bytes a b
same_part _ _ = false

abbrev same_parts : Key → Key → Bool
same_parts [] [] = true
same_parts (a ∷ p) (b ∷ q) = same_part a b && same_parts p q
same_parts _ _ = false

abbrev pub same_key : TableKey → TableKey → Bool
same_key a b = same_bytes a.table b.table && same_parts a.index_parts b.index_parts

abbrev pub Map : Type 0
Map = TableKey → Option TableData

unfoldable pub put : TableKey → Option TableData → Map → Map
put k o t j = if same_key k j then o else t j

abbrev pub rows_of : Key → Option TableData → List (Key × TableData)
rows_of k none = []
rows_of k (some x) = (k, x) ∷ []

abbrev pub inserted : TableKey → TableData → Map → Option TableData → Option Error × Map
inserted k x t none = (none, put k (some x) t)
inserted k x t (some y) = (some (failed "duplicate key value, violates key constraint"), t)

-- `more` is what else is read by a key.
abbrev pub with_rows : (Key → Map → List (Key × TableData)) → MetaTx
with_rows more = record {
  Tx = Map;
  stored = λ k t. t k;
  insert = λ k x t. inserted k x t (t k);
  replace = λ k x t. (none, put k (some x) t);
  delete = λ k t. (none, put k none t);
  read = λ k t. ok (rows_of k.index_parts (t k) ++ more k.index_parts t, none);
}

abbrev pub maps : MetaTx
maps = with_rows (λ k t. [])

same_bytes_refl : (a : Bytes) → same_bytes a a ≡ true
same_bytes_refl [] = refl
same_bytes_refl (a ∷ p) = rw (same_bytes_refl p) (ground arith)

same_part_refl : (a : Part) → same_part a a ≡ true
same_part_refl (str a) = (eq_iff a a).1 refl
same_part_refl (int a) = ground arith
same_part_refl (bytes a) = same_bytes_refl a

same_parts_refl : (a : Key) → same_parts a a ≡ true
same_parts_refl [] = refl
same_parts_refl (a ∷ p) = rw (same_part_refl a) (same_parts_refl p)

and-both : (a b : Bool) → a && b ≡ true → (a ≡ true) × (b ≡ true)
and-both true b h = (refl, h)
and-both false b h = cc

same_bytes-eq : (a b : Bytes) → same_bytes a b ≡ true → a ≡ b
same_bytes-eq [] [] h = refl
same_bytes-eq [] (b ∷ q) h = cc
same_bytes-eq (a ∷ p) [] h = cc
same_bytes-eq (a ∷ p) (b ∷ q) h =
    let (x, y) = and-both (a == b) (same_bytes p q) h in
    let e : a ≡ b = ground arith in let e' = same_bytes-eq p q y in cc

same_part-eq : (a b : Part) → same_part a b ≡ true → a ≡ b
same_part-eq (str a) (str b) h = ap str ((eq_iff a b).0 h)
same_part-eq (int a) (int b) h = ap int (ground arith)
same_part-eq (bytes a) (bytes b) h = ap bytes (same_bytes-eq a b h)
same_part-eq (str a) (int b) h = cc
same_part-eq (str a) (bytes b) h = cc
same_part-eq (int a) (str b) h = cc
same_part-eq (int a) (bytes b) h = cc
same_part-eq (bytes a) (int b) h = cc
same_part-eq (bytes a) (str b) h = cc

same_parts-eq : (a b : Key) → same_parts a b ≡ true → a ≡ b
same_parts-eq [] [] h = refl
same_parts-eq [] (b ∷ q) h = cc
same_parts-eq (a ∷ p) [] h = cc
same_parts-eq (a ∷ p) (b ∷ q) h =
    let (x, y) = and-both (same_part a b) (same_parts p q) h in
    let e = same_part-eq a b x in let e' = same_parts-eq p q y in cc

same_key_refl : (a : TableKey) → same_key a a ≡ true
same_key_refl a = rw (same_bytes_refl a.table) (same_parts_refl a.index_parts)

same_key-eq : (a b : TableKey) → same_key a b ≡ true → a ≡ b
same_key-eq a b h =
    let (x, y) = and-both (same_bytes a.table b.table) (same_parts a.index_parts b.index_parts) h in
    let e = same_bytes-eq a.table b.table x in
    let e' = same_parts-eq a.index_parts b.index_parts y in cc

put_self : (k : TableKey) (o : Option TableData) (t : Map) → put k o t k ≡ o
unfolding put
put_self k o t = rw (same_key_refl k) refl

put_ne : (k j : TableKey) (o : Option TableData) (t : Map) → k ≢ j → put k o t j ≡ t j
unfolding put
put_ne k j o t differ = elim (Bool-cases (same_key k j)) [
  | inl same ↦ absurd (differ (same_key-eq k j same))
  | inr other ↦ rw other refl
]

of_put :
    (k j : TableKey) (o : Option TableData) (y : TableData) (t : Map)
    → put k o t j ≡ some y
    → ((k ≡ j) × (o ≡ some y)) ⊎ (t j ≡ some y)
unfolding put
of_put k j o y t h = elim (Bool-cases (same_key k j)) [
  | inl same ↦ inl (same_key-eq k j same, (rw same at h))
  | inr other ↦ inr (rw other at h)
]

of_put-some :
    (k j : TableKey) (x y : TableData) (t : Map)
    → put k (some x) t j ≡ some y
    → ((k ≡ j) × (x ≡ y)) ⊎ (t j ≡ some y)
of_put-some k j x y t h = elim (of_put k j (some x) y t h) [
  | inl (e, e') ↦ inl (e, some-injective e')
  | inr e ↦ inr e
]

of_put-none : (k j : TableKey) (y : TableData) (t : Map) → put k none t j ≡ some y → t j ≡ some y
of_put-none k j y t h = elim (of_put k j none y t h) [ inl (e, e') ↦ cc e' | inr e ↦ e ]

insert_free :
    (k : TableKey) (x : TableData) (t : Map) (o : Option TableData)
    → (inserted k x t o).0 ≡ none
    → o ≡ none
insert_free k x t none h = refl
insert_free k x t (some y) h = cc

insert_self :
    (k : TableKey) (x : TableData) (t : Map) (o : Option TableData)
    → (inserted k x t o).0 ≡ none
    → (inserted k x t o).1 k ≡ some x
insert_self k x t none h = put_self k (some x) t
insert_self k x t (some y) h = cc

insert_ne :
    (k j : TableKey) (x : TableData) (t : Map) (o : Option TableData)
    → k ≢ j
    → (inserted k x t o).1 j ≡ t j
insert_ne k j x t none differ = put_ne k j (some x) t differ
insert_ne k j x t (some y) differ = refl

of_insert :
    (k j : TableKey) (x y : TableData) (t : Map) (o : Option TableData)
    → (inserted k x t o).1 j ≡ some y
    → ((k ≡ j) × (x ≡ y)) ⊎ (t j ≡ some y)
of_insert k j x y t none h = of_put-some k j x y t h
of_insert k j x y t (some z) h = inr h

abbrev Read : Type 0
Read = Result (List (Key × TableData) × Option Error)

found :
    (k : Key) (o : Option TableData) (more : List (Key × TableData)) (r : Key × TableData)
    (rows : List (Key × TableData)) (fail : Option Error)
    → more ≡ []
    → ◌≡◌ {A = Read} (ok (rows_of k o ++ more, none)) (ok (r ∷ rows, fail))
    → o ≡ some r.1
found k none more r rows fail nothing h =
    let h' : ◌≡◌ {A = Read} (ok ([], none)) (ok (r ∷ rows, fail)) = rw nothing at h in cc h'
found k (some x) more r rows fail nothing h = cc h

missing :
    (k : Key) (o : Option TableData) (more : List (Key × TableData))
    → ◌≡◌ {A = Read} (ok (rows_of k o ++ more, none)) (ok ([], none))
    → o ≡ none
missing k none more h = refl
missing k (some x) more h = cc h

not_same : (k j : TableKey) → ¬ Extends k j → k ≢ j
not_same k j apart same = apart (
  ap (λ (i : TableKey). i.table) same,
  ([], ap (λ (i : TableKey). i.index_parts) (sym same) ∙ sym (append-nil k.index_parts)),
)

pub store_with :
    (more : Key → Map → List (Key × TableData))
    → ((k : Key) (t : Map) → is_whole k ≡ true → more k t ≡ [])
    → IsMetaStore (with_rows more)
store_with more nothing = record {
  insert-free = λ k x t h. insert_free k x t (t k) h;
  stored-insert_self = λ k x t h. insert_self k x t (t k) h;
  stored-insert_ne = λ k j x t d. insert_ne k j x t (t k) d;
  stored-of_insert = λ k j x y t h. of_insert k j x y t (t k) h;
  stored-replace_self = λ k x t h. put_self k (some x) t;
  stored-replace_ne = λ k j x t d. put_ne k j (some x) t d;
  stored-of_replace = of_put-some;
  stored-delete_self = λ k t h. put_self k none t;
  stored-delete_ne = λ k j t d. put_ne k j none t (not_same k j d);
  stored-of_delete = of_put-none;
  read-found = λ k t r rows fail whole h.
      found k.index_parts (t k) (more k.index_parts t) r rows fail (nothing k.index_parts t whole)
        h;
  read-missing = λ k t h. missing k.index_parts (t k) (more k.index_parts t) h;
}

pub store : IsMetaStore maps
store = store_with (λ k t. []) (λ k t whole. refl)

-- A database is written as its three numbers, the others as their identifier.
abbrev pub read_database : Bytes → Option DatabaseMetadata
read_database (a ∷ (b ∷ (c ∷ []))) =
    some (record { id = a; schema_version = b; min_schema_version = c })
read_database _ = none

abbrev pub database_json : Json DatabaseMetadata
database_json = record {
  marshal = λ m. some (m.id ∷ (m.schema_version ∷ (m.min_schema_version ∷ [])));
  unmarshal = read_database;
}

abbrev pub jsons : Jsons
jsons = record {
  database = database_json;
  collection = record { marshal = λ m. some (m.id ∷ []); unmarshal = λ b. none };
  primary_index = record { marshal = λ m. some (m.id ∷ []); unmarshal = λ b. none };
}

abbrev pub registry : NameRegistry
registry = record {
  reserved = 1 ∷ [];
  encoding = 2 ∷ [];
  encoding_name = "encoding";
  base_counter_value = 1;
}

abbrev pub clock : Timestamp
clock = record { seconds = 0; nanoseconds = 0 }

abbrev pub empty_map : Map
empty_map k = none
