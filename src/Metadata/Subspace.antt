-- ===== src/Metadata/Subspace.antt =====
-- server/metadata/metadata.go: metadataSubspace, the rows that a subspace of the metadata stores.
use tigris.Base.{
  ℕ, ◌+◌, ◌*◌, ◌/◌, ◌%◌, ◌≡◌, ◌≢◌, ◌⊎◌, String, Bool, true, false, ◌||◌, Option, none, some, List,
  [], ◌∷◌, ◌++◌, str_eq, ◌==◌, if◌then◌else◌, length, Error, Result, ok, err, internal, failed,
  panic, ◌>>=◌,
}
use tigris.Kv.Data.{Bytes, Timestamp, TableData, new_table_data_with_version}
use tigris.Kv.Fdb.{Key, Part, str}
use tigris.Transaction.Session.{TableKey}

-- A transaction, as the metadata uses it: its operations, with the rows that begin with a key and the
-- error at which they end, and what is stored under a key.
pub record MetaTx : Type 1 where
  pub Tx : Type 0
  pub stored : TableKey → Tx → Option TableData
  pub insert : TableKey → TableData → Tx → Option Error × Tx
  pub replace : TableKey → TableData → Tx → Option Error × Tx
  pub delete : TableKey → Tx → Option Error × Tx
  pub read : TableKey → Tx → Result (List (Key × TableData) × Option Error)

abbrev pub key_end : String
key_end = "created"

abbrev pub key_dropped_end : String
key_dropped_end = "dropped"

abbrev are_texts : Part → Part → Part → Bool
are_texts (str a) (str b) (str e) = str_eq e key_end
are_texts _ _ _ = false

-- The keys of entries of the dictionary, of its counter and of namespaces end so: by three texts, the
-- last one for what is created. Those of the schemas of a collection or of a search index do not, as an
-- identifier stands before, or a revision at the end.
abbrev pub is_whole : Key → Bool
is_whole (a ∷ (b ∷ (c ∷ (d ∷ rest)))) = is_whole (b ∷ (c ∷ (d ∷ rest)))
is_whole (a ∷ (b ∷ (c ∷ []))) = are_texts a b c
is_whole _ = false

-- A key begins with another, as it is read and deleted by.
abbrev pub Extends : TableKey → TableKey → Type 0
Extends k j = (k.table ≡ j.table) × ((rest : Key) × (j.index_parts ≡ k.index_parts ++ rest))

-- The laws that the metadata relies on, where a call answers no error. A delete clears what begins with
-- the key. No key of the metadata begins with another that is whole, so a read of a whole key finds its
-- row or nothing; a read of any key that finds nothing has no row.
pub record IsMetaStore (s : MetaTx) : Type 0 where
  pub insert-free :
      (k : TableKey) (x : TableData) (t : s.Tx) → (s.insert k x t).0 ≡ none → s.stored k t ≡ none
  pub stored-insert_self :
      (k : TableKey) (x : TableData) (t : s.Tx)
      → (s.insert k x t).0 ≡ none
      → s.stored k (s.insert k x t).1 ≡ some x
  pub stored-insert_ne :
      (k j : TableKey) (x : TableData) (t : s.Tx)
      → k ≢ j
      → s.stored j (s.insert k x t).1 ≡ s.stored j t
  pub stored-of_insert :
      (k j : TableKey) (x y : TableData) (t : s.Tx)
      → s.stored j (s.insert k x t).1 ≡ some y
      → ((k ≡ j) × (x ≡ y)) ⊎ (s.stored j t ≡ some y)
  pub stored-replace_self :
      (k : TableKey) (x : TableData) (t : s.Tx)
      → (s.replace k x t).0 ≡ none
      → s.stored k (s.replace k x t).1 ≡ some x
  pub stored-replace_ne :
      (k j : TableKey) (x : TableData) (t : s.Tx)
      → k ≢ j
      → s.stored j (s.replace k x t).1 ≡ s.stored j t
  pub stored-of_replace :
      (k j : TableKey) (x y : TableData) (t : s.Tx)
      → s.stored j (s.replace k x t).1 ≡ some y
      → ((k ≡ j) × (x ≡ y)) ⊎ (s.stored j t ≡ some y)
  pub stored-delete_self :
      (k : TableKey) (t : s.Tx) → (s.delete k t).0 ≡ none → s.stored k (s.delete k t).1 ≡ none
  pub stored-delete_ne :
      (k j : TableKey) (t : s.Tx) → ¬ Extends k j → s.stored j (s.delete k t).1 ≡ s.stored j t
  pub stored-of_delete :
      (k j : TableKey) (y : TableData) (t : s.Tx)
      → s.stored j (s.delete k t).1 ≡ some y
      → s.stored j t ≡ some y
  pub read-found :
      (k : TableKey) (t : s.Tx) (r : Key × TableData) (rows : List (Key × TableData))
      (fail : Option Error)
      → is_whole k.index_parts ≡ true
      → s.read k t ≡ ok (r ∷ rows, fail)
      → s.stored k t ≡ some r.1
  pub read-missing : (k : TableKey) (t : s.Tx) → s.read k t ≡ ok ([], none) → s.stored k t ≡ none

abbrev pub err_not_found : Error
err_not_found = failed "not found"

-- binary.BigEndian
unfoldable pub uint32_to_byte : ℕ → Bytes
uint32_to_byte v =
    ((v / 16777216) % 256) ∷ (((v / 65536) % 256) ∷ (((v / 256) % 256) ∷ ((v % 256) ∷ [])))

unfoldable pub byte_to_uint32 : Bytes → Result ℕ
byte_to_uint32 (a ∷ (b ∷ (c ∷ (d ∷ rest)))) = ok (a * 16777216 + b * 65536 + c * 256 + d)
byte_to_uint32 _ = err (panic "index out of range")

-- The first of the two errors.
abbrev pub on_valid {ℓ} : {A : Type ℓ} → Option Error → (Error → A) → A → A
on_valid none fail rest = rest
on_valid (some e) fail rest = fail e

module _ (s : MetaTx) where
  unfoldable pub insert_payload :
      Timestamp → Option Error → TableKey → ℕ → Bytes → s.Tx → Option Error × s.Tx
  insert_payload now invalid_args key ver payload t =
      on_valid invalid_args (λ e. (some e, t))
        (s.insert key (new_table_data_with_version now payload ver) t)

  -- `payload` is what the metadata marshals to.
  unfoldable pub insert_metadata :
      Timestamp → Option Error → TableKey → ℕ → Option Bytes → s.Tx → Option Error × s.Tx
  unfolding insert_payload
  insert_metadata now invalid_args key ver payload t =
      on_valid invalid_args (λ e. (some e, t))
        (elim payload [
          | none ↦ (some (internal "failed to marshal metadata"), t)
          | some b ↦ insert_payload now none key ver b t
        ])

  abbrev pub first_row : List (Key × TableData) × Option Error → Result TableData
  first_row ([], none) = err err_not_found
  first_row ([], some e) = err e
  first_row (r ∷ rows, fail) = ok r.1

  unfoldable pub get_payload : Option Error → TableKey → s.Tx → Result TableData
  get_payload invalid_args key t =
      on_valid invalid_args (λ e. err e) (do rows ← s.read key t; first_row rows)

  unfoldable pub update_payload :
      Timestamp → Option Error → TableKey → ℕ → Bytes → s.Tx → Option Error × s.Tx
  update_payload now invalid_args key ver payload t =
      on_valid invalid_args (λ e. (some e, t))
        (s.replace key (new_table_data_with_version now payload ver) t)

  unfoldable pub update_metadata :
      Timestamp → Option Error → TableKey → ℕ → Option Bytes → s.Tx → Option Error × s.Tx
  unfolding update_payload
  update_metadata now invalid_args key ver payload t =
      on_valid invalid_args (λ e. (some e, t))
        (elim payload [
          | none ↦ (some (internal "failed to marshal metadata"), t)
          | some b ↦ update_payload now none key ver b t
        ])

  unfoldable pub delete_metadata : Option Error → TableKey → s.Tx → Option Error × s.Tx
  delete_metadata invalid_args key t = on_valid invalid_args (λ e. (some e, t)) (s.delete key t)

  abbrev pub replaced_after : TableKey → TableData → Option Error × s.Tx → Option Error × s.Tx
  replaced_after to_key x (none, t) = s.replace to_key x t
  replaced_after to_key x (some e, t) = (some e, t)

  -- Where nothing is stored, the error at the end of the rows is answered, or none.
  abbrev pub moved :
      TableKey
      → TableKey
      → s.Tx
      → Result (List (Key × TableData) × Option Error)
      → Option Error × s.Tx
  moved from_key to_key t (err e) = (some e, t)
  moved from_key to_key t (ok ([], fail)) = (fail, t)
  moved from_key to_key t (ok (r ∷ rows, fail)) = replaced_after to_key r.1 (s.delete from_key t)

  unfoldable pub soft_delete_metadata :
      Option Error → TableKey → TableKey → s.Tx → Option Error × s.Tx
  soft_delete_metadata invalid_args from_key to_key t =
      on_valid invalid_args (λ e. (some e, t)) (moved from_key to_key t (s.read from_key t))

  -- The last two parts of a key: a name, and whether it is dropped.
  unfoldable pub name_and_end : Key → Result (String × Bool)
  name_and_end (str name ∷ (str end ∷ [])) =
      if str_eq end key_end
      then ok (name, false)
      else if str_eq end key_dropped_end
      then ok (name, true)
      else err (internal "key trailer is missing")
  name_and_end (part ∷ (str end ∷ [])) =
      if str_eq end key_end || str_eq end key_dropped_end
      then err (internal "name not found")
      else err (internal "key trailer is missing")
  name_and_end (part ∷ (end ∷ [])) = err (internal "key trailer is missing")
  name_and_end (part ∷ (next ∷ (third ∷ rest))) = name_and_end (next ∷ (third ∷ rest))
  name_and_end _ = err (panic "index out of range")

  unfoldable pub list_rows :
      {A : Type 0}
      → ℕ
      → (Bool → String → TableData → A → Result A)
      → List (Key × TableData)
      → Option Error
      → A
      → Result A
  unfolding name_and_end
  list_rows key_len fn [] none a = ok a
  list_rows key_len fn [] (some e) a = err e
  list_rows key_len fn ((key, x) ∷ rows) fail a =
      if length key == key_len
      then (do
        named ← name_and_end key
        a' ← fn named.1 named.0 x a
        list_rows key_len fn rows fail a')
      else err (internal "not a valid key")

  unfoldable pub list_metadata :
      {A : Type 0} → TableKey → ℕ → (Bool → String → TableData → A → Result A) → A → s.Tx → Result A
  unfolding list_rows
  list_metadata key key_len fn a t = do rows ← s.read key t; list_rows key_len fn rows.0 rows.1 a
