-- ===== src/Metadata/Dictionary/Whole.antt =====
-- server/metadata: the key of an entry whose arguments are valid is the key of one entry.
use tigris.Base.{ℕ, ◌≡◌, refl, String, true, none, Bool-cases, inl, inr, str_eq, ◌==◌, ◌||◌}
use tigris.Kv.Data.{Bytes}
use tigris.Metadata.Subspace.{is_whole}
use tigris.Metadata.Entries.{
  db_key, coll_key, index_key, validate_db_args, validate_coll_args, validate_index_args,
}

pub db_key-is_whole :
    (table : Bytes) (ns : ℕ) (name : String)
    → validate_db_args ns name ≡ none
    → is_whole (db_key table ns name).index_parts ≡ true
unfolding db_key validate_db_args
db_key-is_whole table ns name valid = elim (Bool-cases (str_eq name "")) [
  | inr named ↦ rw named refl
  | inl nameless ↦ elim (Bool-cases (ns == 0)) [
    | inl zero ↦ let h = rw (nameless, zero) at valid in cc h
    | inr other ↦ let h = rw (nameless, other) at valid in cc h
  ]
]

pub coll_key-is_whole :
    (table : Bytes) (ns db : ℕ) (name : String)
    → validate_coll_args ns db name ≡ none
    → is_whole (coll_key table ns db name).index_parts ≡ true
unfolding coll_key validate_coll_args
coll_key-is_whole table ns db name valid = elim (Bool-cases (str_eq name "")) [
  | inr named ↦ rw named refl
  | inl nameless ↦ elim (Bool-cases ((ns == 0) || (db == 0))) [
    | inl zero ↦ let h = rw (nameless, zero) at valid in cc h
    | inr other ↦ let h = rw (nameless, other) at valid in cc h
  ]
]

pub index_key-is_whole :
    (table : Bytes) (ns db coll : ℕ) (name : String)
    → validate_index_args ns db coll name ≡ none
    → is_whole (index_key table ns db coll name).index_parts ≡ true
unfolding index_key validate_index_args
index_key-is_whole table ns db coll name valid = elim (Bool-cases (str_eq name "")) [
  | inr named ↦ rw named refl
  | inl nameless ↦ elim (Bool-cases ((ns == 0) || ((db == 0) || (coll == 0)))) [
    | inl zero ↦ let h = rw (nameless, zero) at valid in cc h
    | inr other ↦ let h = rw (nameless, other) at valid in cc h
  ]
]
