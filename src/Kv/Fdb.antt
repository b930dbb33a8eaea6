-- ===== src/Kv/Fdb.antt =====
-- A transaction of FoundationDB, which the code takes from the client library, by what its
-- documentation says of it. A key is the pair that the tuple layer packs: the table's bytes and
-- the tuple's parts.
use tigris.Base.{ℕ, ◌<◌, String, ◌≡◌, ◌≢◌, Option, none, some, List, [], ◌∷◌, ◌++◌, All, Error}
use tigris.Kv.Data.{Bytes}

pub data Part : Type 0 where
  str : String → Part
  int : ℕ → Part
  bytes : Bytes → Part

abbrev pub Key : Type 0
Key = List Part

abbrev pub FdbKey : Type 0
FdbKey = Bytes × Key

abbrev pub Row : Type 0
Row = FdbKey × Bytes

pub record Fdb : Type 1 where
  pub Tx : Type 0
  -- the error of every read, once the transaction has failed
  pub failure : Tx → Option Error
  pub stored : Tx → FdbKey → Option Bytes
  pub set : Tx → FdbKey → Bytes → Tx
  -- ClearRange and GetRange of the keys that begin with this one
  pub clear_prefix : Tx → FdbKey → Tx
  pub scan : Tx → FdbKey → List Row
  pub Before : FdbKey → FdbKey → Type 0

-- The documented laws: a transaction reads its own writes, clears what begins with a key, and
-- answers in the order of keys, by which a tuple stands before its extensions and smaller numbers
-- before greater ones.
pub record IsLawful (f : Fdb) : Type 0 where
  pub failure-set : (t : f.Tx) (k : FdbKey) (v : Bytes) → f.failure (f.set t k v) ≡ f.failure t
  pub failure-clear : (t : f.Tx) (k : FdbKey) → f.failure (f.clear_prefix t k) ≡ f.failure t
  pub stored-set_self : (t : f.Tx) (k : FdbKey) (v : Bytes) → f.stored (f.set t k v) k ≡ some v
  pub stored-set_ne :
      (t : f.Tx) (k j : FdbKey) (v : Bytes) → k ≢ j → f.stored (f.set t k v) j ≡ f.stored t j
  pub stored-clear :
      (t : f.Tx) (table : Bytes) (p q : Key)
      → f.stored (f.clear_prefix t (table, p)) (table, p ++ q) ≡ none
  pub scan-clear : (t : f.Tx) (k : FdbKey) → f.scan (f.clear_prefix t k) k ≡ []
  pub scan-set_last :
      (t : f.Tx) (table : Bytes) (p q : Key) (v : Bytes)
      → All (λ r. f.Before r.0 (table, p ++ q)) (f.scan t (table, p))
      → f.scan (f.set t (table, p ++ q) v) (table, p)
        ≡ f.scan t (table, p) ++ ((table, p ++ q), v) ∷ []
  pub scan-set_first :
      (t : f.Tx) (k : FdbKey) (u v : Bytes) (rest : List Row)
      → f.scan t k ≡ (k, u) ∷ rest
      → f.scan (f.set t k v) k ≡ (k, v) ∷ rest
  pub before-append :
      (table : Bytes) (p : Key) (x : Part) (q : Key) → f.Before (table, p) (table, p ++ x ∷ q)
  pub before-int :
      (table : Bytes) (p : Key) (x : Part) (m n : ℕ)
      → m < n
      → f.Before (table, p ++ x ∷ int m ∷ []) (table, p ++ x ∷ int n ∷ [])
