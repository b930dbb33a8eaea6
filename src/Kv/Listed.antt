-- ===== src/Kv/Listed.antt =====
-- A transaction over a list of rows, on which the tests run.
use mathlib.Core.List.{append-nil}
use text.Mathlib.TextEquality.{eq_iff}
use native.Mathlib.Decide.{ℕ_discrete}
use tigris.Base.{
  ℕ, ◌<◌, ◌≡◌, ◌≢◌, ◌↔◌, refl, ap, Bool, true, false, ◌&&◌, Option, none, some, List, [], ◌∷◌, ◌++◌,
  arith, length, length-append, All, String, str_eq, if◌then◌else◌, Bool-cases, inl, inr,
}
use tigris.Kv.Data.{Bytes}
use tigris.Kv.Fdb.{Fdb, IsLawful, FdbKey, Key, Part, int, Row}

unfoldable pub String-discrete : Discrete String
String-discrete a b = elim (Bool-cases (str_eq a b)) [
  | inl same ↦ yes ((eq_iff a b).0 same)
  | inr other ↦ no (λ p. cc ((eq_iff a b).1 p))
]

unfoldable pub Part-discrete : Discrete Part
Part-discrete = hlevel (ℕ_discrete, String-discrete)

FdbKey-discrete : Discrete FdbKey
FdbKey-discrete = hlevel (ℕ_discrete, Part-discrete)

abbrev of_dec {ℓ} : {A : Type ℓ} → Dec A → Bool
of_dec (yes _) = true
of_dec (no _) = false

unfoldable pub key_eq : FdbKey → FdbKey → Bool
unfolding FdbKey-discrete Part-discrete String-discrete
key_eq a b = of_dec (FdbKey-discrete a b)

of_dec_iff {ℓ} : {A : Type ℓ} (d : Dec A) → (of_dec d ≡ true) ↔ A
of_dec_iff (yes a) = (λ _. a, λ _. refl)
of_dec_iff (no n) = (λ e. cc, λ a. absurd (n a))

pub key_eq_iff : (a b : FdbKey) → (key_eq a b ≡ true) ↔ (a ≡ b)
unfolding key_eq
key_eq_iff a b = of_dec_iff (FdbKey-discrete a b)

unfoldable pub part_eq : Part → Part → Bool
unfolding Part-discrete String-discrete
part_eq a b = of_dec (Part-discrete a b)

part_eq_refl : (a : Part) → part_eq a a ≡ true
unfolding part_eq
part_eq_refl a = (of_dec_iff (Part-discrete a a)).1 refl

unfoldable pub is_prefix : Key → Key → Bool
is_prefix [] k = true
is_prefix (a ∷ p) [] = false
is_prefix (a ∷ p) (b ∷ k) = part_eq a b && is_prefix p k

unfoldable pub has_prefix : FdbKey → FdbKey → Bool
unfolding key_eq part_eq is_prefix
has_prefix p k = key_eq (p.0, []) (k.0, []) && is_prefix p.1 k.1

is_prefix-append : (p q : Key) → is_prefix p (p ++ q) ≡ true
unfolding is_prefix
is_prefix-append [] q = refl
is_prefix-append (a ∷ p) q = rw (part_eq_refl a) (is_prefix-append p q)

has_prefix-append : (table : Bytes) (p q : Key) → has_prefix (table, p) (table, p ++ q) ≡ true
unfolding has_prefix
has_prefix-append table p q =
    rw ((key_eq_iff (table, []) (table, [])).1 refl) (is_prefix-append p q)

has_prefix_refl : (k : FdbKey) → has_prefix k k ≡ true
has_prefix_refl (table, p) = let h = has_prefix-append table p [] in (simp append-nil at h)

unfoldable pub find : List Row → FdbKey → Option Bytes
find [] k = none
find ((j, v) ∷ t) k = if key_eq j k then some v else find t k

unfoldable pub put : List Row → FdbKey → Bytes → List Row
put [] k v = (k, v) ∷ []
put ((j, w) ∷ t) k v = if key_eq j k then (k, v) ∷ t else (j, w) ∷ put t k v

unfoldable pub scan_rows : List Row → FdbKey → List Row
scan_rows [] p = []
scan_rows ((j, w) ∷ t) p =
    let rest = scan_rows t p in if has_prefix p j then (j, w) ∷ rest else rest

unfoldable pub clear_rows : List Row → FdbKey → List Row
clear_rows [] p = []
clear_rows ((j, w) ∷ t) p =
    let rest = clear_rows t p in if has_prefix p j then rest else (j, w) ∷ rest

find-put_self : (t : List Row) (k : FdbKey) (v : Bytes) → find (put t k v) k ≡ some v
unfolding find put
find-put_self [] k v = rw ((key_eq_iff k k).1 refl)
find-put_self ((j, w) ∷ t) k v = ground (arith, (key_eq_iff k k).1 refl, find-put_self t k v)

find-put_ne : (t : List Row) (k j : FdbKey) (v : Bytes) → k ≢ j → find (put t k v) j ≡ find t j
unfolding find put
find-put_ne [] k j v h = elim (Bool-cases (key_eq k j)) [
  | inl same ↦ absurd (h ((key_eq_iff k j).0 same))
  | inr other ↦ rw other
]
find-put_ne ((i, w) ∷ t) k j v h =
    ground (arith, key_eq_iff i k, key_eq_iff i j, key_eq_iff k j, find-put_ne t k j v h)

find-clear_rows :
    (t : List Row) (table : Bytes) (p q : Key)
    → find (clear_rows t (table, p)) (table, p ++ q) ≡ none
unfolding find clear_rows
find-clear_rows [] table p q = refl
find-clear_rows ((j, w) ∷ t) table p q =
    ground (
      arith,
      key_eq_iff j (table, p ++ q),
      has_prefix-append table p q,
      find-clear_rows t table p q,
    )

scan_rows-clear_rows : (t : List Row) (p : FdbKey) → scan_rows (clear_rows t p) p ≡ []
unfolding scan_rows clear_rows
scan_rows-clear_rows [] p = refl
scan_rows-clear_rows ((j, w) ∷ t) p = ground (arith, scan_rows-clear_rows t p)

pub scan_rows-nil : (k : FdbKey) → scan_rows [] k ≡ []
unfolding scan_rows
scan_rows-nil k = refl

pub scan_rows-cons :
    (t : List Row) (table : Bytes) (p q : Key) (w : Bytes)
    → scan_rows (((table, p ++ q), w) ∷ t) (table, p)
      ≡ ((table, p ++ q), w) ∷ scan_rows t (table, p)
unfolding scan_rows
scan_rows-cons t table p q w = rw (has_prefix-append table p q)

pub find_single : (k : FdbKey) (v : Bytes) → find ((k, v) ∷ []) k ≡ some v
unfolding put
find_single k v = find-put_self [] k v

scan_rows-put_last :
    (t : List Row) (table : Bytes) (p q : Key) (v : Bytes)
    → All (λ r. r.0 ≢ (table, p ++ q)) (scan_rows t (table, p))
    → scan_rows (put t (table, p ++ q) v) (table, p)
      ≡ scan_rows t (table, p) ++ ((table, p ++ q), v) ∷ []
unfolding scan_rows put
scan_rows-put_last [] table p q v h = rw (has_prefix-append table p q)
scan_rows-put_last ((j, w) ∷ t) table p q v h =
    let ih = scan_rows-put_last t table p q v in
    elim (Bool-cases (key_eq j (table, p ++ q))) [
      | inl same ↦
          let e = (key_eq_iff j (table, p ++ q)).0 same in
          let inside : has_prefix (table, p) j ≡ true = rw e (has_prefix-append table p q) in
          absurd ((rw inside at h).0 e)
      | inr other ↦ elim (Bool-cases (has_prefix (table, p) j)) [
        | inl inside ↦
            rw (other, inside) (ap (λ (r : List Row). (j, w) ∷ r) (ih ((rw inside at h).1)))
        | inr outside ↦ rw (other, outside) (ih (rw outside at h))
      ]
    ]

scan_rows-put_first :
    (t : List Row) (k : FdbKey) (u v : Bytes) (rest : List Row)
    → scan_rows t k ≡ (k, u) ∷ rest
    → scan_rows (put t k v) k ≡ (k, v) ∷ rest
unfolding scan_rows put
scan_rows-put_first [] k u v rest h = cc
scan_rows-put_first ((j, w) ∷ t) k u v rest h = elim (Bool-cases (key_eq j k)) [
  | inl same ↦
      let e = (key_eq_iff j k).0 same in
      let inside : has_prefix k j ≡ true = rw e (has_prefix_refl k) in
      let cells = rw inside at h in rw (same, has_prefix_refl k) (cc cells)
  | inr other ↦ elim (Bool-cases (has_prefix k j)) [
    | inl inside ↦
        let cells = rw inside at h in let e : j ≡ k = cc cells in cc ((key_eq_iff j k).1 e)
    | inr outside ↦ rw (other, outside) (scan_rows-put_first t k u v rest (rw outside at h))
  ]
]

ne_longer :
    (table : Bytes) (p : Key) (x : Part) (q : Key) → ◌≢◌ {A = FdbKey} (table, p) (table, p ++ x ∷ q)
ne_longer table p x q e =
    let n = ap (λ (k : FdbKey). length k.1) e in omega (arith, length-append p (x ∷ q))

append_cancel : (p : Key) {q r : Key} → p ++ q ≡ p ++ r → q ≡ r
append_cancel [] e = e
append_cancel (x ∷ p) e = append_cancel p (cc)

ne_int :
    (table : Bytes) (p : Key) (x : Part) (m n : ℕ)
    → m < n
    → ◌≢◌ {A = FdbKey} (table, p ++ x ∷ int m ∷ []) (table, p ++ x ∷ int n ∷ [])
ne_int table p x m n h e =
    let tail = append_cancel p (ap (λ (k : FdbKey). k.1) e) in let same : m ≡ n = cc in omega arith

-- `failure` is `none`: the transaction stays alive.
abbrev pub listed : Fdb
listed = record {
  Tx = List Row;
  failure = λ t. none;
  stored = find;
  set = put;
  clear_prefix = clear_rows;
  scan = scan_rows;
  Before = λ k j. k ≢ j;
}

pub listed-IsLawful : IsLawful listed
listed-IsLawful = record {
  failure-set = λ t k v. refl;
  failure-clear = λ t k. refl;
  stored-set_self = find-put_self;
  stored-set_ne = find-put_ne;
  stored-clear = find-clear_rows;
  scan-clear = scan_rows-clear_rows;
  scan-set_last = scan_rows-put_last;
  scan-set_first = scan_rows-put_first;
  before-append = ne_longer;
  before-int = ne_int;
}
