-- ===== src/SockAddr/Order.antt =====
-- `operator<` on addresses is a strict order, and total up to equality.
use ebc_node.Base.{ℕ, ◌≡◌, refl, ◌⊎◌, Bool, true, false, List, [], ◌∷◌, arith, length}
use ebc_node.SockAddr.{SockAddr, less, memcmp_lt, bytes_of}
use ebc_node.SockAddr.Fields.{IsSockAddr}

pub memcmp_irrefl : (xs : List ℕ) → memcmp_lt xs xs ≡ false
unfolding memcmp_lt
memcmp_irrefl [] = refl
memcmp_irrefl (x ∷ xs) = ground (arith, memcmp_irrefl xs)

memcmp_trans :
    (xs ys zs : List ℕ)
    → length xs ≡ length ys
    → length ys ≡ length zs
    → memcmp_lt xs ys ≡ true
    → memcmp_lt ys zs ≡ true
    → memcmp_lt xs zs ≡ true
unfolding memcmp_lt
memcmp_trans [] ys zs e e' h h' = cc
memcmp_trans (x ∷ xs) [] zs e e' h h' = cc
memcmp_trans (x ∷ xs) (y ∷ ys) [] e e' h h' = cc
memcmp_trans (x ∷ xs) (y ∷ ys) (z ∷ zs) e e' h h' = ground (arith, memcmp_trans xs ys zs)

pub memcmp_total :
    (xs ys : List ℕ)
    → length xs ≡ length ys
    → memcmp_lt xs ys ≡ false
    → memcmp_lt ys xs ≡ false
    → xs ≡ ys
unfolding memcmp_lt
memcmp_total [] [] e h h' = refl
memcmp_total [] (y ∷ ys) e h h' = absurd (omega arith)
memcmp_total (x ∷ xs) [] e h h' = absurd (omega arith)
memcmp_total (x ∷ xs) (y ∷ ys) e h h' = ground (arith, memcmp_total xs ys)

length-bytes_of : (a : SockAddr) → IsSockAddr a → length (bytes_of a) ≡ a.len
length-bytes_of a v = ground (arith, v)

-- `operator<` is transitive on well-formed addresses.
less_trans :
    (a b c : SockAddr)
    → IsSockAddr a
    → IsSockAddr b
    → IsSockAddr c
    → less a b ≡ true
    → less b c ≡ true
    → less a c ≡ true
unfolding less
less_trans a b c va vb vc h h' = ground (
  arith,
  length-bytes_of a va,
  length-bytes_of b vb,
  length-bytes_of c vc,
  memcmp_trans (bytes_of a) (bytes_of b) (bytes_of c),
)

-- Of two well-formed addresses the first is less than the second, or the second less than the
-- first, or they are the same.
less_total :
    (a b : SockAddr) → IsSockAddr a → IsSockAddr b → (less a b ≡ true) ⊎ (less b a ≡ true) ⊎ (a ≡ b)
unfolding less
less_total a b va vb = ground (
  arith,
  va,
  vb,
  length-bytes_of a va,
  length-bytes_of b vb,
  memcmp_total (bytes_of a) (bytes_of b),
)

-- A comparison that is a strict order on what has `P`, and tells any two of them apart.
pub record IsStrictTotal {A : Type 0} (P : A → Type 0) (lt : A → A → Bool) : Type 0 where
  pub irreflexive : (a : A) → lt a a ≡ false
  pub transitive : (a b c : A) → P a → P b → P c → lt a b ≡ true → lt b c ≡ true → lt a c ≡ true
  pub total : (a b : A) → P a → P b → (lt a b ≡ true) ⊎ (lt b a ≡ true) ⊎ (a ≡ b)

-- `operator<` is a strict total order on well-formed addresses: no address is less than itself, it is
-- transitive, and of two addresses one is less than the other or they are the same. So addresses can be
-- the keys of a `std::map`.
pub less-IsStrictTotal : IsStrictTotal IsSockAddr less
unfolding less
less-IsStrictTotal = record {
  irreflexive = λ a. ground (arith, memcmp_irrefl (bytes_of a));
  transitive = less_trans;
  total = less_total;
}
