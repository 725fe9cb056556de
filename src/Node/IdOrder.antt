-- ===== src/Node/IdOrder.antt =====
-- include/utils.h: `operator<` of `std::array` is an order, as a `std::map` with ids for its keys needs.
use ebc_node.Base.{◌≡◌, refl, ◌⊎◌, inl, inr, true, [], ◌∷◌, arith}
use ebc_node.Base.StdMap.Ascending.{IsOrder}
use ebc_node.Node.{NodeId, ids_lt, ids_eq, id_key}

ids_lt_trans : (a b c : NodeId) → ids_lt a b ≡ true → ids_lt b c ≡ true → ids_lt a c ≡ true
ids_lt_trans [] [] c h h' = cc
ids_lt_trans [] (y ∷ ys) [] h h' = cc
ids_lt_trans [] (y ∷ ys) (z ∷ zs) h h' = refl
ids_lt_trans (x ∷ xs) [] c h h' = cc
ids_lt_trans (x ∷ xs) (y ∷ ys) [] h h' = cc
ids_lt_trans (x ∷ xs) (y ∷ ys) (z ∷ zs) h h' = ground (arith, ids_lt_trans xs ys zs)

ids_lt_total : (a b : NodeId) → (ids_lt a b ≡ true) ⊎ (ids_eq a b ≡ true) ⊎ (ids_lt b a ≡ true)
ids_lt_total [] [] = inr (inl refl)
ids_lt_total [] (y ∷ ys) = inl refl
ids_lt_total (x ∷ xs) [] = inr (inr refl)
ids_lt_total (x ∷ xs) (y ∷ ys) = ground (arith, ids_lt_total xs ys)

pub id_key-IsOrder : IsOrder id_key
id_key-IsOrder = record { transitive = ids_lt_trans; total = ids_lt_total }
