-- ===== src/Base/StdMap/Ascending.antt =====
-- The entries of a `std::map` stand in ascending order of their keys, so that each key stands once.
use mathlib.Core.Path.{◌≡◌}
use mathlib.Core.Logic.{◌⊎◌, inl, inr}
use mathlib.Core.Bool.{true}
use mathlib.Core.Option.{none}
use mathlib.Core.List.{List, [], ◌∷◌}
use native.Mathlib.Omega.{arith}
use ebc_node.Base.Lists.{All}
use ebc_node.Base.Tests.{Bool-cases, Option-cases}
use ebc_node.Base.StdMap.{
  MapKey, find, place, overwrite, insert, assign, erase, place-All, erase-All,
}

-- What `std::map` asks of `operator<`.
pub record IsOrder {ℓ} {K : Type ℓ} (key : MapKey K) : Type ℓ where
  pub transitive : (a b c : K) → key.lt a b ≡ true → key.lt b c ≡ true → key.lt a c ≡ true
  pub total : (a b : K) → (key.lt a b ≡ true) ⊎ (key.eq a b ≡ true) ⊎ (key.lt b a ≡ true)

module _ {ℓ κ} {K : Type ℓ} {V : Type κ} ⦃key : MapKey K⦄ where
  abbrev pub IsBelow : K → List (K × V) → Type 0
  IsBelow k = All (λ (c : K × V). key.lt k (c.0) ≡ true)

  -- Every key is less than all that follow.
  abbrev pub IsAscending : List (K × V) → Type 0
  IsAscending [] = Unit
  IsAscending ((k, v) ∷ m) = IsBelow k m × IsAscending m

  pub erase-IsAscending : (k : K) (m : List (K × V)) → IsAscending m → IsAscending (erase k m)
  unfolding erase
  erase-IsAscending k [] h = tt
  erase-IsAscending k ((j, w) ∷ m) (below, h) = elim (Bool-cases (key.eq k j)) [
    | inl same ↦ rw same (erase-IsAscending k m h)
    | inr other ↦ rw other (erase-All _ k m below, erase-IsAscending k m h)
  ]

  module _ (order : IsOrder key) where
    IsBelow-trans : (k j : K) (m : List (K × V)) → key.lt k j ≡ true → IsBelow j m → IsBelow k m
    IsBelow-trans k j [] h below = tt
    IsBelow-trans k j ((i, w) ∷ m) h (here, below) =
        (order.transitive k j i h here, IsBelow-trans k j m h below)

    place-IsAscending :
        (k : K) (v : V) (m : List (K × V))
        → find k m ≡ none
        → IsAscending m
        → IsAscending (place k v m)
    unfolding find place
    place-IsAscending k v [] absent h = (tt, tt)
    place-IsAscending k v ((j, w) ∷ m) absent (below, h) = elim (Bool-cases (key.lt k j)) [
      | inl less ↦ rw less ((less, IsBelow-trans k j m less below), (below, h))
      | inr more ↦ rw more (
        place-All _ k v m (ground (arith, order.total k j, absent, more)) below,
        place-IsAscending k v m (ground (arith, absent)) h,
      )
    ]

    pub insert-IsAscending :
        (k : K) (v : V) (m : List (K × V)) → IsAscending m → IsAscending (insert k v m)
    unfolding insert
    insert-IsAscending k v m h = elim (Option-cases (find k m)) [
      | inl absent ↦ rw (absent, insert) (place-IsAscending k v m absent h)
      | inr (w, there) ↦ rw (there, insert) h
    ]

    overwrite-IsBelow :
        (j k : K) (v : V) (m : List (K × V)) → IsBelow j m → IsBelow j (overwrite k v m)
    unfolding overwrite
    overwrite-IsBelow j k v [] h = tt
    overwrite-IsBelow j k v ((i, w) ∷ m) (here, h) = elim (Bool-cases (key.eq k i)) [
      | inl same ↦ rw same (here, h)
      | inr other ↦ rw other (here, overwrite-IsBelow j k v m h)
    ]

    overwrite-IsAscending :
        (k : K) (v : V) (m : List (K × V)) → IsAscending m → IsAscending (overwrite k v m)
    unfolding overwrite
    overwrite-IsAscending k v [] h = tt
    overwrite-IsAscending k v ((i, w) ∷ m) (below, h) = elim (Bool-cases (key.eq k i)) [
      | inl same ↦ rw same (below, h)
      | inr other ↦ rw other (overwrite-IsBelow i k v m below, overwrite-IsAscending k v m h)
    ]

    pub assign-IsAscending :
        (k : K) (v : V) (m : List (K × V)) → IsAscending m → IsAscending (assign k v m)
    unfolding assign
    assign-IsAscending k v m h = elim (Option-cases (find k m)) [
      | inl absent ↦ rw (absent, assign) (place-IsAscending k v m absent h)
      | inr (w, there) ↦ rw (there, assign) (overwrite-IsAscending k v m h)
    ]
