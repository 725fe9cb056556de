-- ===== src/Base/StdMap.antt =====
-- `std::map`: an association list in the order of the keys, with the calls that the program makes.
pub mod Ascending
use mathlib.Core.Path.{◌≡◌, refl}
use mathlib.Core.Logic.{◌↔◌, inl, inr}
use mathlib.Core.Bool.{Bool, true}
use mathlib.Core.Option.{Option, none, some}
use mathlib.Core.List.{List, [], ◌∷◌}
use native.Mathlib.Omega.{arith}
use ebc_node.Base.Lists.{All}
use ebc_node.Base.Tests.{if◌then◌else◌, Bool-cases, Option-cases}

-- What a key type has to offer: `operator<`, and equality.
pub record MapKey {ℓ} (K : Type ℓ) : Type ℓ where
  pub eq : K → K → Bool
  pub lt : K → K → Bool
  pub eq_iff : (a b : K) → (eq a b ≡ true) ↔ (a ≡ b)

module _ {ℓ κ} {K : Type ℓ} {V : Type κ} ⦃key : MapKey K⦄ where
  unfoldable pub find : K → List (K × V) → Option V
  find k [] = none
  find k ((j, v) ∷ m) = if key.eq k j then some v else find k m

  unfoldable pub place : K → V → List (K × V) → List (K × V)
  place k v [] = (k, v) ∷ []
  place k v ((j, w) ∷ m) = if key.lt k j then (k, v) ∷ (j, w) ∷ m else (j, w) ∷ place k v m

  unfoldable pub overwrite : K → V → List (K × V) → List (K × V)
  overwrite k v [] = []
  overwrite k v ((j, w) ∷ m) = if key.eq k j then (j, v) ∷ m else (j, w) ∷ overwrite k v m

  -- `m.insert(make_pair(k, v))`: an entry that is there stays as it is.
  unfoldable pub insert : K → V → List (K × V) → List (K × V)
  insert k v m = elim (find k m) [ none ↦ place k v m | some w ↦ m ]

  -- `m[k] = v`.
  unfoldable pub assign : K → V → List (K × V) → List (K × V)
  assign k v m = elim (find k m) [ none ↦ place k v m | some w ↦ overwrite k v m ]

  -- `m.erase(m.find(k))`.
  unfoldable pub erase : K → List (K × V) → List (K × V)
  erase k [] = []
  erase k ((j, w) ∷ m) = if key.eq k j then erase k m else (j, w) ∷ erase k m

  find-place :
      (k j : K) (v : V) (m : List (K × V))
      → find k m ≡ none
      → find j (place k v m) ≡ (if key.eq j k then some v else find j m)
  unfolding find place
  find-place k j v [] h = refl
  find-place k j v ((i, w) ∷ m) h =
      ground (arith, key.eq_iff k i, key.eq_iff j k, key.eq_iff j i, find-place k j v m)

  find-overwrite :
      (k j : K) (v w : V) (m : List (K × V))
      → find k m ≡ some w
      → find j (overwrite k v m) ≡ (if key.eq j k then some v else find j m)
  unfolding find overwrite
  find-overwrite k j v w [] h = ground arith
  find-overwrite k j v w ((i, u) ∷ m) h =
      ground (arith, key.eq_iff k i, key.eq_iff j k, key.eq_iff j i, find-overwrite k j v w m)

  pub find-insert :
      (k j : K) (v : V) (m : List (K × V))
      → find j (insert k v m)
        ≡ (if key.eq j k then (elim (find k m) [ none ↦ some v | some w ↦ some w ]) else find j m)
  unfolding insert
  find-insert k j v m = elim (Option-cases (find k m)) [
    | inl e ↦ rw (e, insert) (find-place k j v m e)
    | inr (w, e) ↦ elim (Bool-cases (key.eq j k)) [
      | inl same ↦ rw (e, insert, same, (key.eq_iff j k).0 same) e
      | inr other ↦ rw (e, insert, other)
    ]
  ]

  pub find-assign :
      (k j : K) (v : V) (m : List (K × V))
      → find j (assign k v m) ≡ (if key.eq j k then some v else find j m)
  unfolding assign
  find-assign k j v m = elim (Option-cases (find k m)) [
    | inl e ↦ rw (e, assign) (find-place k j v m e)
    | inr (w, e) ↦ rw (e, assign) (find-overwrite k j v w m e)
  ]

  pub find-erase :
      (k j : K) (m : List (K × V)) → find j (erase k m) ≡ (if key.eq j k then none else find j m)
  unfolding find erase
  find-erase k j [] = ground arith
  find-erase k j ((i, w) ∷ m) =
      ground (arith, key.eq_iff k i, key.eq_iff j k, key.eq_iff j i, find-erase k j m)

  -- What all entries have is kept.
  module _ {μ} (P : K × V → Type μ) where
    pub place-All : (k : K) (v : V) (m : List (K × V)) → P (k, v) → All P m → All P (place k v m)
    unfolding place
    place-All k v [] new old = (new, tt)
    place-All k v ((j, w) ∷ m) new (here, old) = elim (Bool-cases (key.lt k j)) [
      | inl below ↦ rw below (new, (here, old))
      | inr above ↦ rw above (here, place-All k v m new old)
    ]

    pub insert-All : (k : K) (v : V) (m : List (K × V)) → P (k, v) → All P m → All P (insert k v m)
    unfolding insert
    insert-All k v m new old = elim (Option-cases (find k m)) [
      | inl e ↦ rw (e, insert) (place-All k v m new old)
      | inr (w, e) ↦ rw (e, insert) old
    ]

    pub erase-All : (k : K) (m : List (K × V)) → All P m → All P (erase k m)
    unfolding erase
    erase-All k [] old = tt
    erase-All k ((j, w) ∷ m) (here, old) = elim (Bool-cases (key.eq k j)) [
      | inl same ↦ rw same (erase-All k m old)
      | inr other ↦ rw other (here, erase-All k m old)
    ]
