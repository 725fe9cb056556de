-- ===== src/Proto/Loop/Keeps.antt =====
-- What the handling of one tag leaves of the input.
use ebc_node.Base.{
  ℕ, ◌≤◌, ◌≡◌, refl, ◌≢◌, Bool, true, false, Option, none, some, List, if◌then◌else◌, length,
}
use ebc_node.Wire.{Wire, Result, ok, failed, stuck, ◌>>=◌, with_value}
use ebc_node.Proto.Loop.{read_message, read_text}
use mathlib.Core.Path.{subst}

-- The outcome of handling one tag: not stuck, and no bytes are put back into `input`.
abbrev pub Keeps {ℓ} : {M : Type ℓ} → List ℕ → Result (M × List ℕ) → Type ℓ
Keeps {M} input r =
    (r ≢ stuck) × ((m : M) (rest : List ℕ) → r ≡ ok (m, rest) → length rest ≤ length input)

module _ {ℓ} {M : Type ℓ} (input : List ℕ) where
  failed-Keeps : Keeps {M = M} input failed
  failed-Keeps = ((λ e. cc), (λ m rest e. cc))

  pub with_value-Keeps {κ} :
      {A : Type κ} (o : Option (A × List ℕ)) (f : A → M)
      → ((rest : List ℕ) (a : A) → o ≡ some (a, rest) → length rest ≤ length input)
      → Keeps input (with_value o f)
  with_value-Keeps none f h = failed-Keeps
  with_value-Keeps (some (a, r)) f h =
      ((λ e. cc), (λ m rest e. subst (λ x. length x ≤ length input) (ok_rest e) (h r a refl)))
    where
      ok_rest :
          {m : M} {rest : List ℕ}
          → ◌≡◌ {A = Result (M × List ℕ)} (ok (f a, r)) (ok (m, rest))
          → r ≡ rest
      ok_rest e = cc

  pub if-Keeps :
      (b : Bool) {x y : Result (M × List ℕ)}
      → Keeps input x
      → Keeps input y
      → Keeps input (if b then x else y)
  if-Keeps true hx hy = hx
  if-Keeps false hx hy = hy

module _ {ℓ} {M : Type ℓ} (input : List ℕ) where
  pub read_text-Keeps :
      (w : Wire) (o : Option (List ℕ × List ℕ)) (f : List ℕ → M)
      → ((rest s : List ℕ) → o ≡ some (s, rest) → length rest ≤ length input)
      → Keeps input (read_text w o f)
  read_text-Keeps w none f h = failed-Keeps input
  read_text-Keeps w (some (s, left)) f h =
      if-Keeps input (w.verify_utf8 s) (with_value-Keeps input (some (s, left)) f h)
        (failed-Keeps input)

  read_ok-Keeps :
      {A : Type 0} (left : List ℕ) (r : Result (A × Bool)) (f : A → M)
      → length left ≤ length input
      → r ≢ stuck
      → Keeps input (r >>= λ x. if x.1 then ok (f x.0, left) else failed)
  read_ok-Keeps {A} left (ok (a, b)) f h live =
      if-Keeps input b
        (with_value-Keeps input (some (a, left)) f
          (λ rest x e. subst (λ y. length y ≤ length input) (same e) h))
        (failed-Keeps input)
    where
      same :
          {x : A} {rest : List ℕ}
          → ◌≡◌ {A = Option (A × List ℕ)} (some (a, left)) (some (x, rest))
          → left ≡ rest
      same e = cc
  read_ok-Keeps left failed f h live = failed-Keeps input
  read_ok-Keeps left stuck f h live = absurd (live refl)

  pub read_message-Keeps :
      {A : Type 0} (parse : List ℕ → Result (A × Bool)) (o : Option (List ℕ × List ℕ)) (f : A → M)
      → ((rest s : List ℕ) → o ≡ some (s, rest) → length rest ≤ length input)
      → ((s : List ℕ) → parse s ≢ stuck)
      → Keeps input (read_message parse o f)
  read_message-Keeps parse none f h live = failed-Keeps input
  read_message-Keeps parse (some (payload, left)) f h live =
      read_ok-Keeps left (parse payload) f (h left payload refl) (live payload)
