-- ===== src/Engine/World/Lasts.antt =====
-- Sequences that are defined from every state whose engine has a property, and leave one that has it:
-- the rules, one for each construct.
use ebc_node.Base.{◌≡◌, refl, ◌∙◌, Bool, true, false, some, List, ◌∷◌, if◌then◌else◌}
use ebc_node.Engine.{Engine}
use ebc_node.Engine.World.{World, Call, M, ◌>>=◌, ◌>>◌, return, ask, get, modify, >>=-eq}

module _ (E : Engine → Type 0) where
  abbrev pub Lasts {ℓ} : {A : Type ℓ} → M A → Type ℓ
  Lasts {A = A} m =
      (s : World) → E s.engine → (a : A) × (s' : World) × (m s ≡ some (a, s')) × E s'.engine

  pub >>=-Lasts {ℓ κ} :
      {A : Type ℓ} {B : Type κ} (m : M A) (f : A → M B)
      → Lasts m
      → ((a : A) → Lasts (f a))
      → Lasts (m >>= f)
  >>=-Lasts m f hm hf s e =
      let (a, t, first, e') = hm s e in
      let (b, u, second, e'') = hf a t e' in (b, u, >>=-eq m f s first ∙ second, e'')

  pub >>-Lasts {ℓ κ} :
      {A : Type ℓ} {B : Type κ} (m : M A) (k : M B) → Lasts m → Lasts k → Lasts (m >> k)
  >>-Lasts m k hm hk = >>=-Lasts m (λ _. k) hm (λ _. hk)

  pub return-Lasts {ℓ} : {A : Type ℓ} (a : A) → Lasts (return a)
  return-Lasts a s e = (a, s, refl, e)

  pub ask-Lasts {ℓ} : {A : Type ℓ} (c : Call) (f : List Call → A) → Lasts (ask c f)
  ask-Lasts c f s e = (f (c ∷ s.calls), record s { calls = c ∷ s.calls }, refl, e)

  pub get-Lasts : Lasts get
  get-Lasts s e = (s.engine, s, refl, e)

  pub modify-Lasts : (f : Engine → Engine) → ((e : Engine) → E e → E (f e)) → Lasts (modify f)
  modify-Lasts f h s e = (tt, record s { engine = f s.engine }, refl, h s.engine e)

  pub if-Lasts {ℓ} :
      {A : Type ℓ} (b : Bool) (m k : M A) → Lasts m → Lasts k → Lasts (if b then m else k)
  if-Lasts true m k hm hk = hm
  if-Lasts false m k hm hk = hk
