-- ===== src/Engine/World/Rules.antt =====
-- A property of the engine and the calls so far that every step of a sequence keeps: the rules, one
-- for each construct.
use ebc_node.Base.{
  sym, ◌∙◌, ℕ, ◌≡◌, refl, Bool, true, false, Option, none, some, List, leb, if◌then◌else◌, length,
  take, ◌∷◌,
}
use mathlib.Core.Path.{subst}
use ebc_node.Engine.{Engine}
use ebc_node.Engine.World.{
  World, Call, send, M, ◌>>=◌, ◌>>◌, return, fault, defined, if_some, ask, look, get, modify,
  update, send_buffer, >>=-eq-some,
}

-- The state after a call.
abbrev pub called : Call → World → World
called c s = record s { calls = c ∷ s.calls }

-- Where the step is defined, `Q` holds after it if `P` held before.
abbrev pub Leads {ℓ κ μ} :
    {A : Type ℓ} → (World → Type κ) → (World → Type μ) → M A → Type (ℓ ⊔ κ ⊔ μ)
Leads {A = A} P Q m = (s s' : World) (a : A) → P s → m s ≡ some (a, s') → Q s'

-- What holds of each state with itself leads to itself.
pub to-Leads {ℓ κ μ} :
    {A : Type ℓ} (P : World → Type κ) (Q : World → Type μ) (m : M A) (r : World → A × World)
    → ((s : World) → m s ≡ some (r s))
    → ((s : World) → P s → Q (r s).1)
    → Leads P Q m
to-Leads {A = A} P Q m r h k s s' a p e = subst Q (same (sym (h s) ∙ e)) (k s p)
  where
    same : ◌≡◌ {A = Option (A × World)} (some (r s)) (some (a, s')) → (r s).1 ≡ s'
    same q = cc

pub >>=-Leads {ℓ μ κ κ' κ''} :
    {A : Type ℓ} {B : Type μ} (P : World → Type κ) (Q : World → Type κ') (R : World → Type κ'')
    (m : M A) (f : A → M B)
    → Leads P Q m
    → ((a : A) → Leads Q R (f a))
    → Leads P R (m >>= f)
>>=-Leads P Q R m f hm hf s s'' b p e =
    let (a, s', first, second) = >>=-eq-some m f s e in hf a s' s'' b (hm s s' a p first) second

pub ask-Leads {ℓ κ μ} :
    {A : Type ℓ} (P : World → Type κ) (Q : World → Type μ) (c : Call) (f : List Call → A)
    → ((s : World) → P s → Q (called c s))
    → Leads P Q (ask c f)
ask-Leads P Q c f = to-Leads P Q (ask c f) (λ s. (f (c ∷ s.calls), called c s)) (λ s. refl)

pub if-Leads {ℓ κ μ} :
    {A : Type ℓ} (P : World → Type κ) (Q : World → Type μ) (b : Bool) (m k : M A)
    → Leads P Q m
    → Leads P Q k
    → Leads P Q (if b then m else k)
if-Leads P Q true m k hm hk = hm
if-Leads P Q false m k hm hk = hk

module _ {κ} (P : World → Type κ) where
  -- What holds before holds after it.
  abbrev pub Keeps {ℓ} : {A : Type ℓ} → M A → Type (ℓ ⊔ κ)
  Keeps m = Leads P P m

  pub >>=-Keeps {ℓ μ} :
      {A : Type ℓ} {B : Type μ} (m : M A) (f : A → M B)
      → Keeps m
      → ((a : A) → Keeps (f a))
      → Keeps (m >>= f)
  >>=-Keeps = >>=-Leads P P P

  pub >>-Keeps {ℓ μ} :
      {A : Type ℓ} {B : Type μ} (m : M A) (k : M B) → Keeps m → Keeps k → Keeps (m >> k)
  >>-Keeps m k hm hk = >>=-Keeps m (λ _. k) hm (λ _. hk)

  pub return-Keeps {ℓ} : {A : Type ℓ} (a : A) → Keeps (return a)
  return-Keeps a = to-Leads P P (return a) (λ s. (a, s)) (λ s. refl) (λ s p. p)

  pub fault-Keeps {ℓ} : {A : Type ℓ} → Keeps {A = A} fault
  fault-Keeps s s' a p e = cc

  pub defined-Keeps {ℓ} : {A : Type ℓ} (o : Option A) → Keeps (defined o)
  defined-Keeps none = fault-Keeps
  defined-Keeps (some a) = return-Keeps a

  pub ask-Keeps {ℓ} :
      {A : Type ℓ} (c : Call) (f : List Call → A)
      → ((s : World) → P s → P (called c s))
      → Keeps (ask c f)
  ask-Keeps = ask-Leads P P

  pub look-Keeps {ℓ} : {A : Type ℓ} (f : List Call → A) → Keeps (look f)
  look-Keeps f = to-Leads P P (look f) (λ s. (f s.calls, s)) (λ s. refl) (λ s p. p)

  pub get-Keeps : Keeps get
  get-Keeps = to-Leads P P get (λ s. (s.engine, s)) (λ s. refl) (λ s p. p)

  pub modify-Keeps :
      (f : Engine → Engine)
      → ((s : World) → P s → P (record s { engine = f s.engine }))
      → Keeps (modify f)
  modify-Keeps f = to-Leads P P (modify f) (λ s. (tt, record s { engine = f s.engine })) (λ s. refl)

  pub update-Keeps :
      (f : Engine → Option Engine)
      → ((s : World) (e' : Engine) → P s → f s.engine ≡ some e' → P (record s { engine = e' }))
      → Keeps (update f)
  update-Keeps f h s s' a p e = go (f s.engine) refl e
    where
      go :
          (r : Option Engine)
          → f s.engine ≡ r
          → (let x : Option (Unit {0} × World) = elim r [
            | none ↦ none
            | some e ↦ some (tt, record s { engine = e })
          ] in
              x ≡ some (a, s'))
          → P s'
      go none q x = cc
      go (some e) q x = subst P (same x) (h s e p q)
        where
          same :
              ◌≡◌ {A = Option (Unit {0} × World)}
                (some (tt, record s { engine = e }))
                (some (a, s'))
              → record s { engine = e } ≡ s'
          same y = cc

  pub if-Keeps {ℓ} :
      {A : Type ℓ} (b : Bool) (m k : M A) → Keeps m → Keeps k → Keeps (if b then m else k)
  if-Keeps = if-Leads P P

  pub if_some-Keeps {ℓ μ} :
      {A : Type ℓ} {B : Type μ} (o : Option A) (f : A → M B) (m : M B)
      → ((a : A) → Keeps (f a))
      → Keeps m
      → Keeps (if_some o f m)
  if_some-Keeps none f m hf hm = hm
  if_some-Keeps (some a) f m hf hm = hf a

  pub send_buffer-Keeps :
      (sock : ℕ) (buffer : List ℕ) (n : ℕ)
      → ((bytes : List ℕ) (s : World) → P s → P (called (send sock bytes) s))
      → Keeps (send_buffer sock buffer n)
  send_buffer-Keeps sock buffer n h =
      if-Keeps (leb n (length buffer)) _ fault (ask-Keeps _ _ (h (take n buffer))) fault-Keeps
