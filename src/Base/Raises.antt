-- ===== src/Base/Raises.antt =====
-- Computations that raise errors of a type, and the sequencing of them.

pub data Raises {ℓ κ} (E : Type ℓ) (A : Type κ) : Type (ℓ ⊔ κ) where
  raises : E → Raises E A
  gives : A → Raises E A

infixl 5 ◌>>=◌
abbrev pub ◌>>=◌ {ℓ κ μ} :
    {E : Type ℓ} {A : Type κ} {B : Type μ} → Raises E A → (A → Raises E B) → Raises E B
raises error >>= next = raises error
gives a >>= next = next a

-- What is given has the property, and what is raised too.
abbrev pub Gives {ℓ κ} :
    {E : Type ℓ} {A : Type κ} → (E → Type 0) → (A → Type 0) → Raises E A → Type 0
Gives R P (raises error) = R error
Gives R P (gives a) = P a

pub >>=-Gives {ℓ κ μ} :
    {E : Type ℓ} {A : Type κ} {B : Type μ} (R : E → Type 0) (P : A → Type 0) (Q : B → Type 0)
    (x : Raises E A) (next : A → Raises E B)
    → Gives R P x
    → ((a : A) → P a → Gives R Q (next a))
    → Gives R Q (x >>= next)
>>=-Gives R P Q (raises error) next h rest = h
>>=-Gives R P Q (gives a) next h rest = rest a h
