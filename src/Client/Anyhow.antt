-- ===== src/Client/Anyhow.antt =====
-- `anyhow::Result`: the text of an error, or a value, with the `?` operator.
use anywhere_mesh.Base.{Text, ◌⊎◌, inl, inr, Option, none, some, ◌≡◌, refl, ap, arith}

abbrev pub Anyhow {ℓ} : Type ℓ → Type ℓ
Anyhow A = Text ⊎ A

infixl 5 ◌>>=◌
abbrev pub ◌>>=◌ {ℓ κ} : {A : Type ℓ} {B : Type κ} → Anyhow A → (A → Anyhow B) → Anyhow B
inl e >>= f = inl e
inr a >>= f = f a

-- option.ok_or_else(|| anyhow!(error))?
abbrev pub ok_or {ℓ} : {A : Type ℓ} → Text → Option A → Anyhow A
ok_or error none = inl error
ok_or error (some a) = inr a

-- option.unwrap_or(other)
abbrev pub unwrap_or {ℓ} : {A : Type ℓ} → A → Option A → A
unwrap_or other none = other
unwrap_or other (some a) = a

-- What a chain that succeeds went through.
pub >>=-inr {ℓ κ} :
    {A : Type ℓ} {B : Type κ} (m : Anyhow A) (f : A → Anyhow B) (b : B)
    → (m >>= f) ≡ inr b
    → (a : A) × (m ≡ inr a) × (f a ≡ inr b)
>>=-inr (inl e) f b h = absurd (ground arith)
>>=-inr (inr a) f b h = (a, refl, h)

pub ok_or-inr {ℓ} :
    {A : Type ℓ} (error : Text) (o : Option A) (a : A) → ok_or error o ≡ inr a → o ≡ some a
ok_or-inr error none a h = absurd (ground arith)
ok_or-inr error (some b) a h = ground arith

value_or {ℓ} : {A : Type ℓ} → A → Anyhow A → A
value_or other (inl e) = other
value_or other (inr a) = a

pub inr-injective {ℓ} : {A : Type ℓ} (a b : A) → ◌≡◌ {A = Anyhow A} (inr a) (inr b) → a ≡ b
unfolding value_or
inr-injective a b h = ap (value_or a) h

pub Anyhow-cases {ℓ} :
    {A : Type ℓ} (m : Anyhow A) → ((e : Text) × (m ≡ inl e)) ⊎ ((a : A) × (m ≡ inr a))
Anyhow-cases (inl e) = inl (e, refl)
Anyhow-cases (inr a) = inr (a, refl)
