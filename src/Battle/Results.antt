-- ===== src/Battle/Results.antt =====
-- The error results of src/service/battle/sync/room.go.
use heli.Common.{◌≡◌, ◌⊎◌, inl, inr, refl, Bool, true, false, Option, none, some, int_eq}
use heli.Battle.Types.{ErrorCode}

-- The error results of room.go: a value, or the code of an error.
pub data Result {ℓ} (A : Type ℓ) : Type ℓ where
  accept : A → Result A
  refuse : ErrorCode → Result A

pub Result-cases {ℓ} :
    {A : Type ℓ} (x : Result A)
    → ((code : ErrorCode) × (x ≡ refuse code)) ⊎ ((a : A) × (x ≡ accept a))
Result-cases (accept a) = inr (a, refl)
Result-cases (refuse code) = inl (code, refl)

infixl 5 ◌>>=◌ ◌>>◌
abbrev pub ◌>>=◌ {ℓ κ} : {A : Type ℓ} {B : Type κ} → Result A → (A → Result B) → Result B
accept a >>= f = f a
refuse e >>= f = refuse e

abbrev pub ◌>>◌ {ℓ} : {B : Type ℓ} → Result (Unit {0}) → Result B → Result B
m >> k = m >>= λ _. k

-- `if test { return code }`
abbrev pub refuse_if : Bool → ErrorCode → Result (Unit {0})
refuse_if true code = refuse code
refuse_if false code = accept tt

-- `if !ok { return code }`
abbrev pub or_refuse {ℓ} : {A : Type ℓ} → Option A → ErrorCode → Result A
or_refuse none code = refuse code
or_refuse (some a) code = accept a
