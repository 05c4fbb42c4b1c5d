-- ===== src/Base/Outcomes.antt =====
-- What a fallible operation returns: its value, or the exception that it raises.
-- The exceptions that the modelled code raises, by the place that raises them.
pub data Error : Type 0 where
  integrity : Error
  not_found : Error
  invalid : Error
  unsupported : Error
  exceeded : Error
  incomplete : Error
  multiple_results : Error
  internal : Error

pub data Result {ℓ} (A : Type ℓ) : Type ℓ where
  ok : A → Result A
  raise : Error → Result A

infixl 5 ◌>>=◌
abbrev pub ◌>>=◌ {ℓ κ} : {A : Type ℓ} {B : Type κ} → Result A → (A → Result B) → Result B
ok a >>= f = f a
raise e >>= f = raise e
