-- ===== src/Prelude/Zeros.antt =====
-- The zero values of Go's types.
use Prim.Native.Nat.{ℕ}
use Prim.Native.String.{String}
use mathlib.Core.Bool.{Bool, false}
use mathlib.Core.Option.{Option, none}
use mathlib.Core.List.{List, []}

pub record Zero {ℓ} (A : Type ℓ) : Type ℓ where
  pub zero_value : A

instance abbrev pub nat_zero : Zero ℕ
nat_zero = record { zero_value = 0 }

instance abbrev pub string_zero : Zero String
string_zero = record { zero_value = "" }

instance abbrev pub bool_zero : Zero Bool
bool_zero = record { zero_value = false }

instance abbrev pub list_zero {ℓ} : {A : Type ℓ} → Zero (List A)
list_zero = record { zero_value = [] }

instance abbrev pub map_zero {ℓ} : {A : Type ℓ} → Zero (String → Option A)
map_zero = record { zero_value = λ k. none }
