-- ===== src/Optional.antt =====
-- herdr/optional.go: a field that is absent, an explicit null, or a value. The names `Some`, `Null`
-- and `Optional[T]{}` of the source are `some_value`, `null_value` and `absent_value`.
pub mod Coding
use herdr_client.Prelude.{Bool, true, false, Option, none, some, Zero}

pub data OptionalState : Type 0 where
  absent null value : OptionalState

pub record Optional {ℓ} (A : Type ℓ) : Type ℓ where
  pub content : A
  pub state : OptionalState

module _ {ℓ} {A : Type ℓ} where
  unfoldable pub some_value : A → Optional A
  some_value v = record { content = v; state = OptionalState.value }

  unfoldable pub null_value : ⦃z : Zero A⦄ → Optional A
  null_value ⦃z⦄ = record { content = z.zero_value; state = OptionalState.null }

  -- Optional[T]{}
  unfoldable pub absent_value : ⦃z : Zero A⦄ → Optional A
  absent_value ⦃z⦄ = record { content = z.zero_value; state = OptionalState.absent }

  abbrev present : A → OptionalState → Option A
  present v OptionalState.value = some v
  present v _ = none

  -- The value and true only in the present-value state.
  unfoldable pub get : Optional A → Option A
  get o = present o.content o.state

  unfoldable pub value_or_zero : Optional A → A
  value_or_zero o = o.content

  unfoldable pub is_set : Optional A → Bool
  is_set o = elim o.state [ OptionalState.absent ↦ false | _ ↦ true ]

  unfoldable pub is_null : Optional A → Bool
  is_null o = elim o.state [ OptionalState.null ↦ true | _ ↦ false ]

  unfoldable pub is_zero : Optional A → Bool
  is_zero o = elim o.state [ OptionalState.absent ↦ true | _ ↦ false ]

instance abbrev pub optional_zero {ℓ} : {A : Type ℓ} ⦃z : Zero A⦄ → Zero (Optional A)
optional_zero ⦃z⦄ = record {
  zero_value = record { content = z.zero_value; state = OptionalState.absent };
}
