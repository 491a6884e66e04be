-- ===== src/Optional/Coding.antt =====
-- herdr/optional.go: writing an optional field as JSON, and reading it again.
use herdr_client.Prelude.{◌≡◌, ◌≢◌, refl, ap, Zero, Option, none, some}
use herdr_client.Json.{Json, null, boolean, number, other_number, text, array, object}
use herdr_client.Optional.{OptionalState, Optional, some_value, null_value}

module _ {A : Type 0} where
  abbrev marshal_state : (A → Option Json) → A → OptionalState → Option Json
  marshal_state marshal v OptionalState.value = marshal v
  marshal_state marshal v _ = some null

  -- MarshalJSON, with json.Marshal on the values; an error is `none`
  unfoldable pub marshal_optional : (A → Option Json) → Optional A → Option Json
  marshal_optional marshal o = marshal_state marshal o.content o.state

  abbrev present_value : Option A → Option (Optional A)
  present_value none = none
  present_value (some v) = some (some_value v)

  -- UnmarshalJSON, with json.Unmarshal into a value
  unfoldable pub unmarshal_optional : ⦃z : Zero A⦄ → (Json → Option A) → Json → Option (Optional A)
  unfolding some_value null_value
  unmarshal_optional ⦃z⦄ unmarshal null = some (null_value ⦃z = z⦄)
  unmarshal_optional unmarshal j = present_value (unmarshal j)

  -- a value that is not written as null is read back as it was
  pub unmarshal_optional-marshal_optional :
      ⦃z : Zero A⦄
      → (marshal : A → Option Json) (unmarshal : Json → Option A) (v : A) (j : Json)
      → marshal v ≡ some j
      → j ≢ null
      → unmarshal j ≡ some v
      → (marshal_optional marshal (some_value v) ≡ some j)
        × (unmarshal_optional unmarshal j ≡ some (some_value v))
  unfolding marshal_optional unmarshal_optional some_value
  unmarshal_optional-marshal_optional marshal unmarshal v j m n u = (m, reads j n u)
    where
      reads :
          (j : Json)
          → j ≢ null
          → unmarshal j ≡ some v
          → unmarshal_optional unmarshal j ≡ some (some_value v)
      reads null n u = absurd (n refl)
      reads (boolean b) n u = ap present_value u
      reads (number k) n u = ap present_value u
      reads (other_number t) n u = ap present_value u
      reads (text t) n u = ap present_value u
      reads (array xs) n u = ap present_value u
      reads (object ms) n u = ap present_value u
