-- ===== src/Json.antt =====
-- The values that encoding/json reads and writes. A text stands for the value that it encodes; a number
-- that is no integer from 0 on is `other_number` with its text. How json.Unmarshal finds a member of an
-- object for a field of a struct is a parameter where it is needed.
use herdr_client.Prelude.{ℕ, String, Bool, Option, none, some}

mutual
  pub data Json : Type 0 where
    null : Json
    boolean : Bool → Json
    number : ℕ → Json
    other_number : String → Json
    text : String → Json
    array : Items → Json
    object : Members → Json

  pub data Items : Type 0 where
    no_item : Items
    item : Json → Items → Items

  pub data Members : Type 0 where
    no_member : Members
    member : String → Json → Members → Members

-- an object with one member
abbrev pub object_of : String → Json → Json
object_of key value = object (member key value no_member)

-- json.Unmarshal into a string, which a null leaves empty
unfoldable pub to_text : Json → Option String
to_text null = some ""
to_text (text s) = some s
to_text _ = none
