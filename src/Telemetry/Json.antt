-- ===== src/Telemetry/Json.antt =====
-- The values that `JSON.parse` gives. A number is an exact fraction with a sign.
use lengentic.Base.{ℕ, Bool, List, [], ◌∷◌}
use lengentic.Base.Text.{Text}

-- `num / (suc den)`, or its negative.
pub record Number : Type 0 where
  pub negative : Bool
  pub num : ℕ
  pub den : ℕ

mutual
  pub data Json : Type 0 where
    null : Json
    boolean : Bool → Json
    number : Number → Json
    string : Text → Json
    array : Items → Json
    object : Members → Json

  pub data Items : Type 0 where
    no_items : Items
    item : Json → Items → Items

  pub data Members : Type 0 where
    no_members : Members
    member : Text → Json → Members → Members

abbrev pub items : Items → List Json
items no_items = []
items (item v vs) = v ∷ items vs

abbrev pub entries : Members → List (Text × Json)
entries no_members = []
entries (member k v ms) = (k, v) ∷ entries ms

abbrev pub values : Members → List Json
values no_members = []
values (member k v ms) = v ∷ values ms
