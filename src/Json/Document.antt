-- ===== src/Json/Document.antt =====
-- The values of a JSON document after `json.loads`.
use skivolve.Base.{String, Bool, List, [], ◌∷◌}
use skivolve.Base.Int.{ℤ}

-- A finite float is a multiple of 2^-1074, the least positive double: `finite n` is n units.
-- `infinite true` is the negative infinity.
pub data Float : Type 0 where
  finite : ℤ → Float
  infinite : Bool → Float
  not_a_number : Float

mutual
  pub data Value : Type 0 where
    null : Value
    bool : Bool → Value
    int : ℤ → Value
    float : Float → Value
    str : String → Value
    arr : Items → Value
    obj : Fields → Value

  pub data Fields : Type 0 where
    end : Fields
    field : String → Value → Fields → Fields

  pub data Items : Type 0 where
    nil : Items
    cons : Value → Items → Items

unfoldable pub items : Items → List Value
items nil = []
items (cons v vs) = v ∷ items vs

unfoldable pub entries : Fields → List (String × Value)
entries end = []
entries (field k v fs) = (k, v) ∷ entries fs

unfoldable pub names : Fields → List String
names end = []
names (field k v fs) = k ∷ names fs
