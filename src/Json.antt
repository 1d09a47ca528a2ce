-- ===== src/Json.antt =====
-- What encoding/json decodes a reply into: `map[string]any` and the values below it.
use pulumi_eos.Base.{Bool, Option, none, some, if◌then◌else◌}
use pulumi_eos.Text.{Str, str_eq}

mutual
  pub data Value : Type 0 where
    null : Value
    bool : Bool → Value
    -- the digits as they were sent; no resource looks into a number
    num : Str → Value
    string : Str → Value
    array : Items → Value
    object : Fields → Value

  pub data Items : Type 0 where
    nil : Items
    cons : Value → Items → Items

  -- a map: the keys are different
  pub data Fields : Type 0 where
    empty : Fields
    field : Str → Value → Fields → Fields

unfoldable pub get : Fields → Str → Option Value
unfolding str_eq
get empty k = none
get (field j v rest) k = if str_eq j k then some v else get rest k

-- `v, ok := m[k].(string)` and `v, ok := m[k].(map[string]any)`.
abbrev pub as_string : Option Value → Option Str
as_string (some (string s)) = some s
as_string _ = none

abbrev pub as_object : Option Value → Option Fields
as_object (some (object m)) = some m
as_object _ = none
