-- ===== src/Agentcore/Json.antt =====
-- The arguments of a tool call: what `encoding/json` decodes into a `map[string]any`. A number is
-- its text, and the fields of an object stand in the order of their names, so that two maps are
-- equal if and only if their lists are.
use famclaw.Prelude.{Bool, true, false, ◌&&◌, String, Option, none, some, if◌then◌else◌}
use famclaw.Prelude.Text.{str_eq}

mutual
  pub data Value : Type 0 where
    null : Value
    boolean : Bool → Value
    number : String → Value
    text : String → Value
    array : Values → Value
    object : Fields → Value

  pub data Values : Type 0 where
    nil : Values
    cons : Value → Values → Values

  pub data Fields : Type 0 where
    end : Fields
    field : String → Value → Fields → Fields

abbrev same_bool : Bool → Bool → Bool
same_bool true b = b
same_bool false true = false
same_bool false false = true

-- `reflect.DeepEqual`
unfoldable mutual
  pub equal_values : Value → Value → Bool
  equal_values null null = true
  equal_values (boolean a) (boolean b) = same_bool a b
  equal_values (number a) (number b) = str_eq a b
  equal_values (text a) (text b) = str_eq a b
  equal_values (array a) (array b) = equal_lists a b
  equal_values (object a) (object b) = equal_fields a b
  equal_values _ _ = false

  pub equal_lists : Values → Values → Bool
  equal_lists nil nil = true
  equal_lists (cons a l) (cons b m) = equal_values a b && equal_lists l m
  equal_lists _ _ = false

  pub equal_fields : Fields → Fields → Bool
  equal_fields end end = true
  equal_fields (field k a l) (field j b m) = str_eq k j && equal_values a b && equal_fields l m
  equal_fields _ _ = false

unfoldable pub deep_equal : Fields → Fields → Bool
unfolding equal_values equal_lists equal_fields
deep_equal a b = equal_fields a b

-- `args[name].(string)`
unfoldable pub text_arg : String → Fields → Option String
text_arg name end = none
text_arg name (field k (text t) rest) = if str_eq k name then some t else text_arg name rest
text_arg name (field k _ rest) = if str_eq k name then none else text_arg name rest
