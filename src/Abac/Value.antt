-- ===== src/Abac/Value.antt =====
-- The attribute values of packages/security/src/abac.ts (`any`), and what its conditions compute
-- with them. Numbers are natural numbers. Two arrays or two objects are never `===`, since a
-- request and a policy do not share theirs. A path is given as the list that `split('.')` makes.
use Prim.Native.String.{String}
use text.Mathlib.Text.{◌==◌ as str_eq}
use edge_cloud_orchestrator.Prelude.{
  ℕ, Bool, true, false, List, [], ◌∷◌, Option, ◌==◌, ◌||◌, if◌then◌else◌,
}

mutual
  pub data Value : Type 0 where
    undefined null : Value
    bool : Bool → Value
    num : ℕ → Value
    str : String → Value
    arr : Values → Value
    obj : Fields → Value

  pub data Values : Type 0 where
    nil : Values
    cons : Value → Values → Values

  pub data Fields : Type 0 where
    end : Fields
    field : String → Value → Fields → Fields

bool_eq : Bool → Bool → Bool
bool_eq true b = b
bool_eq false true = false
bool_eq false false = true

-- `===`, and the comparison of `includes`.
unfoldable pub strict_equals : Value → Value → Bool
unfolding bool_eq
strict_equals undefined undefined = true
strict_equals null null = true
strict_equals (bool a) (bool b) = bool_eq a b
strict_equals (num a) (num b) = a == b
strict_equals (str a) (str b) = str_eq a b
strict_equals _ _ = false

unfoldable pub includes_value : Values → Value → Bool
unfolding strict_equals
includes_value nil v = false
includes_value (cons w ws) v = strict_equals w v || includes_value ws v

-- `o?.[p]`.
lookup_field : String → Fields → Value
lookup_field p end = undefined
lookup_field p (field k v fs) = if str_eq k p then v else lookup_field p fs

-- What JavaScript does where the program leaves the work to the language: `Number(v)` where `>` and
-- `<` compare with something else than a number (`none` for NaN), `new RegExp(v).test(String(w))`, and
-- `v[p]` where v is an array, a text, a number or a Boolean. The patterns of the policies are ones that
-- `RegExp` accepts: it throws at others.
pub record Js : Type 0 where
  pub to_number : Value → Option ℕ
  pub regex_test : Value → Value → Bool
  pub property_of : Value → String → Value

-- `o?.[p]`, where an object has its own fields only.
unfoldable pub get_field : Js → Value → String → Value
unfolding lookup_field
get_field js undefined p = undefined
get_field js null p = undefined
get_field js (obj fs) p = lookup_field p fs
get_field js v p = js.property_of v p

-- `getNestedAttribute`.
unfoldable pub get_nested_attribute : Js → Value → List String → Value
unfolding get_field
get_nested_attribute js v [] = v
get_nested_attribute js v (p ∷ ps) = get_nested_attribute js (get_field js v p) ps

-- `attributes[name] = value`.
unfoldable pub set_field : String → Value → Fields → Fields
set_field k v end = field k v end
set_field k v (field j w fs) = if str_eq j k then field k v fs else field j w (set_field k v fs)
