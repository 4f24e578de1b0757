-- ===== src/Abac/Policy.antt =====
-- packages/security/src/abac.ts: requests, policies, and whether a policy matches a request.
use Prim.Native.String.{String}
use edge_cloud_orchestrator.Prelude.{
  ℕ, Bool, true, false, List, Option, none, some, ltb, not, ◌&&◌, all,
}
use edge_cloud_orchestrator.Abac.Value.{
  Value, undefined, null, num, arr, obj, Fields, Js, strict_equals, includes_value,
  get_nested_attribute,
}

pub data SubjectType : Type 0 where
  user service agent : SubjectType

pub record Subject : Type 0 where
  pub id : String
  pub type : SubjectType
  pub attributes : Fields
  pub roles : List String

pub record Resource : Type 0 where
  pub id : String
  pub type : String
  pub attributes : Fields

pub record Action : Type 0 where
  pub name : String
  pub attributes : Fields

-- `environment` holds the fields of `Environment` and any others, `time` as the local hour and day.
pub record Environment : Type 0 where
  pub hours : ℕ
  pub day : ℕ
  pub fields : Fields

pub record AccessRequest : Type 0 where
  pub subject : Subject
  pub resource : Resource
  pub action : Action
  pub environment : Environment

pub data Effect : Type 0 where
  allow deny : Effect

pub data ConditionType : Type 0 where
  equals not_equals in_ not_in contains not_contains greater_than less_than regex exists :
      ConditionType

pub record PolicyCondition : Type 0 where
  pub type : ConditionType
  pub attribute : List String
  pub value : Value

pub record Obligation : Type 0 where
  pub type : String
  pub params : Fields

pub record Policy : Type 0 where
  pub id : String
  pub name : String
  pub description : String
  pub effect : Effect
  pub subjects : List PolicyCondition
  pub resources : List PolicyCondition
  pub actions : List PolicyCondition
  pub environments : List PolicyCondition
  pub obligations : List Obligation
  pub priority : ℕ

-- `a > b` at a number a, `b` being anything.
abbrev pub greater : ℕ → Option ℕ → Bool
greater a none = false
greater a (some b) = ltb b a

abbrev pub less : ℕ → Option ℕ → Bool
less a none = false
less a (some b) = ltb a b

module _ (js : Js) where
  -- The `switch` of `conditionMatches`. `not_contains` is a type of the interface, and falls through
  -- to the default.
  unfoldable pub test_condition : ConditionType → Value → Value → Bool
  test_condition equals a v = strict_equals a v
  test_condition not_equals a v = not (strict_equals a v)
  test_condition in_ a v = elim v [ arr vs ↦ includes_value vs a | _ ↦ false ]
  test_condition not_in a v = elim v [ arr vs ↦ not (includes_value vs a) | _ ↦ false ]
  test_condition contains a v = elim a [ arr vs ↦ includes_value vs v | _ ↦ false ]
  test_condition greater_than a v = elim a [ num n ↦ greater n (js.to_number v) | _ ↦ false ]
  test_condition less_than a v = elim a [ num n ↦ less n (js.to_number v) | _ ↦ false ]
  test_condition regex a v = js.regex_test v a
  test_condition exists a v = elim a [ undefined ↦ false | null ↦ false | _ ↦ true ]
  test_condition not_contains a v = false

  unfoldable pub condition_matches : Fields → PolicyCondition → Bool
  condition_matches attributes c =
      test_condition c.type (get_nested_attribute js (obj attributes) c.attribute) c.value

  -- The early return of `conditionsMatch` at no condition is what `every` gives too.
  unfoldable pub conditions_match : List PolicyCondition → Fields → Bool
  conditions_match conditions attributes = all (condition_matches attributes) conditions

  unfoldable pub policy_matches : Policy → AccessRequest → Bool
  policy_matches p r =
      conditions_match p.subjects r.subject.attributes
      && (conditions_match p.resources r.resource.attributes
          && (conditions_match p.actions r.action.attributes
              && conditions_match p.environments r.environment.fields))
