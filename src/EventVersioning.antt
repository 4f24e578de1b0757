-- ===== src/EventVersioning.antt =====
-- packages/shared-kernel/src/event-versioning.ts, the class `EventVersioningService`. A version is the
-- number after its `v`, event types and values are numbers, and so are the names of fields; an error of `validateEvent` is a field
-- and what is wrong with it. A field's declared type is its name and whether it ends in `?`; for a type
-- that is itself an object, the name that the code compares is the text `[object Object]`. Metadata,
-- the warnings and the creation of events are left out.
use edge_cloud_orchestrator.Prelude.{
  ℕ, suc, zero, Bool, true, false, List, [], ◌∷◌, ◌++◌, Option, none, some, ltb, ◌==◌,
  if◌then◌else◌, ◌&&◌, ◌||◌, not, any, length,
}
use edge_cloud_orchestrator.Prelude.Dict.{get, put}
pub mod Defaults
pub mod Upgrades
mod Examples

-- The values of a payload. A field that is not there has the value undefined.
mutual
  pub data Json : Type 0 where
    undefined null_value : Json
    text number : ℕ → Json
    truth : Bool → Json
    array : Fields → Json
    object : Fields → Json

  pub data Fields : Type 0 where
    no_fields : Fields
    field : ℕ → Json → Fields → Fields

-- Whether a field is in a payload, the value it has, and its assignment.
unfoldable pub has_field : ℕ → Fields → Bool
has_field k no_fields = false
has_field k (field j v p) = j == k || has_field k p

unfoldable pub value_of : ℕ → Fields → Json
value_of k no_fields = undefined
value_of k (field j v p) = let rest = value_of k p in if j == k then v else rest

unfoldable pub set_field : ℕ → Json → Fields → Fields
set_field k v no_fields = field k v no_fields
set_field k v (field j w p) =
    let rest = set_field k v p in if j == k then field k v p else field j w rest

pub record VersionedEvent : Type 0 where
  pub event_id : ℕ
  pub event_type : ℕ
  pub version : ℕ
  pub timestamp : ℕ
  pub source : ℕ
  pub payload : Fields

pub data TypeName : Type 0 where
  string_type number_type boolean_type object_type array_type nested_type : TypeName

pub record FieldType : Type 0 where
  pub of : TypeName
  pub is_optional : Bool

pub record EventSchema : Type 0 where
  pub version : ℕ
  pub event_type : ℕ
  pub schema : List (ℕ × FieldType)
  pub upconvert_from : Option ℕ
  pub upconverter : VersionedEvent → VersionedEvent

pub record Registration : Type 0 where
  pub current_version : ℕ
  pub supported_versions : List ℕ
  pub schemas : List (ℕ × EventSchema)

-- The registration of an event type, where none is there yet.
abbrev pub registration_of : EventSchema → Option Registration → Registration
registration_of s none = record {
  current_version = s.version;
  supported_versions = s.version ∷ [];
  schemas = [];
}
registration_of s (some r) = r

abbrev pub with_schema : EventSchema → Registration → Registration
with_schema s r = record {
  current_version = if ltb r.current_version s.version then s.version else r.current_version;
  supported_versions = r.supported_versions ++ s.version ∷ [];
  schemas = put s.version s r.schemas;
}

unfoldable pub register_schema : List (ℕ × Registration) → EventSchema → List (ℕ × Registration)
register_schema rs s = put s.event_type (with_schema s (registration_of s (get s.event_type rs))) rs

-- The name of a value's type; null and undefined are not looked at.
abbrev pub type_of : Json → Option TypeName
type_of undefined = none
type_of null_value = none
type_of (text t) = some string_type
type_of (number n) = some number_type
type_of (truth b) = some boolean_type
type_of (array p) = some array_type
type_of (object p) = some object_type

abbrev pub same_type : TypeName → TypeName → Bool
same_type string_type string_type = true
same_type number_type number_type = true
same_type boolean_type boolean_type = true
same_type object_type object_type = true
same_type array_type array_type = true
same_type nested_type nested_type = true
same_type _ _ = false

pub data FieldError : Type 0 where
  missing_field wrong_type : ℕ → FieldError

abbrev pub type_errors : ℕ → TypeName → Option TypeName → List FieldError
type_errors k t none = []
type_errors k t (some u) =
    if not (same_type t u) && not (same_type t object_type) then wrong_type k ∷ [] else []

-- The loop of `validateEvent`.
unfoldable pub field_errors : List (ℕ × FieldType) → Fields → List FieldError
field_errors [] p = []
field_errors ((k, t) ∷ ts) p =
    let rest = field_errors ts p in
    (if has_field k p
      then type_errors k t.of (type_of (value_of k p))
      else (if t.is_optional then [] else missing_field k ∷ []))
    ++ rest

pub data Validation : Type 0 where
  unknown_type : Validation
  unsupported_version : ℕ → Validation
  checked : List FieldError → Validation

abbrev pub check_schema : VersionedEvent → Option EventSchema → Validation
check_schema e none = unsupported_version e.version
check_schema e (some s) = checked (field_errors s.schema e.payload)

unfoldable pub validate_event : List (ℕ × Registration) → VersionedEvent → Validation
validate_event rs e = elim (get e.event_type rs) [
  | none ↦ unknown_type
  | some r ↦ check_schema e (get e.version r.schemas)
]

-- What `convertToVersion` gives: an event, an error, or nothing while it has not come to an end.
pub data Conversion : Type 0 where
  converted : VersionedEvent → Conversion
  cannot_convert no_upconverter : ℕ → Conversion
  goes_on : Conversion

abbrev pub comes_from : Option ℕ → ℕ → Bool
comes_from none v = false
comes_from (some u) v = u == v

-- The first version that is converted from another, or the target if there is none.
unfoldable pub next_version : List (ℕ × EventSchema) → ℕ → ℕ → ℕ
next_version [] current target = target
next_version ((v, s) ∷ ss) current target =
    let rest = next_version ss current target in
    if comes_from s.upconvert_from current then v else rest

abbrev pub has_source : Option ℕ → Bool
has_source none = false
has_source (some v) = true

unfoldable pub convert_loop : ℕ → List (ℕ × EventSchema) → ℕ → ℕ → VersionedEvent → Conversion
convert_loop zero ss current target e = goes_on
convert_loop (suc fuel) ss current target e = elim (current == target) [
  | true ↦ converted e
  | false ↦ elim (get current ss) [
    | none ↦ no_upconverter current
    | some s ↦ elim (has_source s.upconvert_from) [
      | false ↦ no_upconverter current
      | true ↦ convert_loop fuel ss (next_version ss current target) target (s.upconverter e)
    ]
  ]
]

unfoldable pub convert_to_version : ℕ → List (ℕ × Registration) → VersionedEvent → ℕ → Conversion
convert_to_version fuel rs e target = elim (e.version == target) [
  | true ↦ converted e
  | false ↦ elim (get e.event_type rs) [
    | none ↦ converted e
    | some r ↦ elim (get e.version r.schemas) [
      | none ↦ cannot_convert e.version
      | some s ↦ elim (get target r.schemas) [
        | none ↦ cannot_convert e.version
        | some t ↦ convert_loop fuel r.schemas e.version target e
      ]
    ]
  ]
]

unfoldable pub is_version_supported : List (ℕ × Registration) → ℕ → ℕ → Bool
is_version_supported rs t v = elim (get t rs) [
  | none ↦ true
  | some r ↦ any (λ u. u == v) r.supported_versions
]
