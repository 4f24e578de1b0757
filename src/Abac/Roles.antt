-- ===== src/Abac/Roles.antt =====
-- The roles that a subject has by inheritance (packages/security/src/abac.ts,
-- `RoleHierarchyResolver`).
use Prim.Native.String.{String}
use text.Mathlib.Text.{◌==◌ as str_eq}
use text.Mathlib.TextEquality.{eq_iff}
use edge_cloud_orchestrator.Prelude.{
  Bool, true, List, [], ◌∷◌, ◌++◌, ◌≡◌, refl, ◌∙◌, ◌||◌, any, arith, Bool-cases, inl, inr,
}
use edge_cloud_orchestrator.Abac.Engine.{
  has_role, add_role, add_roles, role_hierarchy, effective_roles,
}

has_role-append :
    (a : String) (xs ys : List String) → has_role a (xs ++ ys) ≡ (has_role a xs || has_role a ys)
has_role-append a [] ys = refl
has_role-append a (x ∷ xs) ys = ground (arith, has_role-append a xs ys)

has_role_same :
    (a b : String) (xs : List String) → str_eq b a ≡ true → has_role a xs ≡ has_role b xs
has_role_same a b xs h = rw ((eq_iff b a).0 h)

has_role-add_role :
    (a b : String) (xs : List String) → has_role a (add_role b xs) ≡ (str_eq b a || has_role a xs)
has_role-add_role a b xs = elim (Bool-cases (has_role b xs)) [
  | inl h ↦ rw h (ground (arith, has_role_same a b xs))
  | inr h ↦ rw h (has_role-append a xs (b ∷ []) ∙ ground arith)
]

has_role-add_roles :
    (a : String) (bs xs : List String)
    → has_role a (add_roles bs xs) ≡ (has_role a bs || has_role a xs)
unfolding add_roles
has_role-add_roles a [] xs = refl
has_role-add_roles a (b ∷ bs) xs =
    ground (arith, has_role-add_roles a bs (add_role b xs), has_role-add_role a b xs)

-- A role gives another: it is that role, or stands above it in the hierarchy.
abbrev pub gives : String → String → Bool
gives a role = str_eq role a || has_role a (role_hierarchy role)

regroup :
    (inherited own before later : Bool)
    → ((inherited || (own || before)) || later) ≡ (before || ((own || inherited) || later))
regroup inherited own before later = ground arith

has_role-effective_roles :
    (a : String) (roles xs : List String)
    → has_role a (effective_roles roles xs) ≡ (has_role a xs || any (gives a) roles)
unfolding effective_roles
has_role-effective_roles a [] xs = ground arith
has_role-effective_roles a (role ∷ roles) xs =
    has_role-effective_roles a roles (add_roles (role_hierarchy role) (add_role role xs))
    ∙ rw
        (has_role-add_roles a (role_hierarchy role) (add_role role xs), has_role-add_role a role xs)
        (regroup (has_role a (role_hierarchy role)) (str_eq role a) (has_role a xs)
          (any (gives a) roles))

-- A role is among the effective roles exactly if one of the subject's roles gives it.
pub effective_roles-gives :
    (a : String) (roles : List String) → has_role a (effective_roles roles []) ≡ any (gives a) roles
effective_roles-gives a roles = has_role-effective_roles a roles []
