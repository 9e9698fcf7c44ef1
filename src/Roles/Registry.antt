-- ===== src/Roles/Registry.antt =====
-- `role_family` and its tests of models/types.py, and the role factories of
-- server/roles/registry.py. A factory is a value of a type `F`.
use aiosendspin.Prelude.{
  ℕ, String, ◌≡◌, refl, Bool, true, false, not, Option, none, some, List, [], ◌∷◌, ◌++◌, select,
  any, is_some, str_eq, eq_iff, if◌then◌else◌, arith,
}
use aiosendspin.Prelude.Dict.{Dict, get, put, get-put}
use text.Mathlib.Text.{find?, get?}

abbrev pub up_to : String → Option ℕ → String
up_to s none = s
up_to s (some i) = elim (get? s 0 i) [ none ↦ s | some t ↦ t ]

-- `role_id.split("@", 1)[0]`
unfoldable pub role_family : String → String
role_family role_id = up_to role_id (find? role_id "@")

unfoldable pub has_role_family : String → List String → Bool
has_role_family name supported = any (λ r. str_eq (role_family r) name) supported

unfoldable pub has_role : String → List String → Bool
has_role role_id supported = has_role_family (role_family role_id) supported

family_of_player : role_family "player@v1" ≡ "player"
unfolding role_family
family_of_player = refl

abbrev pub has_item : String → List String → Bool
has_item x xs = any (λ y. str_eq y x) xs

-- ROLE_FACTORIES and PAIRING_REQUIRED_ROLE_IDS
pub record Registry (F : Type 0) : Type 0 where
  pub factories : Dict F
  pub pairing_required : List String

abbrev pub add : String → List String → List String
add x xs = if has_item x xs then xs else xs ++ x ∷ []

abbrev pub discard : String → List String → List String
discard x xs = select (λ y. not (str_eq y x)) xs

module _ {F : Type 0} where
  unfoldable pub register_role : String → F → Bool → Registry F → Registry F
  register_role role_id factory requires_pairing r = record {
    factories = put role_id factory r.factories;
    pairing_required =
        if requires_pairing
        then add role_id r.pairing_required
        else discard role_id r.pairing_required;
  }

  unfoldable pub role_requires_pairing : String → Registry F → Bool
  role_requires_pairing role_id r = has_item role_id r.pairing_required

  -- The factory that `create_role` calls.
  abbrev pub create_role : String → Registry F → Option F
  create_role role_id r = get role_id r.factories

  abbrev pub is_registered : Registry F → String → Bool
  is_registered r role_id = is_some (get role_id r.factories)

has_item-append :
    (x y : String) (ys : List String)
    → has_item x (ys ++ y ∷ []) ≡ (if str_eq y x then true else has_item x ys)
unfolding any
has_item-append x y [] = refl
has_item-append x y (z ∷ zs) = ground (arith, has_item-append x y zs)

has_item-add :
    (x y : String) (ys : List String)
    → has_item x (add y ys) ≡ (if str_eq y x then true else has_item x ys)
has_item-add x y ys = ground (arith, has_item-append x y ys, eq_iff y x)

has_item-discard :
    (x y : String) (ys : List String)
    → has_item x (discard y ys) ≡ (if str_eq y x then false else has_item x ys)
unfolding any select
has_item-discard x y [] = ground arith
has_item-discard x y (z ∷ zs) =
    ground (arith, has_item-discard x y zs, eq_iff z x, eq_iff z y, eq_iff y x)

module _ {F : Type 0} where
  -- Registering a role sets its factory and whether it needs pairing, whatever was registered
  -- before, and leaves every other role as it was.
  register_role_lem :
      (j k : String) (factory : F) (requires_pairing : Bool) (r : Registry F)
      → (let after = register_role k factory requires_pairing r in
          (create_role j after ≡ (if str_eq k j then some factory else create_role j r))
          × (role_requires_pairing j after
              ≡ (if str_eq k j then requires_pairing else role_requires_pairing j r)))
  unfolding register_role role_requires_pairing
  register_role_lem j k factory true r =
      (get-put k j factory r.factories, has_item-add j k r.pairing_required)
  register_role_lem j k factory false r =
      (get-put k j factory r.factories, has_item-discard j k r.pairing_required)
