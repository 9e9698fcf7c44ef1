-- ===== src/Roles/First.antt =====
-- The negotiated role of a family is the first that qualifies in the client's order.
use aiosendspin.Prelude.{
  String, ◌≡◌, Bool, not, ◌&&◌, Option, none, some, List, [], ◌∷◌, str_eq, eq_iff, if◌then◌else◌,
  arith,
}
use aiosendspin.Prelude.Dict.{Dict, get, get-put}
use aiosendspin.Roles.Registry.{role_family}
use aiosendspin.Roles.Negotiation.{spec_families, is_skipped, activate, activate_all, active_roles}

-- The first item that passes the test.
unfoldable pub first : (String → Bool) → List String → Option String
first test [] = none
first test (x ∷ xs) = let rest = first test xs in if test x then some x else rest

abbrev pub or_else {ℓ} : {A : Type ℓ} → Option A → Option A → Option A
or_else none o = o
or_else (some a) o = some a

module _ (is_registered : String → Bool) (strict : Bool) where
  -- The role belongs to the family, is registered and is not passed over.
  abbrev pub qualifies : List String → String → String → Bool
  qualifies families family r =
      str_eq (role_family r) family
      && (is_registered r && not (is_skipped is_registered strict families r))

  get-activate :
      (families : List String) (f r : String) (active : Dict String)
      → get f (activate is_registered strict families r active)
        ≡ or_else (get f active) (if qualifies families f r then some r else none)
  unfolding activate
  get-activate families f r active =
      ground (arith, get-put (role_family r) f r active, eq_iff (role_family r) f)

  get-activate_all :
      (families : List String) (f : String) (rs : List String) (active : Dict String)
      → get f (activate_all is_registered strict families rs active)
        ≡ or_else (get f active) (first (qualifies families f) rs)
  unfolding activate_all first
  get-activate_all families f [] active = ground arith
  get-activate_all families f (r ∷ rs) active = ground (
    arith,
    get-activate_all families f rs (activate is_registered strict families r active),
    get-activate families f r active,
  )

  -- For each family, the loop keeps the first role in the client's order that is registered and
  -- not passed over, and none when there is no such role.
  pub get-active_roles :
      (supported : List String) (family : String)
      → get family (active_roles is_registered strict supported)
        ≡ first (qualifies (spec_families is_registered supported) family) supported
  unfolding active_roles get
  get-active_roles supported family =
      get-activate_all (spec_families is_registered supported) family supported []
