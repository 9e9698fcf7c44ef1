-- ===== src/Roles/Examples.antt =====
-- A client that lists two player roles and a legacy visualizer beside a current one.
use aiosendspin.Prelude.{
  ℕ, String, ◌≡◌, refl, Bool, true, false, ◌||◌, List, [], ◌∷◌, str_eq, any, select,
}
use aiosendspin.Prelude.Dict.{get, put, values}
use aiosendspin.Roles.Registry.{role_family, has_item, Registry}
use aiosendspin.Roles.Negotiation.{
  spec_families, active_roles, negotiate_roles, sort_role_ids, activate_all, activate, is_skipped,
  is_legacy, insert, family_order,
}
use aiosendspin.Roles.First.{first, qualifies, get-active_roles}
use aiosendspin.Roles.Ordered.{IsOrdered, negotiate_roles-IsOrdered}

abbrev known : String → Bool
known r =
    str_eq r "player@v1"
    || (str_eq r "controller@v1" || (str_eq r "visualizer@v1" || str_eq r "visualizer@_draft_r1"))

abbrev listed : List String
listed = "visualizer@_draft_r1" ∷ "visualizer@v1" ∷ "controller@v1" ∷ "player@v9" ∷ "player@v1" ∷ []

negotiated :
    negotiate_roles known false listed ≡ "player@v1" ∷ "controller@v1" ∷ "visualizer@v1" ∷ []
unfolding negotiate_roles sort_role_ids values active_roles activate_all activate is_skipped
    is_legacy any get spec_families select role_family put insert family_order
negotiated = refl

get-active_roles_example :
    get "player" (active_roles known false listed)
    ≡ first (qualifies known false (spec_families known listed) "player") listed
get-active_roles_example = get-active_roles known false listed "player"

negotiate_roles-IsOrdered_example :
    IsOrdered (negotiate_roles known true listed)
    × ((r : String)
        → has_item r (negotiate_roles known true listed)
          ≡ has_item r (values (active_roles known true listed)))
negotiate_roles-IsOrdered_example = negotiate_roles-IsOrdered known true listed

abbrev registry : Registry ℕ
registry = record { factories = ("player@v1", 1) ∷ []; pairing_required = "player@v1" ∷ [] }
