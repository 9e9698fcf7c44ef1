-- ===== src/Roles/Negotiation.antt =====
-- server/roles/negotiation.py: the roles that server and client have in common.
use aiosendspin.Prelude.{
  ℕ, String, Bool, not, ◌&&◌, ◌||◌, List, [], ◌∷◌, select, map, leb, is_some, str_eq, if◌then◌else◌,
}
use aiosendspin.Prelude.Dict.{Dict, get, put, values}
use aiosendspin.Roles.Registry.{role_family, has_item}

-- `_FAMILY_ORDER.get(family, len(_FAMILY_ORDER))`
unfoldable pub family_order : String → ℕ
family_order family =
    if str_eq family "player" then 0 else if str_eq family "controller" then 1 else 2

abbrev pub legacy_role_ids : List String
legacy_role_ids = "visualizer@_draft_r1" ∷ []

unfoldable pub is_legacy : String → Bool
is_legacy role_id = has_item role_id legacy_role_ids

abbrev pub rank : String → ℕ
rank role_id = family_order (role_family role_id)

-- `sorted` by the rank: it is stable.
unfoldable pub insert : String → List String → List String
insert r [] = r ∷ []
insert r (q ∷ qs) = let rest = insert r qs in if leb (rank r) (rank q) then r ∷ q ∷ qs else q ∷ rest

unfoldable pub sort_role_ids : List String → List String
sort_role_ids [] = []
sort_role_ids (r ∷ rs) = insert r (sort_role_ids rs)

module _ (is_registered : String → Bool) where
  unfoldable pub spec_families : List String → List String
  spec_families supported =
      map role_family (select (λ r. is_registered r && not (is_legacy r)) supported)

  -- The roles that the loop passes over.
  unfoldable pub is_skipped : Bool → List String → String → Bool
  is_skipped strict families r = is_legacy r && (strict || has_item (role_family r) families)

  -- The body of the loop.
  unfoldable pub activate : Bool → List String → String → Dict String → Dict String
  activate strict families r active =
      if is_skipped strict families r
      then active
      else if is_some (get (role_family r) active)
      then active
      else if is_registered r
      then put (role_family r) r active
      else active

  unfoldable pub activate_all : Bool → List String → List String → Dict String → Dict String
  activate_all strict families [] active = active
  activate_all strict families (r ∷ rs) active =
      activate_all strict families rs (activate strict families r active)

  unfoldable pub active_roles : Bool → List String → Dict String
  active_roles strict supported = activate_all strict (spec_families supported) supported []

  unfoldable pub negotiate_roles : Bool → List String → List String
  negotiate_roles strict supported = sort_role_ids (values (active_roles strict supported))
