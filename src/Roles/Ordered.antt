-- ===== src/Roles/Ordered.antt =====
-- The order of the negotiated roles.
use aiosendspin.Prelude.{String, ◌≤◌, ◌≡◌, refl, ◌⊎◌, Bool, true, List, [], ◌∷◌, any, arith, str_eq}
use aiosendspin.Prelude.Dict.{values}
use aiosendspin.Roles.Registry.{role_family, has_item}
use aiosendspin.Roles.Negotiation.{
  family_order, rank, insert, sort_role_ids, negotiate_roles, active_roles,
}

-- Each role ranks no higher than the next.
abbrev IsRanked : List String → Type 0
IsRanked [] = Unit
IsRanked (r ∷ []) = Unit
IsRanked (r ∷ q ∷ qs) = (rank r ≤ rank q) × IsRanked (q ∷ qs)

insert-IsRanked : (r : String) (qs : List String) → IsRanked qs → IsRanked (insert r qs)
unfolding insert
insert-IsRanked r [] h = tt
insert-IsRanked r (q ∷ []) h = ground arith
insert-IsRanked r (q ∷ p ∷ ps) h = ground (arith, insert-IsRanked r (p ∷ ps) h.1)

sort_role_ids-IsRanked : (rs : List String) → IsRanked (sort_role_ids rs)
unfolding sort_role_ids
sort_role_ids-IsRanked [] = tt
sort_role_ids-IsRanked (r ∷ rs) = insert-IsRanked r (sort_role_ids rs) (sort_role_ids-IsRanked rs)

has_item-insert : (x r : String) (qs : List String) → has_item x (insert r qs) ≡ has_item x (r ∷ qs)
unfolding insert any
has_item-insert x r [] = refl
has_item-insert x r (q ∷ qs) = ground (arith, has_item-insert x r qs)

has_item-sort : (x : String) (rs : List String) → has_item x (sort_role_ids rs) ≡ has_item x rs
unfolding sort_role_ids any
has_item-sort x [] = refl
has_item-sort x (r ∷ rs) =
    ground (arith, has_item-insert x r (sort_role_ids rs), has_item-sort x rs)

-- A player's role comes only after a player's role, and a controller's role only after a player's
-- or a controller's.
abbrev pub MayPrecede : String → String → Type 0
MayPrecede r q =
    (str_eq (role_family q) "player" ≡ true → str_eq (role_family r) "player" ≡ true)
    × (str_eq (role_family q) "controller" ≡ true
        → (str_eq (role_family r) "player" ≡ true) ⊎ (str_eq (role_family r) "controller" ≡ true))

abbrev pub IsOrdered : List String → Type 0
IsOrdered [] = Unit
IsOrdered (r ∷ []) = Unit
IsOrdered (r ∷ q ∷ qs) = MayPrecede r q × IsOrdered (q ∷ qs)

rank-MayPrecede : (r q : String) → rank r ≤ rank q → MayPrecede r q
unfolding family_order
rank-MayPrecede r q h = (λ p. ground arith, λ c. ground arith)

IsRanked-IsOrdered : (rs : List String) → IsRanked rs → IsOrdered rs
IsRanked-IsOrdered [] h = tt
IsRanked-IsOrdered (r ∷ []) h = tt
IsRanked-IsOrdered (r ∷ q ∷ qs) h = (rank-MayPrecede r q h.0, IsRanked-IsOrdered (q ∷ qs) h.1)

module _ (is_registered : String → Bool) (strict : Bool) where
  -- The negotiated roles are exactly the roles that the loop kept, and among them no role comes
  -- before a role of the family "player" but another of that family, and none before a role of
  -- the family "controller" but those of these two families.
  pub negotiate_roles-IsOrdered :
      (supported : List String)
      → IsOrdered (negotiate_roles is_registered strict supported)
        × ((r : String)
            → has_item r (negotiate_roles is_registered strict supported)
              ≡ has_item r (values (active_roles is_registered strict supported)))
  unfolding negotiate_roles
  negotiate_roles-IsOrdered supported = (
    IsRanked-IsOrdered _
        (sort_role_ids-IsRanked (values (active_roles is_registered strict supported))),
    λ r. has_item-sort r (values (active_roles is_registered strict supported)),
  )
