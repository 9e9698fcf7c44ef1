-- ===== src/Controller/Told.antt =====
-- What the members of a controller role were told last.
use aiosendspin.Prelude.{
  ℕ, ◌≡◌, refl, ◌∙◌, true, Option, none, some, List, [], ◌∷◌, ◌++◌, ◌==◌, arith, any, if◌then◌else◌,
  All,
}
use aiosendspin.Prelude.Numbers.{has}
use aiosendspin.Controller.Commands.{StatePayload, Event}
use aiosendspin.Controller.Group.{Effect, send, emit, restate_legacy_metadata, send_to_members}

-- The last state that was sent to this role, `told` before these effects.
unfoldable pub told_after : ℕ → Option StatePayload → List Effect → Option StatePayload
told_after role told [] = told
told_after role told (send r s ∷ es) = told_after role (if r == role then some s else told) es
told_after role told (emit e ∷ es) = told_after role told es
told_after role told (restate_legacy_metadata ∷ es) = told_after role told es

abbrev pub last_told : ℕ → List Effect → Option StatePayload
last_told role effects = told_after role none effects

-- Each member was last told this state, if there is one.
abbrev pub WereTold : List ℕ → List Effect → Option StatePayload → Type 0
WereTold members effects none = Unit
WereTold members effects (some s) = All (λ role. last_told role effects ≡ some s) members

told_after-append :
    (role : ℕ) (told : Option StatePayload) (xs ys : List Effect)
    → told_after role told (xs ++ ys) ≡ told_after role (told_after role told xs) ys
unfolding told_after
told_after-append role told [] ys = refl
told_after-append role told (send r s ∷ xs) ys =
    told_after-append role (if r == role then some s else told) xs ys
told_after-append role told (emit e ∷ xs) ys = told_after-append role told xs ys
told_after-append role told (restate_legacy_metadata ∷ xs) ys = told_after-append role told xs ys

told_after-send_to_members :
    (role : ℕ) (told : Option StatePayload) (members : List ℕ) (s : StatePayload)
    → told_after role told (send_to_members members s) ≡ (if has role members then some s else told)
unfolding told_after send_to_members any
told_after-send_to_members role told [] s = refl
told_after-send_to_members role told (r ∷ rs) s = ground (
  arith,
  told_after-send_to_members role (some s) rs s,
  told_after-send_to_members role told rs s,
)

All-has : (P : ℕ → Type 0) (xs : List ℕ) → ((x : ℕ) → has x xs ≡ true → P x) → All P xs
unfolding any
All-has P [] f = tt
All-has P (x ∷ xs) f = (f x (ground arith), All-has P xs (λ y h. f y (ground arith)))

pub WereTold-send_to_members :
    (members : List ℕ) (effects : List Effect) (s : StatePayload)
    → WereTold members (effects ++ send_to_members members s) (some s)
WereTold-send_to_members members effects s = All-has _ members (λ role h.
    rw
      (
        told_after-append role none effects (send_to_members members s),
        told_after-send_to_members role (last_told role effects) members s,
        h,
      )
      refl)

told_after_quiet :
    (role : ℕ) (effects : List Effect) (e : Event)
    → (last_told role (effects ++ emit e ∷ []) ≡ last_told role effects)
      × (last_told role (effects ++ restate_legacy_metadata ∷ []) ≡ last_told role effects)
unfolding told_after
told_after_quiet role effects e = (
  told_after-append role none effects (emit e ∷ []),
  told_after-append role none effects (restate_legacy_metadata ∷ []),
)

-- Effects that send nothing leave it so.
pub WereTold-emit :
    (members : List ℕ) (effects : List Effect) (last : Option StatePayload) (e : Event)
    → WereTold members effects last
    → WereTold members (effects ++ emit e ∷ []) last
      × WereTold members (effects ++ restate_legacy_metadata ∷ []) last
WereTold-emit members effects none e h = (tt, tt)
WereTold-emit [] effects (some s) e h = (tt, tt)
WereTold-emit (r ∷ rs) effects (some s) e h =
    let quiet = told_after_quiet r effects e in
    let rest = WereTold-emit rs effects (some s) e h.1 in
    ((quiet.0 ∙ h.0, rest.0), (quiet.1 ∙ h.0, rest.1))
