-- ===== src/Controller/Seeking.antt =====
-- The bound that `_clamp_seek_offset` puts on a relative seek.
use aiosendspin.Prelude.{ℕ, ◌≡◌, ◌⊎◌, inl, inr, some, arith}
use aiosendspin.Prelude.Int.{
  ℤ, pos, negsuc, ◌+ℤ◌, ◌-ℤ◌, ◌≤ℤ◌, +ℤ_parts, -ℤ_parts, eq_of_parts, max_ℤ, min_ℤ,
}
use aiosendspin.Controller.Group.{clamp_target, clamp_seek_offset}

max_ℤ_bounds :
    (a b : ℤ) → (a ≤ℤ max_ℤ a b) × (b ≤ℤ max_ℤ a b) × ((max_ℤ a b ≤ℤ a) ⊎ (max_ℤ a b ≤ℤ b))
max_ℤ_bounds a b = ground arith

min_ℤ_bounds :
    (a b : ℤ) → (min_ℤ a b ≤ℤ a) × (min_ℤ a b ≤ℤ b) × ((a ≤ℤ min_ℤ a b) ⊎ (b ≤ℤ min_ℤ a b))
min_ℤ_bounds a b = ground arith

-- The bound on the target, by the sign of the offset.
target_bounds :
    (maximum position : ℕ) (offset target : ℤ)
    → (let t = clamp_target (some maximum) (pos position) offset target in
        (pos 0 ≤ℤ target → pos 0 ≤ℤ t)
        × (t ≤ℤ target)
        × ((t ≤ℤ pos maximum) ⊎ (t ≤ℤ pos position))
        × (pos 0 ≤ℤ offset → pos position ≤ℤ target → pos position ≤ℤ t))
unfolding clamp_target
target_bounds maximum position (pos n) target = ground arith
target_bounds maximum position (negsuc n) target = ground arith

move_back : (position t : ℤ) → position +ℤ (t -ℤ position) ≡ t
move_back position t =
    eq_of_parts _ _ (omega (arith, +ℤ_parts position (t -ℤ position), -ℤ_parts t position))

-- With a known maximum and position, the clamped offset never leads below 0, and never beyond
-- the maximum unless the track is already further on, which it then does not leave forwards. A
-- forward seek is clamped to at least 0 and at most what was asked, and a backward seek never
-- goes forwards.
pub clamp_seek_offset_bounds :
    (maximum position : ℕ) (offset : ℤ)
    → (let clamped = clamp_seek_offset (some maximum) (some (pos position)) offset in
        (pos 0 ≤ℤ pos position +ℤ clamped)
        × ((pos position +ℤ clamped ≤ℤ pos maximum) ⊎ (pos position +ℤ clamped ≤ℤ pos position))
        × (pos 0 ≤ℤ offset → (pos 0 ≤ℤ clamped) × (clamped ≤ℤ offset))
        × (offset ≤ℤ pos 0 → clamped ≤ℤ pos 0))
unfolding clamp_seek_offset
clamp_seek_offset_bounds maximum position offset =
    let p = pos position in
    let raw = max_ℤ (pos 0) (p +ℤ offset) in
    let t = clamp_target (some maximum) p offset raw in
    let b = target_bounds maximum position offset raw in
    let m = max_ℤ_bounds (pos 0) (p +ℤ offset) in
    let l = +ℤ_parts p offset in
    let d = -ℤ_parts t p in
    rw (move_back p t) (
      b.0 m.0,
      b.2,
      λ h. (
        omega (arith, l, d, m.1, b.3 h (omega (arith, l, m.1))),
        elim m.2 [ inl e ↦ omega (arith, l, d, b.1, e) | inr e ↦ omega (arith, l, d, b.1, e) ],
      ),
      λ h. elim m.2 [ inl e ↦ omega (arith, l, d, b.1, e) | inr e ↦ omega (arith, l, d, b.1, e) ],
    )
