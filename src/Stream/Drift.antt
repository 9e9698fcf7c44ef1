-- ===== src/Stream/Drift.antt =====
-- The timeline does not drift: it does not matter into how many pieces the samples that
-- `_advance_channel_timing` is called with are cut.
use aiosendspin.Prelude.{
  ℕ, ◌+◌, ◌*◌, ◌/◌, ◌%◌, ◌<◌, ◌≡◌, refl, sym, ◌∙◌, false, Option, none, some, List, [], ◌∷◌, ◌==◌,
  Option-cases, inl, inr, arith, and_then,
}
use native.Mathlib.Nat.{mod-add-mod, div-add-mod', mul-add-div_right}
use aiosendspin.Prelude.Table.{find, store-store, find-store_self}
use aiosendspin.Stream.Timeline.{
  Channel, Timeline, residue_at, advance_channel, advance_channel_timing,
}

div_parts : (n k r : ℕ) → 0 < r → n / r + (n % r + k) / r ≡ (n + k) / r
div_parts n k r h =
    let e : n + k ≡ n / r * r + (n % r + k) = omega (arith, div-add-mod' n r) in
    rw e (sym (mul-add-div_right h (n / r) (n % r + k)))

advance_twice :
    (a b r : ℕ) (c : Channel)
    → 0 < r
    → advance_channel b r (advance_channel a r c) ≡ advance_channel (a + b) r c
unfolding advance_channel
advance_twice a b r c h =
    let n = residue_at r c + a * 1000000 in
    ground (arith, div_parts n (b * 1000000) r, mod-add-mod n r (b * 1000000))

abbrev pub sum : List ℕ → ℕ
sum [] = 0
sum (n ∷ ns) = n + sum ns

-- One call of `_advance_channel_timing` for each piece of audio.
unfoldable pub advance_pieces : ℕ → ℕ → List ℕ → Timeline → Option Timeline
advance_pieces channel rate [] t = some t
advance_pieces channel rate (n ∷ ns) t =
    and_then (advance_channel_timing channel n rate t) (advance_pieces channel rate ns)

advance_channel_timing_twice :
    (channel a b rate : ℕ) (t : Timeline)
    → 0 < rate
    → and_then (advance_channel_timing channel a rate t) (advance_channel_timing channel b rate)
      ≡ advance_channel_timing channel (a + b) rate t
unfolding advance_channel_timing
advance_channel_timing_twice channel a b rate t h =
    let z : (rate == 0) ≡ false = ground arith in
    elim (Option-cases (find channel t)) [
      | inl e ↦ rw e refl
      | inr q ↦
          rw (q.1, z, find-store_self channel (advance_channel a rate q.0) t, z)
            (rw
              (
                store-store channel (advance_channel b rate (advance_channel a rate q.0))
                    (advance_channel a rate q.0) t,
                advance_twice a b rate q.0 h,
              )
              refl)
    ]

and_then-some : (o : Option Timeline) → and_then o (λ t. some t) ≡ o
and_then-some none = refl
and_then-some (some t) = refl

and_then_ext :
    (o : Option Timeline) (f g : Timeline → Option Timeline)
    → ((t : Timeline) → f t ≡ g t)
    → and_then o f ≡ and_then o g
and_then_ext none f g h = refl
and_then_ext (some t) f g h = h t

-- Calls of `_advance_channel_timing` one after the other, for pieces of audio on one channel at one
-- rate that is not 0, leave the timeline as one call with the samples of all of them does.
pub advance_pieces-eq-advance_channel_timing :
    (channel rate n : ℕ) (ns : List ℕ) (t : Timeline)
    → 0 < rate
    → advance_pieces channel rate (n ∷ ns) t ≡ advance_channel_timing channel (sum (n ∷ ns)) rate t
unfolding advance_pieces
advance_pieces-eq-advance_channel_timing channel rate n [] t h =
    let e : n + 0 ≡ n = omega arith in
    rw e (and_then-some (advance_channel_timing channel n rate t))
advance_pieces-eq-advance_channel_timing channel rate n (m ∷ ns) t h =
    and_then_ext (advance_channel_timing channel n rate t) _ _
      (λ u. advance_pieces-eq-advance_channel_timing channel rate m ns u h)
    ∙ advance_channel_timing_twice channel n (sum (m ∷ ns)) rate t h
