-- ===== src/Scheduled/Delivery.antt =====
-- Every member gets a scheduled state, from one of the two callbacks.
use aiosendspin.Prelude.{
  ℕ, ◌≡◌, refl, ◌⊎◌, inl, inr, Bool, true, false, some, List, [], ◌∷◌, ◌++◌, if◌then◌else◌,
  Bool-cases, All, All-mono,
}
use aiosendspin.Scheduled.Group.{
  Member, Message, Sent, idle, lead, Group, sends, supporting, legacy, send_due, send_scheduled,
  fire,
}

module _ {A : Type 0} where
  abbrev pub In : A → List A → Type 0
  In a [] = ⊥
  In a (x ∷ xs) = (x ≡ a) ⊎ In a xs

  In-append_left : (a : A) (xs ys : List A) → In a xs → In a (xs ++ ys)
  In-append_left a [] ys h = absurd h
  In-append_left a (x ∷ xs) ys (inl e) = inl e
  In-append_left a (x ∷ xs) ys (inr h) = inr (In-append_left a xs ys h)

  In-append_right : (a : A) (xs ys : List A) → In a ys → In a (xs ++ ys)
  In-append_right a [] ys h = h
  In-append_right a (x ∷ xs) ys h = inr (In-append_right a xs ys h)

module _ {ℓ κ} {A : Type ℓ} (P Q R : A → Type κ) where
  All-both : (xs : List A) → ((x : A) → P x → Q x → R x) → All P xs → All Q xs → All R xs
  All-both [] f h k = tt
  All-both (x ∷ xs) f h k = (f x h.0 k.0, All-both xs f h.1 k.1)

module _ {S : Type 0} where
  abbrev pub to : Message S → Member → Sent S
  to m r = record { receiver = r.role; message = m }

  In-if :
      (b : Bool) (x : Sent S) (y : Sent S) (xs : List (Sent S))
      → In x xs
      → In x (if b then y ∷ xs else xs)
  In-if true x y xs h = inr h
  In-if false x y xs h = h

  All-sends :
      (test : Member → Bool) (rs : List Member) (m : Message S)
      → All (λ r. test r ≡ true → In (to m r) (sends test rs m)) rs
  unfolding sends
  All-sends test [] m = tt
  All-sends test (r ∷ rs) m = (
    λ h. rw h (inl refl),
    All-mono _ _ rs (λ q h e. In-if (test r) (to m q) (to m r) (sends test rs m) (h e))
        (All-sends test rs m),
  )

  -- What one callback sends to the members that pass a test, and the next to the rest.
  All-two_sends :
      (old : List (Sent S)) (rs : List Member) (m : Message S)
      → All (λ r. In (to m r) ((old ++ sends supporting rs m) ++ sends legacy rs m)) rs
  All-two_sends old rs m =
      All-both _ _ _ rs (λ r p q. by_support r p q (Bool-cases r.supports_scheduled_updates))
        (All-sends supporting rs m) (All-sends legacy rs m)
    where
      by_support :
          (r : Member)
          → (supporting r ≡ true → In (to m r) (sends supporting rs m))
          → (legacy r ≡ true → In (to m r) (sends legacy rs m))
          → ((r.supports_scheduled_updates ≡ true) ⊎ (r.supports_scheduled_updates ≡ false))
          → In (to m r) ((old ++ sends supporting rs m) ++ sends legacy rs m)
      by_support r p q (inl e) =
          In-append_left (to m r) (old ++ sends supporting rs m) (sends legacy rs m)
            (In-append_right (to m r) old (sends supporting rs m) (p e))
      by_support r p q (inr e) =
          In-append_right (to m r) (old ++ sends supporting rs m) (sends legacy rs m)
            (q (rw e refl))

  -- When the timer stands to send a scheduled state, its two callbacks, one after the other and
  -- without another call between them, send that state with its time to every member, and no timer
  -- is left.
  pub fire-fire_delivers :
      (s : S) (t delay now₁ now₂ : ℕ) (g : Group S)
      → g.timer ≡ lead delay
      → g.tracker.pending ≡ some s
      → g.tracker.pending_timestamp_us ≡ some t
      → (let first = fire now₁ g.timer g in
          let second = fire now₂ first.timer first in
          All
            (λ r. In (to (record { content = some s; timestamp_us = t }) r) second.outbox)
            g.members
          × (second.timer ≡ idle))
  unfolding fire send_scheduled send_due
  fire-fire_delivers s t delay now₁ now₂ g e p q =
      rw (e, p, q) (All-two_sends g.outbox g.members _, refl)
