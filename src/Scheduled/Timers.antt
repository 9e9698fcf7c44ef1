-- ===== src/Scheduled/Timers.antt =====
-- What the timer holds, against the scheduled state.
use aiosendspin.Prelude.{
  ℕ, ◌+◌, ◌≡◌, refl, subst, ◌⊎◌, inl, inr, Bool, true, false, ◌&&◌, Option, none, some, List, [],
  ◌∷◌, leb, is_some, Bool-cases, any, arith,
}
use aiosendspin.Scheduled.Tracker.{apply, promote, is_due}
use aiosendspin.Scheduled.Group.{
  restate_if, same_role, Member, Timer, idle, lead, takes_effect, Group, send_due, send_scheduled,
  fire, apply_built, schedule_built, schedule_state, apply_state, cancel_scheduled, on_member_join,
  subscribe, unsubscribe, refresh, cancel_refreshed, max_scheduled_lead_us, accepts_option,
}

-- A call of the group role of a group that was not deleted, with the clock readings that it makes.
pub data Call (S : Type 0) : Type 0 where
  scheduling : S → ℕ → ℕ → ℕ → ℕ → Call S
  applying : Option S → ℕ → Call S
  cancelling reading : ℕ → Call S
  joining : Member → ℕ → Call S
  leaving : Member → Call S
  firing : ℕ → Call S

abbrev pub or_same {ℓ} : {A : Type ℓ} → A → Option A → A
or_same a none = a
or_same a (some b) = b

module _ {S : Type 0} (accepts : S → Bool) where
  -- A call that raises leaves the group as it is.
  unfoldable pub step : Call S → Group S → Group S
  step (scheduling s t now₁ now₂ now₃) g = or_same g (schedule_state accepts s t now₁ now₂ now₃ g)
  step (applying s t) g = or_same g (apply_state accepts s t g)
  step (cancelling now) g = cancel_scheduled now g
  step (reading now) g = refresh now g
  step (joining r now) g = subscribe r now g
  step (leaving r) g = unsubscribe r g
  step (firing now) g = fire now g.timer g

  unfoldable pub run : List (Call S) → Group S → Group S
  run [] g = g
  run (c ∷ cs) g = run cs (step c g)

module _ {S : Type 0} where
  -- What the timer holds fits the tracker: without a timer a pending state was already sent; a lead
  -- timer stands for a state that was not sent, and the other carries the pending state that was.
  abbrev pub Fits : Timer S → Bool → Option S → Option ℕ → Type 0
  Fits idle sent pending timestamp = (timestamp ≡ none) ⊎ (sent ≡ true)
  Fits (lead d) sent pending timestamp = sent ≡ false
  Fits (takes_effect d m) sent pending timestamp =
      (sent ≡ true)
      × ((timestamp ≡ none) ⊎ ((m.content ≡ pending) × (timestamp ≡ some m.timestamp_us)))

  abbrev pub IsTimed : Group S → Type 0
  IsTimed g = Fits g.timer g.scheduled_sent g.tracker.pending g.tracker.pending_timestamp_us

  Fits-none :
      (m : Timer S) (sent : Bool) (p q : Option S) (ts : Option ℕ)
      → Fits m sent p ts
      → Fits m sent q none
  Fits-none idle sent p q ts h = inl refl
  Fits-none (lead d) sent p q ts h = h
  Fits-none (takes_effect d m) sent p q ts h = (h.0, inl refl)

  refresh-IsTimed : (now : ℕ) (g : Group S) → IsTimed g → IsTimed (refresh now g)
  unfolding promote apply
  refresh-IsTimed now g h = elim (Bool-cases (is_due g.tracker.pending_timestamp_us now)) [
    | inl e ↦ rw e (Fits-none g.timer g.scheduled_sent _ none _ h)
    | inr e ↦ rw e h
  ]

  send_scheduled-IsTimed : (now : ℕ) (g : Group S) → IsTimed (send_scheduled now g)
  unfolding send_scheduled
  send_scheduled-IsTimed now g = ground arith

  fire-IsTimed :
      (now : ℕ) (t : Timer S) (g : Group S) → g.timer ≡ t → IsTimed g → IsTimed (fire now t g)
  unfolding fire send_due
  fire-IsTimed now idle g e h = h
  fire-IsTimed now (lead d) g e h = send_scheduled-IsTimed now g
  fire-IsTimed now (takes_effect d m) g e h =
      let f : Fits (takes_effect d m) g.scheduled_sent g.tracker.pending
          g.tracker.pending_timestamp_us =
        subst
          (λ (z : Timer S).
            Fits z g.scheduled_sent g.tracker.pending g.tracker.pending_timestamp_us)
          e h in
      inr f.0

  schedule_built-IsTimed :
      (s : S) (t now₁ now₂ now₃ : ℕ) (g : Group S) → IsTimed (schedule_built s t now₁ now₂ now₃ g)
  unfolding schedule_built
  schedule_built-IsTimed s t now₁ now₂ now₃ g =
      elim (Bool-cases (leb t (max_scheduled_lead_us + now₂))) [
        | inl e ↦ rw e (send_scheduled-IsTimed now₃ _)
        | inr e ↦
            rw e (restated (g.scheduled_sent && is_some g.tracker.pending_timestamp_us) _ refl)
      ]
    where
      restated : (b : Bool) (h : Group S) → IsTimed h → IsTimed (restate_if b now₃ h)
      restated false h k = k
      restated true h k = refresh-IsTimed now₃ h k

  apply_built-IsTimed : (s : Option S) (t : ℕ) (g : Group S) → IsTimed (apply_built s t g)
  unfolding apply_built apply
  apply_built-IsTimed s t g = inl refl

  cancel_refreshed-IsTimed : (now : ℕ) (g : Group S) → IsTimed g → IsTimed (cancel_refreshed now g)
  unfolding apply apply_built
  cancel_refreshed-IsTimed now g h = elim (Bool-cases (is_some g.tracker.pending_timestamp_us)) [
    | inl e ↦ elim (Bool-cases g.scheduled_sent) [
      | inl k ↦ rw (e, k) (inl refl)
      | inr k ↦ rw (e, k) (inl refl)
    ]
    | inr e ↦ rw e h
  ]

  subscribe-IsTimed : (r : Member) (now : ℕ) (g : Group S) → IsTimed g → IsTimed (subscribe r now g)
  unfolding subscribe on_member_join
  subscribe-IsTimed r now g h = elim (Bool-cases (any (same_role r) g.members)) [
    | inl e ↦ rw e h
    | inr e ↦ rw e (refresh-IsTimed now g h)
  ]

module _ {S : Type 0} (accepts : S → Bool) where
  step-IsTimed : (c : Call S) (g : Group S) → IsTimed g → IsTimed (step accepts c g)
  unfolding step schedule_state apply_state cancel_scheduled unsubscribe
  step-IsTimed (scheduling s t now₁ now₂ now₃) g h = elim (Bool-cases (accepts s)) [
    | inl e ↦ rw e (schedule_built-IsTimed s t now₁ now₂ now₃ g)
    | inr e ↦ rw e h
  ]
  step-IsTimed (applying s t) g h = elim (Bool-cases (accepts_option accepts s)) [
    | inl e ↦ rw e (apply_built-IsTimed s t g)
    | inr e ↦ rw e h
  ]
  step-IsTimed (cancelling now) g h = cancel_refreshed-IsTimed now _ (refresh-IsTimed now g h)
  step-IsTimed (reading now) g h = refresh-IsTimed now g h
  step-IsTimed (joining r now) g h = subscribe-IsTimed r now g h
  step-IsTimed (leaving r) g h = h
  step-IsTimed (firing now) g h = fire-IsTimed now g.timer g refl h

  -- After any calls and callbacks, the timer fits the tracker, if it did before: without a
  -- timer, a pending state is marked as sent; a lead timer stands for a state that was not sent;
  -- and while the second timer stands, what it will send to the rest is the pending state at its
  -- time, unless none is pending any more.
  pub run-IsTimed : (cs : List (Call S)) (g : Group S) → IsTimed g → IsTimed (run accepts cs g)
  unfolding run
  run-IsTimed [] g h = h
  run-IsTimed (c ∷ cs) g h = run-IsTimed cs (step accepts c g) (step-IsTimed c g h)
