-- ===== src/Grouping/Membership.antt =====
-- What the calls that end playback leave alone, and where a client is after it moved.
use aiosendspin.Prelude.{
  ℕ, ◌+◌, String, ◌≡◌, ◌⊎◌, refl, sym, ap, ◌∙◌, Bool, true, false, some, List, [], ◌∷◌, ◌++◌,
  select, any, ◌==◌, ==_iff, Bool-cases, inl, inr, if◌then◌else◌, arith,
}
use aiosendspin.Prelude.Numbers.{has, without}
use aiosendspin.Grouping.World.{
  PlaybackState, stopped, ClientGroup, ClientInfo, World, perform, update_group,
  send_group_update_to_clients, publish_if_name_changed, set_playback_state, stop_stream, stop,
  needs_stop, stop_and_invalidate, is_running, signal, member_removed, prune_transformers,
  group_name, freeze_progress, reset_progress,
}
use aiosendspin.Grouping.Moves.{
  leave_roles, set_clients, is_single, new_group, remove_last, remove_one, remove_client,
  has_player,
}

abbrev pub members : ℕ → World → List ℕ
members j w = (w.groups j).clients

-- Neither the members of any group nor the group of any client differ, nor the next group.
abbrev pub SameMembers : World → World → Type 0
SameMembers w w' =
    ((j : ℕ) → members j w' ≡ members j w)
    × ((c : ℕ) → w'.group_of c ≡ w.group_of c)
    × (w'.next_group ≡ w.next_group)

SameMembers-trans : (u v w : World) → SameMembers u v → SameMembers v w → SameMembers u w
SameMembers-trans u v w h k = ((λ j. k.0 j ∙ h.0 j), (λ c. k.1 c ∙ h.1 c), k.2 ∙ h.2)

SameMembers-if :
    (b : Bool) (w u v : World)
    → SameMembers w u
    → SameMembers w v
    → SameMembers w (if b then u else v)
SameMembers-if true w u v h k = h
SameMembers-if false w u v h k = k

SameMembers-self : (w : World) → SameMembers w w
SameMembers-self w = ((λ j. refl), (λ c. refl), refl)

-- A group that keeps its clients is put back.
update_group-SameMembers :
    (id : ℕ) (g : ClientGroup) (w : World)
    → g.clients ≡ members id w
    → SameMembers w (update_group id g w)
update_group-SameMembers id g w h = ((λ j. if_clients j (Bool-cases (j == id))), (λ c. refl), refl)
  where
    if_clients :
        (j : ℕ)
        → ((j == id) ≡ true) ⊎ ((j == id) ≡ false)
        → (if j == id then g else w.groups j).clients ≡ members j w
    if_clients j (inl e) = rw e (h ∙ ap (λ (k : ℕ). members k w) (sym ((==_iff j id).0 e)))
    if_clients j (inr e) = rw e refl

-- The group that a client founds, and its own place.
abbrev pub Founds : ℕ → World → World → Type 0
Founds c w w' =
    ((j : ℕ) → members j w' ≡ (if j == w.next_group then c ∷ [] else members j w))
    × ((d : ℕ) → w'.group_of d ≡ (if d == c then some w.next_group else w.group_of d))
    × (w'.next_group ≡ w.next_group + 1)

-- The client is taken out of the group, and is still nowhere else.
abbrev pub TakesOut : ℕ → ℕ → World → World → Type 0
TakesOut id c w w' =
    ((j : ℕ) → members j w' ≡ (if j == id then without c (members id w) else members j w))
    × ((d : ℕ) → w'.group_of d ≡ w.group_of d)
    × (w'.next_group ≡ w.next_group)

TakesOut-then : (id c : ℕ) (u v w : World) → TakesOut id c u v → SameMembers v w → TakesOut id c u w
TakesOut-then id c u v w h k = ((λ j. k.0 j ∙ h.0 j), (λ d. k.1 d ∙ h.1 d), k.2 ∙ h.2)

only_client : (c : ℕ) (cs : List ℕ) → is_single cs ≡ true → has c cs ≡ true → without c cs ≡ []
unfolding select any
only_client c [] s h = refl
only_client c (d ∷ []) s h = ground arith
only_client c (d ∷ e ∷ cs) s h = absurd (ground arith)

-- Where everyone is after a client was taken out of its group into one of its own.
abbrev pub MovesOut : ℕ → ℕ → World → World → Type 0
MovesOut id c w w' =
    ((j : ℕ)
      → members j w' ≡ (
          if j == w.next_group
          then c ∷ []
          else if j == id
          then without c (members id w)
          else members j w))
    × ((d : ℕ) → w'.group_of d ≡ (if d == c then some w.next_group else w.group_of d))
    × (w'.next_group ≡ w.next_group + 1)

module _ (info : ℕ → ClientInfo) where
  set_playback_state-SameMembers :
      (id : ℕ) (s : PlaybackState) (w : World) → SameMembers w (set_playback_state info id s w)
  unfolding set_playback_state send_group_update_to_clients
  set_playback_state-SameMembers id s w =
      SameMembers-if _ w _ _ (SameMembers-self w)
        (update_group-SameMembers id (record (w.groups id) { state = s }) w refl)

  publish-SameMembers :
      (id : ℕ) (previous : String) (w : World)
      → SameMembers w (publish_if_name_changed info id previous w)
  unfolding publish_if_name_changed send_group_update_to_clients
  publish-SameMembers id previous w =
      SameMembers-if _ w _ _ (SameMembers-self w) (SameMembers-self w)

  stop_stream-SameMembers : (id : ℕ) (w : World) → SameMembers w (stop_stream id w)
  unfolding stop_stream
  stop_stream-SameMembers id w =
      SameMembers-if _ w _ _ (SameMembers-self w) (update_group-SameMembers id _ w refl)

  stop-SameMembers : (keep : Bool) (id : ℕ) (w : World) → SameMembers w (stop info keep id w)
  unfolding stop
  stop-SameMembers keep id w =
      let begun = perform ((if keep then freeze_progress id else reset_progress id) ∷ []) w in
      SameMembers-if (needs_stop (w.groups id)) w
        (set_playback_state info id stopped (stop_stream id begun)) w
        (SameMembers-trans w (stop_stream id begun)
          (set_playback_state info id stopped (stop_stream id begun))
          (stop_stream-SameMembers id begun)
          (set_playback_state-SameMembers id stopped (stop_stream id begun)))
        (SameMembers-self w)

  stop_and_invalidate-SameMembers :
      (cs : List ℕ) (id : ℕ) (w : World) → SameMembers w (stop_and_invalidate info cs id w)
  unfolding stop_and_invalidate
  stop_and_invalidate-SameMembers cs id w =
      SameMembers-if _ w _ _ (stop-SameMembers false id w) (stop-SameMembers false id w)

  new_group-Founds : (c : ℕ) (w : World) → Founds c w (new_group info c w)
  unfolding new_group
  new_group-Founds c w = ((λ j. ground arith), (λ d. refl), refl)

  remove_last-TakesOut :
      (id c : ℕ) (w : World)
      → is_single (members id w) ≡ true
      → has c (members id w) ≡ true
      → TakesOut id c w (remove_last info id c w)
  remove_last-TakesOut id c w s h =
      let k = stop_and_invalidate-SameMembers (c ∷ []) id w in
      ((λ j. ground (arith, k.0 j, only_client c (members id w) s h)), k.1, k.2)

  set_clients-TakesOut :
      (id c : ℕ) (w : World) → TakesOut id c w (set_clients id (without c (members id w)) w)
  set_clients-TakesOut id c w = ((λ j. ground arith), (λ d. refl), refl)

  remove_one-TakesOut : (id c : ℕ) (w : World) → TakesOut id c w (remove_one info id c w)
  remove_one-TakesOut id c w =
      let previous = group_name info (w.groups id) in
      let es =
        leave_roles id (is_running (w.groups id).stream) (info c).active_roles
        ++ prune_transformers id ∷ [] in
      let left = perform es (set_clients id (without c (members id w)) w) in
      let remnant = members id left in
      let ended = stop_and_invalidate info remnant id left in
      let settled = if has_player info remnant then left else ended in
      let told = perform (signal id (member_removed (info c).client_id) ∷ []) settled in
      TakesOut-then id c w left (publish_if_name_changed info id previous told)
        (set_clients-TakesOut id c w)
        (SameMembers-trans left settled (publish_if_name_changed info id previous told)
          (SameMembers-if (has_player info remnant) left left ended (SameMembers-self left)
            (stop_and_invalidate-SameMembers remnant id left))
          (publish-SameMembers id previous told))

  founded-MovesOut :
      (id c : ℕ) (w v : World) → TakesOut id c w v → MovesOut id c w (new_group info c v)
  founded-MovesOut id c w v h =
      let k = new_group-Founds c v in
      (
        (λ j. ground (arith, k.0 j, h.0 j, h.2)),
        (λ d. ground (arith, k.1 d, h.1 d, h.2)),
        ground (arith, k.2, h.2),
      )

  pub remove_client-MovesOut :
      (id c : ℕ) (w : World)
      → has c (members id w) ≡ true
      → MovesOut id c w (remove_client info id c w)
  unfolding remove_client
  remove_client-MovesOut id c w h = elim (Bool-cases (is_single (members id w))) [
    | inl s ↦
        rw (h, s)
          (founded-MovesOut id c w (remove_last info id c w) (remove_last-TakesOut id c w s h))
    | inr s ↦
        rw (h, s) (founded-MovesOut id c w (remove_one info id c w) (remove_one-TakesOut id c w))
  ]
