-- ===== src/Grouping/Settled.antt =====
-- Every client is in one group, through every move.
use aiosendspin.Prelude.{
  ℕ, ◌<◌, ◌≡◌, ◌⊎◌, refl, true, false, none, some, [], ◌∷◌, ◌++◌, ◌==◌, Bool-cases, Option-cases,
  inl, inr, if◌then◌else◌, arith,
}
use aiosendspin.Prelude.Numbers.{has, has-append, has-without, has-single}
use aiosendspin.Grouping.World.{ClientInfo, World}
use aiosendspin.Grouping.Moves.{remove_client, ungroup, stale_client, add_ungrouped, add_client}
use aiosendspin.Grouping.Membership.{members, MovesOut, remove_client-MovesOut}

-- A client's group has it as a member, and each other member of a group that a client is in is in
-- that group too: no member is left behind in two of them. Groups to come have larger numbers.
pub record IsSettled (w : World) : Type 0 where
  pub is_member : (c g : ℕ) → w.group_of c ≡ some g → has c (members g w) ≡ true
  pub is_there :
      (c d g : ℕ) → w.group_of d ≡ some g → has c (members g w) ≡ true → w.group_of c ≡ some g
  pub is_known : (c g : ℕ) → w.group_of c ≡ some g → g < w.next_group

-- No other client is in a group that has the client as a member.
abbrev pub IsAlone : ℕ → World → Type 0
IsAlone c w = (d g : ℕ) → w.group_of d ≡ some g → has c (members g w) ≡ true → (d == c) ≡ true

MovesOut-IsSettled :
    (id c : ℕ) (w w' : World)
    → IsSettled w
    → w.group_of c ≡ some id
    → MovesOut id c w w'
    → IsSettled w'
MovesOut-IsSettled id c w w' s e m = record {
  is_member = λ x g h. ground (
    arith,
    m.0 g,
    m.1 x,
    s.is_member x g,
    s.is_known x g,
    has-without x c (members id w),
    has-single x c,
  );
  is_there = λ x d g h k. ground (
    arith,
    m.0 g,
    m.1 d,
    m.1 x,
    s.is_there x d g,
    s.is_known d g,
    has-without x c (members id w),
    has-single x c,
  );
  is_known = λ x g h. ground (arith, m.1 x, m.2, s.is_known x g);
}

MovesOut-IsAlone :
    (id c : ℕ) (w w' : World)
    → IsSettled w
    → w.group_of c ≡ some id
    → MovesOut id c w w'
    → IsAlone c w'
MovesOut-IsAlone id c w w' s e m = λ d g h k.
    ground (arith, m.0 g, m.1 d, s.is_there c d g, s.is_known d g, has-without c c (members id w))

-- Where everyone is after a client joined a group.
abbrev pub MovesIn : ℕ → ℕ → World → World → Type 0
MovesIn id c w w' =
    ((j : ℕ) → members j w' ≡ (if j == id then members id w ++ c ∷ [] else members j w))
    × ((d : ℕ) → w'.group_of d ≡ (if d == c then some id else w.group_of d))
    × (w'.next_group ≡ w.next_group)

MovesIn-IsSettled :
    (id c e : ℕ) (w w' : World)
    → IsSettled w
    → IsAlone c w
    → has c (members id w) ≡ false
    → w.group_of e ≡ some id
    → MovesIn id c w w'
    → IsSettled w'
MovesIn-IsSettled id c e w w' s a n live m = record {
  is_member = λ x g h.
      ground (
        arith,
        m.0 g,
        m.1 x,
        s.is_member x g,
        has-append x (members id w) (c ∷ []),
        has-single x c,
      );
  is_there = λ x d g h k. ground (
    arith,
    m.0 g,
    m.1 d,
    m.1 x,
    s.is_there x d g,
    s.is_there x e id,
    a d g,
    has-append x (members id w) (c ∷ []),
    has-single x c,
  );
  is_known = λ x g h. ground (arith, m.1 x, m.2, s.is_known x g, s.is_known e id);
}

module _ (info : ℕ → ClientInfo) where
  add_ungrouped-MovesIn :
      (id c : ℕ) (w : World)
      → stale_client info (info c).client_id (members id w) ≡ none
      → MovesIn id c w (add_ungrouped info id c w)
  unfolding add_ungrouped
  add_ungrouped-MovesIn id c w h = rw h ((λ j. ground arith), (λ d. refl), refl)

  -- What `ungroup` leaves: everyone settled, the client alone, and the group that it is to join as
  -- it was.
  ungroup-IsSettled :
      (id c e : ℕ) (w : World)
      → IsSettled w
      → has c (members id w) ≡ false
      → w.group_of e ≡ some id
      → IsSettled (ungroup info c w)
        × IsAlone c (ungroup info c w)
        × (members id (ungroup info c w) ≡ members id w)
        × ((ungroup info c w).group_of e ≡ some id)
        × ((d : ℕ) → (d == c) ≡ false → (ungroup info c w).group_of d ≡ w.group_of d)
  unfolding ungroup
  ungroup-IsSettled id c e w s n live = elim (Option-cases (w.group_of c)) [
    | inl q ↦
        rw q (s, (λ d g h k. absurd (ground (arith, s.is_there c d g))), refl, live, (λ d h. refl))
    | inr q ↦
        let m = remove_client-MovesOut info q.0 c w (s.is_member c q.0 q.1) in
        rw q.1 (
          MovesOut-IsSettled q.0 c w (remove_client info q.0 c w) s q.1 m,
          MovesOut-IsAlone q.0 c w (remove_client info q.0 c w) s q.1 m,
          ground (arith, m.0 id, s.is_member c q.0, s.is_known e id),
          ground (arith, m.1 e, s.is_member c id),
          (λ d h. ground (arith, m.1 d)),
        )
  ]

  -- Removing a client that is in its group leaves everyone settled, the client in a group of its
  -- own, which is new, and every other client in the group where it was.
  pub remove_client-IsSettled :
      (id c : ℕ) (w : World)
      → IsSettled w
      → w.group_of c ≡ some id
      → (let w' = remove_client info id c w in
          IsSettled w'
          × (w'.group_of c ≡ some w.next_group)
          × (members w.next_group w' ≡ c ∷ [])
          × ((d : ℕ) → (d == c) ≡ false → w'.group_of d ≡ w.group_of d))
  remove_client-IsSettled id c w s e =
      let m = remove_client-MovesOut info id c w (s.is_member c id e) in
      (
        MovesOut-IsSettled id c w (remove_client info id c w) s e m,
        ground (arith, m.1 c),
        ground (arith, m.0 w.next_group),
        (λ d h. ground (arith, m.1 d)),
      )

  -- Adding a client to a group that some client is in leaves everyone settled, the client in that
  -- group, wherever it came from, and every other client in the group where it was; that is so if
  -- no other client in the group has the same client id.
  pub add_client-IsSettled :
      (id c e : ℕ) (w : World)
      → IsSettled w
      → w.group_of e ≡ some id
      → stale_client info (info c).client_id (members id w) ≡ none ⊎ (has c (members id w) ≡ true)
      → (let w' = add_client info id c w in
          IsSettled w'
          × (w'.group_of c ≡ some id)
          × ((d : ℕ) → (d == c) ≡ false → w'.group_of d ≡ w.group_of d))
  unfolding add_client
  add_client-IsSettled id c e w s live fresh = elim (Bool-cases (has c (members id w))) [
    | inl h ↦ rw h (s, s.is_there c e id live h, (λ d k. refl))
    | inr h ↦
        let (s', a, same, live', others) = ungroup-IsSettled id c e w s h live in
        let f : stale_client info (info c).client_id (members id (ungroup info c w)) ≡ none =
          rw same (ground arith) in
        let m = add_ungrouped-MovesIn id c (ungroup info c w) f in
        rw h (
          MovesIn-IsSettled id c e (ungroup info c w) (add_ungrouped info id c (ungroup info c w))
              s' a (rw same h) live' m,
          ground (arith, m.1 c),
          (λ d k. ground (arith, m.1 d, others d k)),
        )
  ]
