-- ===== src/Grouping/Moves.antt =====
-- How a client joins and leaves a group: `remove_client` and `add_client` of server/group.py, with
-- `_set_group` and `ungroup` of server/client.py.
use aiosendspin.Prelude.{
  ℕ, ◌+◌, String, Bool, true, false, ◌&&◌, ◌||◌, Option, none, some, List, [], ◌∷◌, ◌++◌, any, ◌==◌,
  str_eq, if◌then◌else◌,
}
use aiosendspin.Prelude.Numbers.{has, without}
use aiosendspin.Roles.Registry.{has_role_family}
use aiosendspin.Grouping.World.{
  stopped, no_stream, is_running, AudioRole, ClientInfo, member_added, member_removed,
  group_deleted, Effect, signal, role_join, role_leave, request_connection, stream_end,
  prune_transformers, group_changed, unregister, World, group_name, perform, update_group,
  update_for, publish_if_name_changed, stop_and_invalidate,
}

abbrev pub unregister_from : ℕ → Option ℕ → List Effect
unregister_from c none = []
unregister_from c (some g) = unregister g c ∷ []

-- `_set_group` of the client.
unfoldable pub set_group : ℕ → ℕ → World → World
set_group c id w = record w {
  group_of = λ d. if d == c then some id else w.group_of d;
  effects = w.effects ++ unregister_from c (w.group_of c) ++ group_changed id c ∷ [];
}

abbrev pub set_clients : ℕ → List ℕ → World → World
set_clients id cs w = update_group id (record (w.groups id) { clients = cs }) w

abbrev pub is_single : List ℕ → Bool
is_single (d ∷ []) = true
is_single _ = false

unfoldable pub replace_client : ℕ → ℕ → List ℕ → List ℕ
replace_client stale c [] = []
replace_client stale c (d ∷ ds) = if d == stale then c ∷ ds else d ∷ replace_client stale c ds

-- The hooks of the roles of a client that leaves others behind.
unfoldable pub leave_roles : ℕ → Bool → List AudioRole → List Effect
leave_roles id streaming [] = []
leave_roles id streaming (r ∷ rs) =
    (if streaming then stream_end r.role ∷ role_leave id r.role ∷ [] else stream_end r.role ∷ [])
    ++ leave_roles id streaming rs

-- The joins of a client's roles to the group's running stream.
unfoldable pub join_roles : ℕ → Bool → List AudioRole → List Effect
join_roles id connected [] = []
join_roles id connected (r ∷ rs) =
    let rest = join_roles id connected rs in
    if r.has_requirements && (connected || r.supports_preconnect_audio)
    then role_join id r.role ∷ rest
    else rest

module _ (info : ℕ → ClientInfo) where
  abbrev pub has_player : List ℕ → Bool
  has_player cs = any (λ c. has_role_family "player" (info c).negotiated_role_ids) cs

  -- `SendspinGroup(self._server, client)`
  unfoldable pub new_group : ℕ → World → World
  unfolding set_group
  new_group c w =
      let id = w.next_group in
      let founded = set_group c id (
        update_group id
          (record { clients = c ∷ []; given_name = none; state = stopped; stream = no_stream })
          (record w { next_group = id + 1 })) in
      perform (update_for info id (founded.groups id) c) founded

  -- The branch of `remove_client` for the last client.
  abbrev pub remove_last : ℕ → ℕ → World → World
  remove_last id c w =
      perform (signal id group_deleted ∷ [])
        (set_clients id [] (stop_and_invalidate info (c ∷ []) id w))

  -- The branch for one client of several.
  abbrev pub remove_one : ℕ → ℕ → World → World
  remove_one id c w =
      let previous_name = group_name info (w.groups id) in
      let streaming = is_running (w.groups id).stream in
      let left =
        perform (leave_roles id streaming (info c).active_roles ++ prune_transformers id ∷ [])
          (set_clients id (without c (w.groups id).clients) w) in
      let remnant = (left.groups id).clients in
      publish_if_name_changed info id previous_name (
        perform (signal id (member_removed (info c).client_id) ∷ [])
          (if has_player remnant then left else stop_and_invalidate info remnant id left))

  unfoldable pub remove_client : ℕ → ℕ → World → World
  remove_client id c w =
      if has c (w.groups id).clients
      then new_group c
          (if is_single (w.groups id).clients then remove_last id c w else remove_one id c w)
      else w

  abbrev pub ungroup_from : ℕ → Option ℕ → World → World
  ungroup_from c none w = w
  ungroup_from c (some id) w = remove_client id c w

  -- `ungroup` of the client.
  unfoldable pub ungroup : ℕ → World → World
  ungroup c w = ungroup_from c (w.group_of c) w

  -- The first member with this client id.
  unfoldable pub stale_client : String → List ℕ → Option ℕ
  stale_client id [] = none
  stale_client id (d ∷ ds) = if str_eq (info d).client_id id then some d else stale_client id ds

  abbrev pub insert_client : ℕ → ℕ → Option ℕ → World → World
  insert_client id c none w = set_clients id ((w.groups id).clients ++ c ∷ []) w
  insert_client id c (some stale) w =
      perform (unregister id stale ∷ [])
        (set_clients id (replace_client stale c (w.groups id).clients) w)

  abbrev pub join_stream : ℕ → ℕ → List Effect
  join_stream id c =
      if (info c).is_connected
      then join_roles id true (info c).active_roles
      else request_connection (info c).client_id ∷ join_roles id false (info c).active_roles

  -- `add_client` past its first test, of a client that was ungrouped.
  unfoldable pub add_ungrouped : ℕ → ℕ → World → World
  unfolding set_group
  add_ungrouped id c w =
      let inserted = insert_client id c (stale_client (info c).client_id (w.groups id).clients) w in
      let joined =
        set_group c id (perform (signal id (member_added (info c).client_id) ∷ []) inserted) in
      let g = joined.groups id in
      perform ((if is_running g.stream then join_stream id c else []) ++ update_for info id g c)
        joined

  unfoldable pub add_client : ℕ → ℕ → World → World
  add_client id c w = if has c (w.groups id).clients then w else add_ungrouped id c (ungroup c w)
