-- ===== src/Grouping/World.antt =====
-- The state of `SendspinGroup` of server/group.py, for all groups of a server at once, and what
-- ends the playback of one. Clients, groups and roles are numbers; a call runs to its end before
-- the next.
use aiosendspin.Prelude.{
  ℕ, String, Bool, true, false, not, ◌&&◌, ◌||◌, Option, none, some, List, [], ◌∷◌, ◌++◌, ◌==◌,
  str_eq, if◌then◌else◌,
}

pub data PlaybackState : Type 0 where
  playing stopped : PlaybackState

-- `_push_stream`: none, one that runs, or one that was stopped.
pub data StreamState : Type 0 where
  no_stream running_stream stopped_stream : StreamState

pub record ClientGroup : Type 0 where
  pub clients : List ℕ
  pub given_name : Option String
  pub state : PlaybackState
  pub stream : StreamState

-- A role of a client, with what the group asks of it.
pub record AudioRole : Type 0 where
  pub role : ℕ
  pub has_requirements : Bool
  pub supports_preconnect_audio : Bool

-- What the group asks of a client.
pub record ClientInfo : Type 0 where
  pub client_id : String
  pub client_name : String
  pub is_connected : Bool
  pub receives_group_updates : Bool
  pub negotiated_role_ids : List String
  pub active_roles : List AudioRole

pub data GroupEvent : Type 0 where
  state_changed : PlaybackState → GroupEvent
  member_added member_removed : String → GroupEvent
  group_deleted : GroupEvent

-- What a call does beside the state. The payload of a group/update is the state and the name.
pub data Effect : Type 0 where
  signal : ℕ → GroupEvent → Effect
  group_update : ℕ → ℕ → PlaybackState → String → Effect
  stream_end : ℕ → Effect
  role_join role_leave : ℕ → ℕ → Effect
  request_connection : String → Effect
  stop_push_stream clear_push_stream freeze_progress reset_progress prune_transformers : ℕ → Effect
  group_changed unregister : ℕ → ℕ → Effect

pub record World : Type 0 where
  pub groups : ℕ → ClientGroup
  pub group_of : ℕ → Option ℕ
  pub next_group : ℕ
  pub effects : List Effect

abbrev pub perform : List Effect → World → World
perform es w = record w { effects = w.effects ++ es }

abbrev pub update_group : ℕ → ClientGroup → World → World
update_group id g w = record w { groups = λ j. if j == id then g else w.groups j }

abbrev pub state_eq : PlaybackState → PlaybackState → Bool
state_eq playing playing = true
state_eq stopped stopped = true
state_eq _ _ = false

abbrev pub is_running : StreamState → Bool
is_running running_stream = true
is_running _ = false

abbrev pub is_none : StreamState → Bool
is_none no_stream = true
is_none _ = false

-- `stop_stream`
unfoldable pub stop_stream : ℕ → World → World
stop_stream id w =
    if is_none (w.groups id).stream
    then w
    else update_group id (record (w.groups id) { stream = no_stream })
        (perform (stop_push_stream id ∷ []) w)

abbrev pub has_members : List ℕ → Bool
has_members [] = false
has_members (c ∷ cs) = true

-- `stop`; its result is that `needs_stop` holds.
abbrev pub needs_stop : ClientGroup → Bool
needs_stop g = has_members g.clients && (is_running g.stream || not (state_eq g.state stopped))

unfoldable pub end_roles : List AudioRole → List Effect
end_roles [] = []
end_roles (r ∷ rs) = stream_end r.role ∷ end_roles rs

module _ (info : ℕ → ClientInfo) where
  abbrev pub first_name : List ℕ → String
  first_name [] = ""
  first_name (c ∷ cs) = (info c).client_name

  abbrev pub name_of : Option String → List ℕ → String
  name_of none cs = first_name cs
  name_of (some name) cs = name

  -- `group_name`
  unfoldable pub group_name : ClientGroup → String
  group_name g = name_of g.given_name g.clients

  -- `_send_group_update`
  unfoldable pub update_for : ℕ → ClientGroup → ℕ → List Effect
  update_for id g c =
      if (info c).receives_group_updates then group_update c id g.state (group_name g) ∷ [] else []

  unfoldable pub updates_for : ℕ → ClientGroup → List ℕ → List Effect
  updates_for id g [] = []
  updates_for id g (c ∷ cs) = update_for id g c ++ updates_for id g cs

  -- `_send_group_update_to_clients`
  unfoldable pub send_group_update_to_clients : ℕ → World → World
  send_group_update_to_clients id w = perform (updates_for id (w.groups id) (w.groups id).clients) w

  -- `_publish_if_name_changed`
  unfoldable pub publish_if_name_changed : ℕ → String → World → World
  publish_if_name_changed id previous w =
      if str_eq (group_name (w.groups id)) previous then w else send_group_update_to_clients id w

  -- `_set_playback_state`
  unfoldable pub set_playback_state : ℕ → PlaybackState → World → World
  set_playback_state id s w =
      if state_eq (w.groups id).state s
      then w
      else send_group_update_to_clients id (
          perform (signal id (state_changed s) ∷ [])
            (update_group id (record (w.groups id) { state = s }) w))

  unfoldable pub stop : Bool → ℕ → World → World
  stop keep_progress id w =
      if needs_stop (w.groups id)
      then set_playback_state id stopped (
          stop_stream id
            (perform ((if keep_progress then freeze_progress id else reset_progress id) ∷ []) w))
      else w

  unfoldable pub end_clients : List ℕ → List Effect
  end_clients [] = []
  end_clients (c ∷ cs) = end_roles (info c).active_roles ++ end_clients cs

  -- `_stop_and_invalidate_stale_binary`
  unfoldable pub stop_and_invalidate : List ℕ → ℕ → World → World
  stop_and_invalidate cs id w =
      let was_playing = not (state_eq (w.groups id).state stopped) in
      let had_active_stream = is_running (w.groups id).stream in
      let ended = stop false id w in
      if was_playing && not had_active_stream then perform (end_clients cs) ended else ended

  -- `start_stream`; a stream that runs is cleared and stopped, keeping the protocol stream.
  unfoldable pub reclaim : List ℕ → List Effect
  reclaim [] = []
  reclaim (c ∷ cs) =
      let rest = reclaim cs in
      if (info c).is_connected then rest else request_connection (info c).client_id ∷ rest

  unfoldable pub start_stream : ℕ → World → World
  start_stream id w =
      let g = w.groups id in
      let replaced =
        if is_running g.stream then clear_push_stream id ∷ stop_push_stream id ∷ [] else [] in
      set_playback_state id playing (
        update_group id (record g { stream = running_stream })
          (perform (replaced ++ reclaim g.clients) w))

  -- `set_group_name`
  unfoldable pub set_group_name : ℕ → Option String → World → World
  set_group_name id name w =
      publish_if_name_changed id (group_name (w.groups id))
        (update_group id (record (w.groups id) { given_name = name }) w)
