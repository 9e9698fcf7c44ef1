-- ===== src/Stream/Lifecycle.antt =====
-- Commits, joins and the two ways to end them in server/push_stream.py: `commit_audio` as its start
-- and its end, `on_role_join`, `_release_deferred_joins`, `stop` and `clear`, as far as they bear
-- on which commit may deliver and which join is put off.
use aiosendspin.Prelude.{
  ℕ, ◌+◌, ◌-◌, Bool, true, false, not, ◌&&◌, Option, none, some, List, [], ◌∷◌, ◌++◌, ◌==◌,
  if◌then◌else◌,
}
use aiosendspin.Prelude.Numbers.{has, without}

pub record Lifecycle : Type 0 where
  pub is_stopped : Bool
  pub generation : ℕ
  pub commit_in_flight : ℕ
  pub pending_join_roles : List ℕ
  pub joined : List ℕ

abbrev pub new_stream : Lifecycle
new_stream = record {
  is_stopped = false;
  generation = 0;
  commit_in_flight = 0;
  pending_join_roles = [];
  joined = [];
}

-- `_is_generation_active`
unfoldable pub is_generation_active : Option ℕ → Lifecycle → Bool
is_generation_active none s = not s.is_stopped
is_generation_active (some g) s = not s.is_stopped && s.generation == g

-- `_do_role_join`, as far as it is seen here: the role is no longer put off, and has joined.
unfoldable pub run_join : ℕ → Lifecycle → Lifecycle
run_join role s = record s {
  pending_join_roles = without role s.pending_join_roles;
  joined = s.joined ++ role ∷ [];
}

unfoldable pub run_joins : List ℕ → Lifecycle → Lifecycle
run_joins [] s = s
run_joins (role ∷ roles) s = run_joins roles (run_join role s)

-- `_release_deferred_joins`
unfoldable pub release_deferred_joins : Lifecycle → Lifecycle
release_deferred_joins s =
    if s.commit_in_flight == 0
    then run_joins s.pending_join_roles (record s { pending_join_roles = [] })
    else s

abbrev pub add_role : ℕ → List ℕ → List ℕ
add_role role roles = if has role roles then roles else roles ++ role ∷ []

unfoldable pub join_role : ℕ → Lifecycle → Lifecycle
join_role role s =
    if s.commit_in_flight == 0
    then run_join role s
    else record s { pending_join_roles = add_role role s.pending_join_roles }

-- `none` is the `StreamStoppedError`; the number is the generation that the commit keeps.
unfoldable pub begin_commit : Lifecycle → Option (ℕ × Lifecycle)
begin_commit s =
    if s.is_stopped
    then none
    else some (s.generation, record s { commit_in_flight = s.commit_in_flight + 1 })

-- The `finally` block of `commit_audio`.
unfoldable pub end_commit : Lifecycle → Lifecycle
end_commit s = release_deferred_joins (record s { commit_in_flight = s.commit_in_flight - 1 })

unfoldable pub stop_stream : Lifecycle → Lifecycle
stop_stream s =
    if s.is_stopped
    then s
    else record s { is_stopped = true; generation = s.generation + 1; pending_join_roles = [] }

unfoldable pub clear_stream : Lifecycle → Lifecycle
clear_stream s = record s { generation = s.generation + 1; pending_join_roles = [] }

unfoldable pub leave_role : ℕ → Lifecycle → Lifecycle
leave_role role s = record s { pending_join_roles = without role s.pending_join_roles }

pub data StreamCall : Type 0 where
  begin end stop clear : StreamCall
  join leave : ℕ → StreamCall

abbrev pub after_begin : Lifecycle → Option (ℕ × Lifecycle) → Lifecycle
after_begin s none = s
after_begin s (some (g, s')) = s'

-- An `end` without a commit in flight cannot occur, and does nothing here.
unfoldable pub stream_step : StreamCall → Lifecycle → Lifecycle
stream_step begin s = after_begin s (begin_commit s)
stream_step end s = if s.commit_in_flight == 0 then s else end_commit s
stream_step stop s = stop_stream s
stream_step clear s = clear_stream s
stream_step (join role) s = join_role role s
stream_step (leave role) s = leave_role role s

unfoldable pub stream_run : List StreamCall → Lifecycle → Lifecycle
stream_run [] s = s
stream_run (c ∷ cs) s = stream_run cs (stream_step c s)
