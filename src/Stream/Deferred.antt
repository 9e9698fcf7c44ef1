-- ===== src/Stream/Deferred.antt =====
-- No join is forgotten.
use aiosendspin.Prelude.{
  ℕ, ◌-◌, ◌<◌, ◌≡◌, ◌⊎◌, true, false, List, [], ◌∷◌, any, ◌==◌, Bool-cases, inl, inr, All, arith,
}
use aiosendspin.Prelude.Numbers.{has, has-append, has-without}
use aiosendspin.Stream.Lifecycle.{
  Lifecycle, run_join, run_joins, release_deferred_joins, join_role, begin_commit, end_commit,
  leave_role, StreamCall, begin, end, stop, clear, join, leave, stream_step, stream_run,
}

-- The role has joined, or waits for a commit that is in flight.
abbrev pub IsHandled : ℕ → Lifecycle → Type 0
IsHandled role s =
    (has role s.joined ≡ true) ⊎ ((has role s.pending_join_roles ≡ true) × (0 < s.commit_in_flight))

run_joins-joined :
    (role : ℕ) (roles : List ℕ) (s : Lifecycle)
    → (has role roles ≡ true) ⊎ (has role s.joined ≡ true)
    → has role (run_joins roles s).joined ≡ true
unfolding run_joins run_join any
run_joins-joined role [] s h = ground arith
run_joins-joined role (r ∷ rs) s h =
    run_joins-joined role rs (run_join r s) (ground (arith, has-append role s.joined (r ∷ [])))

end_commit-IsHandled : (role : ℕ) (s : Lifecycle) → IsHandled role s → IsHandled role (end_commit s)
unfolding end_commit release_deferred_joins
end_commit-IsHandled role s h = elim (Bool-cases (s.commit_in_flight - 1 == 0)) [
  | inl e ↦ rw e (inl (run_joins-joined role s.pending_join_roles _ (ground arith)))
  | inr e ↦ rw e (ground arith)
]

-- The calls that neither end the stream nor take this role out of it.
abbrev pub KeepsRole : ℕ → StreamCall → Type 0
KeepsRole role begin = Unit
KeepsRole role end = Unit
KeepsRole role (join r) = Unit
KeepsRole role (leave r) = (r == role) ≡ false
KeepsRole role _ = ⊥

stream_step-IsHandled :
    (role : ℕ) (c : StreamCall) (s : Lifecycle)
    → KeepsRole role c
    → IsHandled role s
    → IsHandled role (stream_step c s)
unfolding stream_step begin_commit join_role run_join leave_role
stream_step-IsHandled role begin s k h = ground arith
stream_step-IsHandled role end s k h = elim (Bool-cases (s.commit_in_flight == 0)) [
  | inl e ↦ rw e h
  | inr e ↦ rw e (end_commit-IsHandled role s h)
]
stream_step-IsHandled role (join r) s k h = ground (
  arith,
  has-append role s.joined (r ∷ []),
  has-append role s.pending_join_roles (r ∷ []),
  has-without role r s.pending_join_roles,
)
stream_step-IsHandled role stop s k h = elim k [ ]
stream_step-IsHandled role clear s k h = elim k [ ]
stream_step-IsHandled role (leave r) s k h = ground (arith, has-without role r s.pending_join_roles)

join-IsHandled : (role : ℕ) (s : Lifecycle) → IsHandled role (stream_step (join role) s)
unfolding stream_step join_role run_join any
join-IsHandled role s =
    ground (
      arith,
      has-append role s.joined (role ∷ []),
      has-append role s.pending_join_roles (role ∷ []),
    )

-- No join is forgotten: after a role joins, and until it leaves or the stream is stopped or
-- cleared, it has been given its join or waits for a commit that is in flight; with none in flight
-- it has.
pub stream_run-IsHandled :
    (role : ℕ) (cs : List StreamCall) (s : Lifecycle)
    → All (KeepsRole role) cs
    → IsHandled role (stream_run (join role ∷ cs) s)
unfolding stream_run
stream_run-IsHandled role cs s k = onwards cs (stream_step (join role) s) k (join-IsHandled role s)
  where
    onwards :
        (cs : List StreamCall) (s : Lifecycle)
        → All (KeepsRole role) cs
        → IsHandled role s
        → IsHandled role (stream_run cs s)
    onwards [] s k h = h
    onwards (c ∷ cs) s k h = onwards cs (stream_step c s) k.1 (stream_step-IsHandled role c s k.0 h)
