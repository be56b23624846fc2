-- ===== src/Runtime/Release.antt =====
-- The release task as one run, and lemmas on what it leaves.
use ai_voice_agent.Prelude.{returned, ◌≡◌, ◌↔◌, Bool, true, false, not, ◌&&◌, ◌||◌, arith}
use ai_voice_agent.Runtime.{
  begin_release, stop, finish_release, release_database, release_started, redis_released,
  database_released, Released, Runtime, stopping, stopped, task_done, scheduled, closing_redis,
  disposing_database, release_done, release_failed, release_cancelled,
}

-- The release task from its first step to its end, with how its two awaits end.
pub release_run : Released → Released → Runtime → Runtime
unfolding release_started redis_released database_released
release_run how_redis how_database r =
    let continued : Runtime → Runtime = λ s. elim s.release_phase as (λ _. Runtime) [
      | task_done ↦ s
      | scheduled ↦ s
      | closing_redis ↦ s
      | disposing_database ↦ database_released how_database s
    ] in
    let first = release_started r in
    elim first.release_phase as (λ _. Runtime) [
      | task_done ↦ first
      | scheduled ↦ first
      | closing_redis ↦ continued (redis_released how_redis first)
      | disposing_database ↦ continued first
    ]

abbrev pub is_done : Released → Bool
is_done release_done = true
is_done release_failed = false
is_done release_cancelled = false

abbrev pub is_cancelled : Released → Bool
is_cancelled release_done = false
is_cancelled release_failed = false
is_cancelled release_cancelled = true

-- Whatever an earlier release left owned, a stop in state stopping with no release under way
-- schedules one, and when its two awaits end well the runtime is stopped and owns nothing.
pub stop_retries :
    (r : Runtime)
    → r.state ≡ stopping
    → r.release_phase ≡ task_done
    → (s : Runtime) × (stop r ≡ returned s)
      × ((release_run release_done release_done s).state ≡ stopped)
      × ((release_run release_done release_done s).database ≡ false)
      × ((release_run release_done release_done s).redis ≡ false)
unfolding stop begin_release release_run release_started release_database redis_released
    database_released finish_release
stop_retries r h idle =
    let s : Runtime = record r { release_phase = scheduled } in
    (s, ground arith, ground arith, ground arith, ground arith)

-- What a run of the release task leaves, for any two ends of its awaits: the Redis client is owned
-- afterwards exactly if it was and its close did not end well; the database exactly if it was and
-- either its disposal did not end well or the task was cancelled before it;
-- the task has ended; and the state, which was stopping, is stopped exactly if nothing is owned.
pub release_run_lem :
    (how_redis how_database : Released) (r : Runtime)
    → r.state ≡ stopping
    → r.release_phase ≡ scheduled
    → ((release_run how_redis how_database r).redis ≡ (r.redis && not (is_done how_redis)))
      × ((release_run how_redis how_database r).database
          ≡ (r.database && (not (is_done how_database) || (r.redis && is_cancelled how_redis))))
      × ((release_run how_redis how_database r).state ≡ stopped
          ↔ ((release_run how_redis how_database r).database
              || (release_run how_redis how_database r).redis)
            ≡ false)
      × ((release_run how_redis how_database r).release_phase ≡ task_done)
unfolding release_run release_started release_database redis_released database_released
    finish_release
release_run_lem how_redis how_database r h busy =
    (ground arith, ground arith, (λ e. ground arith, λ e. ground arith), ground arith)
