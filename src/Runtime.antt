-- ===== src/Runtime.antt =====
-- voice_agent/platform/infrastructure/runtime.py: InfrastructureRuntime, the owner of the database
-- engine and the Redis client. One function per stretch of code between two awaits.
pub mod Steps
pub mod Release
mod Tests
use ai_voice_agent.Prelude.{Outcome, returned, raised, Bool, true, false, ◌&&◌, ◌||◌, if◌then◌else◌}

-- RuntimeState
pub data RuntimeState : Type 0 where
  new : RuntimeState
  starting : RuntimeState
  ready : RuntimeState
  stopping : RuntimeState
  stopped : RuntimeState

pub data CheckStatus : Type 0 where
  ok : CheckStatus
  failed : CheckStatus
  skipped : CheckStatus

pub record ReadinessReport : Type 0 where
  pub ready : Bool
  pub postgres : CheckStatus
  pub redis : CheckStatus

-- Where start() waits.
pub data StartPhase : Type 0 where
  not_starting : StartPhase
  verifying_database : StartPhase
  verifying_redis : StartPhase

-- Where the release task stands; `task_done` is also the state before there is a task.
pub data ReleasePhase : Type 0 where
  task_done : ReleasePhase
  scheduled : ReleasePhase
  closing_redis : ReleasePhase
  disposing_database : ReleasePhase

-- How an awaited release of one resource ends: an Exception or a timeout, or a cancellation, which
-- _release_one does not catch.
pub data Released : Type 0 where
  release_done : Released
  release_failed : Released
  release_cancelled : Released

-- How an awaited ping ends: InfrastructureError is caught, everything else propagates.
pub data Ping : Type 0 where
  answered : Ping
  infrastructure_error : Ping
  other_error : Ping

pub record Runtime : Type 0 where
  pub state : RuntimeState
  pub database : Bool
  pub redis : Bool
  pub start_phase : StartPhase
  pub release_phase : ReleasePhase

unfoldable pub initial : Runtime
initial = record {
  state = new;
  database = false;
  redis = false;
  start_phase = not_starting;
  release_phase = task_done;
}

-- _release, up to its wait: a task that is not done is joined.
unfoldable pub begin_release : Runtime → Runtime
begin_release r = elim r.release_phase as (λ _. Runtime) [
  | task_done ↦ record r { release_phase = scheduled }
  | scheduled ↦ r
  | closing_redis ↦ r
  | disposing_database ↦ r
]

-- The `except BaseException` branch of start.
unfoldable pub start_failed : Runtime → Runtime
unfolding begin_release
start_failed r = begin_release (record r { state = stopping; start_phase = not_starting })

-- start, up to its first wait; `created` says that the engine was created.
unfoldable pub start : Bool → Runtime → Outcome Runtime
unfolding start_failed
start created r = elim r.state as (λ _. Outcome Runtime) [
  | new ↦
      let s = record r { state = starting } in
      returned (
        if created
        then record s { database = true; start_phase = verifying_database }
        else start_failed s)
  | starting ↦ raised
  | ready ↦ raised
  | stopping ↦ raised
  | stopped ↦ raised
]

-- start, from the end of verify_database_baseline to the next wait.
unfoldable pub database_verified : Bool → Bool → Runtime → Runtime
unfolding start_failed
database_verified verified created r =
    if verified && created
    then record r { redis = true; start_phase = verifying_redis }
    else start_failed r

-- start, from the end of RedisClient.verify_baseline.
unfoldable pub redis_verified : Bool → Runtime → Runtime
unfolding start_failed
redis_verified verified r =
    if verified then record r { state = ready; start_phase = not_starting } else start_failed r

-- stop, up to its wait
unfoldable pub stop : Runtime → Outcome Runtime
unfolding begin_release
stop r = elim r.state as (λ _. Outcome Runtime) [
  | new ↦ returned (record r { state = stopped })
  | starting ↦ raised
  | ready ↦ returned (begin_release (record r { state = stopping }))
  | stopping ↦ returned (begin_release r)
  | stopped ↦ returned r
]

-- The end of _release_owned_resources.
unfoldable pub finish_release : Runtime → Runtime
finish_release r =
    let done = record r { release_phase = task_done } in
    if r.redis || r.database then done else record done { state = stopped }

-- _release_owned_resources, from the database on.
unfoldable pub release_database : Runtime → Runtime
unfolding finish_release
release_database r =
    if r.database then record r { release_phase = disposing_database } else finish_release r

-- The start of _release_owned_resources.
unfoldable pub release_started : Runtime → Runtime
unfolding release_database
release_started r =
    if r.redis then record r { release_phase = closing_redis } else release_database r

unfoldable pub redis_released : Released → Runtime → Runtime
unfolding release_database
redis_released release_done r = release_database (record r { redis = false })
redis_released release_failed r = release_database r
redis_released release_cancelled r = record r { release_phase = task_done }

unfoldable pub database_released : Released → Runtime → Runtime
unfolding finish_release
database_released release_done r = finish_release (record r { database = false })
database_released release_failed r = finish_release r
database_released release_cancelled r = record r { release_phase = task_done }

-- The release task is cancelled before its first step.
unfoldable pub release_dropped : Runtime → Runtime
release_dropped r = record r { release_phase = task_done }

-- The `database` and `redis` properties.
unfoldable pub is_ready : RuntimeState → Bool
is_ready new = false
is_ready starting = false
is_ready ready = true
is_ready stopping = false
is_ready stopped = false

unfoldable pub get_database : Runtime → Outcome (Unit {0})
unfolding is_ready
get_database r = if is_ready r.state && r.database then returned tt else raised

unfoldable pub get_redis : Runtime → Outcome (Unit {0})
unfolding is_ready
get_redis r = if is_ready r.state && r.redis then returned tt else raised

report_redis : Ping → Outcome ReadinessReport
report_redis answered = returned (record { ready = true; postgres = ok; redis = ok })
report_redis infrastructure_error =
    returned (record { ready = false; postgres = ok; redis = failed })
report_redis other_error = raised

report : Ping → Ping → Outcome ReadinessReport
unfolding report_redis
report answered redis_ping = report_redis redis_ping
report infrastructure_error redis_ping =
    returned (record { ready = false; postgres = failed; redis = skipped })
report other_error redis_ping = raised

-- check_readiness; the Redis ping is only made, and its result only used, after a database ping.
unfoldable pub check_readiness : Ping → Ping → Runtime → Outcome ReadinessReport
unfolding is_ready report report_redis
check_readiness database_ping redis_ping r =
    if is_ready r.state && (r.database && r.redis)
    then report database_ping redis_ping
    else returned (record { ready = false; postgres = skipped; redis = skipped })
