-- ===== src/Runtime/Steps.antt =====
-- Every interleaving of the calls on one runtime: the steps between two awaits, in any order that
-- the event loop can run them, and what they keep.
use ai_voice_agent.Prelude.{returned, ◌≡◌, refl, ◌≢◌, ◌↔◌, Bool, true, false, arith}
use ai_voice_agent.Runtime.{
  initial, begin_release, start_failed, start, database_verified, redis_verified, stop,
  finish_release, release_database, release_started, redis_released, database_released,
  release_dropped, is_ready, get_database, get_redis, check_readiness, RuntimeState,
  ReadinessReport, StartPhase, ReleasePhase, Released, Ping, Runtime, new, starting, ready,
  stopping, stopped, not_starting, verifying_database, verifying_redis, task_done, scheduled,
  closing_redis, disposing_database, release_done, release_failed, release_cancelled, answered,
  report_redis, report,
}

-- One step; `start` and `stop` may be called in every state, the others continue what waits.
pub data Step : Runtime → Runtime → Type 0 where
  step_start : {r s : Runtime} (created : Bool) → start created r ≡ returned s → Step r s
  step_database :
      {r : Runtime} (verified created : Bool)
      → r.start_phase ≡ verifying_database
      → Step r (database_verified verified created r)
  step_redis :
      {r : Runtime} (verified : Bool)
      → r.start_phase ≡ verifying_redis
      → Step r (redis_verified verified r)
  step_stop : {r s : Runtime} → stop r ≡ returned s → Step r s
  step_release : {r : Runtime} → r.release_phase ≡ scheduled → Step r (release_started r)
  step_dropped : {r : Runtime} → r.release_phase ≡ scheduled → Step r (release_dropped r)
  step_redis_released :
      {r : Runtime} (how : Released)
      → r.release_phase ≡ closing_redis
      → Step r (redis_released how r)
  step_database_released :
      {r : Runtime} (how : Released)
      → r.release_phase ≡ disposing_database
      → Step r (database_released how r)

-- What can be reached from a new runtime.
pub data Reachable : Runtime → Type 0 where
  at_start : Reachable initial
  after_step : {r s : Runtime} → Reachable r → Step r s → Reachable s

-- What start's wait and the state say of each other, and of what is owned.
Waits : RuntimeState → StartPhase → Bool → Bool → ReleasePhase → Type 0
Waits new phase database redis release =
    (phase ≡ not_starting) × (release ≡ task_done) × (database ≡ false) × (redis ≡ false)
Waits starting not_starting database redis release = ⊥
Waits starting verifying_database database redis release =
    (release ≡ task_done) × (database ≡ true) × (redis ≡ false)
Waits starting verifying_redis database redis release =
    (release ≡ task_done) × (database ≡ true) × (redis ≡ true)
Waits ready phase database redis release =
    (phase ≡ not_starting) × (release ≡ task_done) × (database ≡ true) × (redis ≡ true)
Waits stopping phase database redis closing_redis = (phase ≡ not_starting) × (redis ≡ true)
Waits stopping phase database redis disposing_database = (phase ≡ not_starting) × (database ≡ true)
Waits stopping phase database redis scheduled = phase ≡ not_starting
Waits stopping phase database redis task_done = phase ≡ not_starting
Waits stopped phase database redis release =
    (phase ≡ not_starting) × (release ≡ task_done) × (database ≡ false) × (redis ≡ false)

pub Owned : Runtime → Type 0
unfolding Waits
Owned r = Waits r.state r.start_phase r.database r.redis r.release_phase

initial-Owned : Owned initial
unfolding Owned Waits initial
initial-Owned = (refl, refl, refl, refl)

begin_release-Owned : (r : Runtime) → r.state ≡ stopping → Owned r → Owned (begin_release r)
unfolding Owned Waits begin_release
begin_release-Owned r h w = ground arith

start_failed-Owned : (r : Runtime) → r.release_phase ≡ task_done → Owned (start_failed r)
unfolding Owned Waits start_failed begin_release
start_failed-Owned r h = ground arith

finish_release-Owned :
    (r : Runtime) → r.state ≡ stopping → r.start_phase ≡ not_starting → Owned (finish_release r)
unfolding Owned Waits finish_release
finish_release-Owned r h w = ground arith

release_database-Owned :
    (r : Runtime) → r.state ≡ stopping → r.start_phase ≡ not_starting → Owned (release_database r)
unfolding Owned Waits release_database
release_database-Owned r h w = ground (arith, finish_release-Owned r h w)

start-Owned : (created : Bool) (r s : Runtime) → Owned r → start created r ≡ returned s → Owned s
unfolding Owned Waits start start_failed begin_release
start-Owned created r s h e = ground arith

stop-Owned : (r s : Runtime) → Owned r → stop r ≡ returned s → Owned s
unfolding Owned Waits stop begin_release
stop-Owned r s h e = ground arith

database_verified-Owned :
    (verified created : Bool) (r : Runtime)
    → r.start_phase ≡ verifying_database
    → Owned r
    → Owned (database_verified verified created r)
unfolding Owned Waits database_verified start_failed begin_release
database_verified-Owned verified created r w h = ground arith

redis_verified-Owned :
    (verified : Bool) (r : Runtime)
    → r.start_phase ≡ verifying_redis
    → Owned r
    → Owned (redis_verified verified r)
unfolding Owned Waits redis_verified start_failed begin_release
redis_verified-Owned verified r w h = ground arith

releasing :
    (r : Runtime)
    → Owned r
    → r.release_phase ≢ task_done
    → (r.state ≡ stopping) × (r.start_phase ≡ not_starting)
unfolding Owned Waits
releasing r h busy = ground arith

release_started-Owned :
    (r : Runtime) → r.release_phase ≡ scheduled → Owned r → Owned (release_started r)
unfolding Owned Waits release_started
release_started-Owned r w h = ground (arith, releasing r h, release_database-Owned r)

release_dropped-Owned :
    (r : Runtime) → r.release_phase ≡ scheduled → Owned r → Owned (release_dropped r)
unfolding Owned Waits release_dropped
release_dropped-Owned r w h = ground arith

redis_released-Owned :
    (how : Released) (r : Runtime)
    → r.release_phase ≡ closing_redis
    → Owned r
    → Owned (redis_released how r)
unfolding redis_released Owned Waits
redis_released-Owned release_done r w h =
    release_database-Owned (record r { redis = false }) (ground arith) (ground arith)
redis_released-Owned release_failed r w h = release_database-Owned r (ground arith) (ground arith)
redis_released-Owned release_cancelled r w h = ground arith

database_released-Owned :
    (how : Released) (r : Runtime)
    → r.release_phase ≡ disposing_database
    → Owned r
    → Owned (database_released how r)
unfolding database_released Owned Waits
database_released-Owned release_done r w h =
    finish_release-Owned (record r { database = false }) (ground arith) (ground arith)
database_released-Owned release_failed r w h = finish_release-Owned r (ground arith) (ground arith)
database_released-Owned release_cancelled r w h = ground arith

Step-Owned : {r s : Runtime} → Step r s → Owned r → Owned s
Step-Owned (step_start {r} {s} created e) h = start-Owned created r s h e
Step-Owned (step_database {r} verified created w) h = database_verified-Owned verified created r w h
Step-Owned (step_redis {r} verified w) h = redis_verified-Owned verified r w h
Step-Owned (step_stop {r} {s} e) h = stop-Owned r s h e
Step-Owned (step_release {r} w) h = release_started-Owned r w h
Step-Owned (step_dropped {r} w) h = release_dropped-Owned r w h
Step-Owned (step_redis_released {r} how w) h = redis_released-Owned how r w h
Step-Owned (step_database_released {r} how w) h = database_released-Owned how r w h

pub Reachable-Owned : {r : Runtime} → Reachable r → Owned r
Reachable-Owned at_start = initial-Owned
Reachable-Owned (after_step reach step) = Step-Owned step (Reachable-Owned reach)

-- In every state that any interleaving of starts, stops, verifications and releases reaches, be
-- they done, failed or cancelled: a stopped runtime owns nothing, no release task is left, no start
-- waits, and a further stop changes nothing.
pub stopped_owns_nothing :
    (r : Runtime)
    → Reachable r
    → r.state ≡ stopped
    → (r.database ≡ false)
      × (r.redis ≡ false)
      × (r.release_phase ≡ task_done)
      × (r.start_phase ≡ not_starting)
      × (stop r ≡ returned r)
unfolding Owned Waits stop
stopped_owns_nothing r reach e =
    let h : Owned r = Reachable-Owned reach in
    (ground arith, ground arith, ground arith, ground arith, ground arith)

-- In every state that can be reached, the database and redis properties return a resource exactly
-- if the state is ready: none raises then, and both raise in every other state.
pub ready_owns_both :
    (r : Runtime)
    → Reachable r
    → (get_database r ≡ returned tt ↔ r.state ≡ ready)
      × (get_redis r ≡ returned tt ↔ r.state ≡ ready)
unfolding Owned Waits get_database get_redis is_ready
ready_owns_both r reach =
    let h : Owned r = Reachable-Owned reach in
    ((λ e. ground arith, λ e. ground arith), (λ e. ground arith, λ e. ground arith))

-- In every state that can be reached, a report of check_readiness says ready exactly if the runtime
-- is in state ready and both pings were answered.
pub readiness_iff :
    (r : Runtime) (database_ping redis_ping : Ping) (found : ReadinessReport)
    → Reachable r
    → check_readiness database_ping redis_ping r ≡ returned found
    → (found.ready ≡ true)
      ↔ ((r.state ≡ ready) × (database_ping ≡ answered) × (redis_ping ≡ answered))
unfolding Owned Waits check_readiness report report_redis is_ready
readiness_iff r database_ping redis_ping found reach e =
    let h : Owned r = Reachable-Owned reach in (λ is. ground arith, λ is. ground arith)
