-- ===== src/Runtime/Tests.antt =====
-- Runs of one runtime, and the theorems at them.
use ai_voice_agent.Prelude.{returned, ◌≡◌, refl, ◌↔◌, true, false, not, ◌&&◌, ◌||◌}
use ai_voice_agent.Runtime.{
  initial, begin_release, start_failed, start, database_verified, redis_verified, stop,
  finish_release, release_database, release_started, get_database, get_redis, check_readiness,
  ReadinessReport, Runtime, starting, ready, stopping, stopped, ok, failed, not_starting,
  verifying_database, verifying_redis, task_done, scheduled, release_done, release_failed, answered,
  infrastructure_error,
}
use ai_voice_agent.Runtime.Release.{
  release_run, is_done, is_cancelled, stop_retries, release_run_lem,
}
use ai_voice_agent.Runtime.Steps.{
  stopped_owns_nothing, ready_owns_both, readiness_iff, Reachable, step_start, step_database,
  step_redis, step_release, at_start, after_step,
}

-- A start that creates both resources, and a stop.
abbrev verifying : Runtime
verifying = record {
  state = starting;
  database = true;
  redis = false;
  start_phase = verifying_database;
  release_phase = task_done;
}

abbrev both : Runtime
both = record verifying { redis = true; start_phase = verifying_redis }

abbrev running : Runtime
running = record both { state = ready; start_phase = not_starting }

abbrev releasing : Runtime
releasing = record running { state = stopping; release_phase = scheduled }

-- A second stop after a release that was cancelled.
abbrev interrupted : Runtime
interrupted = record running { state = stopping }

-- A start that could not create the engine, whose release is over.
abbrev abandoned : Runtime
abandoned = record {
  state = stopped;
  database = false;
  redis = false;
  start_phase = not_starting;
  release_phase = task_done;
}

abbrev given_up : Runtime
given_up = record abandoned { state = stopping; release_phase = scheduled }

running-Reachable : Reachable running
unfolding initial start database_verified redis_verified
running-Reachable =
    after_step
      (after_step (after_step at_start (step_start {s = verifying} true refl))
        (step_database true true refl))
      (step_redis true refl)

abandoned-Reachable : Reachable abandoned
unfolding initial start start_failed begin_release release_started release_database finish_release
abandoned-Reachable =
    after_step (after_step at_start (step_start {s = given_up} false refl)) (step_release refl)

stopped_owns_nothing_example :
    (abandoned.database ≡ false)
    × (abandoned.redis ≡ false)
    × (abandoned.release_phase ≡ task_done)
    × (abandoned.start_phase ≡ not_starting)
    × (stop abandoned ≡ returned abandoned)
stopped_owns_nothing_example = stopped_owns_nothing abandoned abandoned-Reachable refl

ready_owns_both_example :
    (get_database running ≡ returned tt ↔ running.state ≡ ready)
    × (get_redis running ≡ returned tt ↔ running.state ≡ ready)
ready_owns_both_example = ready_owns_both running running-Reachable

abbrev redis_failed : ReadinessReport
redis_failed = record { ready = false; postgres = ok; redis = failed }

readiness_iff_example :
    (redis_failed.ready ≡ true)
    ↔ ((running.state ≡ ready) × (answered ≡ answered) × (infrastructure_error ≡ answered))
unfolding check_readiness
readiness_iff_example =
    readiness_iff running answered infrastructure_error redis_failed running-Reachable refl

stop_retries_example :
    (s : Runtime) × (stop interrupted ≡ returned s)
    × ((release_run release_done release_done s).state ≡ stopped)
    × ((release_run release_done release_done s).database ≡ false)
    × ((release_run release_done release_done s).redis ≡ false)
stop_retries_example = stop_retries interrupted refl refl

release_run_example :
    ((release_run release_failed release_done releasing).redis
      ≡ (true && not (is_done release_failed)))
    × ((release_run release_failed release_done releasing).database
        ≡ (true && (not (is_done release_done) || (true && is_cancelled release_failed))))
    × ((release_run release_failed release_done releasing).state ≡ stopped
        ↔ ((release_run release_failed release_done releasing).database
            || (release_run release_failed release_done releasing).redis)
          ≡ false)
    × ((release_run release_failed release_done releasing).release_phase ≡ task_done)
release_run_example = release_run_lem release_failed release_done releasing refl refl
