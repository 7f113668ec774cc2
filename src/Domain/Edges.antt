-- ===== src/Domain/Edges.antt =====
-- crates/machineemu-core/src/domain/mod.rs: `InstanceState::allows` against the edges of the
-- lifecycle, listed one by one.
use machineemu.Prelude.{◌≡◌, refl, true}
use machineemu.Domain.{
  InstanceState, created, starting, running, paused, stopping, stopped, error, allows,
}

pub data Step : InstanceState → InstanceState → Type 0 where
  start : Step created starting
  start_again : Step stopped starting
  retry : Step error starting
  run : Step starting running
  run_paused : Step starting paused
  fail_to_start : Step starting error
  pause : Step running paused
  stop : Step running stopping
  crash : Step running error
  resume : Step paused running
  stop_paused : Step paused stopping
  crash_paused : Step paused error
  finish_stopping : Step stopping stopped
  fail_to_stop : Step stopping error

pub Step-allows : {s t : InstanceState} → Step s t → allows s t ≡ true
unfolding allows
Step-allows start = refl
Step-allows start_again = refl
Step-allows retry = refl
Step-allows run = refl
Step-allows run_paused = refl
Step-allows fail_to_start = refl
Step-allows pause = refl
Step-allows stop = refl
Step-allows crash = refl
Step-allows resume = refl
Step-allows stop_paused = refl
Step-allows crash_paused = refl
Step-allows finish_stopping = refl
Step-allows fail_to_stop = refl

pub allows-Step : (s t : InstanceState) → allows s t ≡ true → Step s t
unfolding allows
allows-Step created created h = cc h
allows-Step created starting h = start
allows-Step created running h = cc h
allows-Step created paused h = cc h
allows-Step created stopping h = cc h
allows-Step created stopped h = cc h
allows-Step created error h = cc h
allows-Step starting created h = cc h
allows-Step starting starting h = cc h
allows-Step starting running h = run
allows-Step starting paused h = run_paused
allows-Step starting stopping h = cc h
allows-Step starting stopped h = cc h
allows-Step starting error h = fail_to_start
allows-Step running created h = cc h
allows-Step running starting h = cc h
allows-Step running running h = cc h
allows-Step running paused h = pause
allows-Step running stopping h = stop
allows-Step running stopped h = cc h
allows-Step running error h = crash
allows-Step paused created h = cc h
allows-Step paused starting h = cc h
allows-Step paused running h = resume
allows-Step paused paused h = cc h
allows-Step paused stopping h = stop_paused
allows-Step paused stopped h = cc h
allows-Step paused error h = crash_paused
allows-Step stopping created h = cc h
allows-Step stopping starting h = cc h
allows-Step stopping running h = cc h
allows-Step stopping paused h = cc h
allows-Step stopping stopping h = cc h
allows-Step stopping stopped h = finish_stopping
allows-Step stopping error h = fail_to_stop
allows-Step stopped created h = cc h
allows-Step stopped starting h = start_again
allows-Step stopped running h = cc h
allows-Step stopped paused h = cc h
allows-Step stopped stopping h = cc h
allows-Step stopped stopped h = cc h
allows-Step stopped error h = cc h
allows-Step error created h = cc h
allows-Step error starting h = retry
allows-Step error running h = cc h
allows-Step error paused h = cc h
allows-Step error stopping h = cc h
allows-Step error stopped h = cc h
allows-Step error error h = cc h
