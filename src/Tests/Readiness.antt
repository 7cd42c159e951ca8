-- ===== src/Tests/Readiness.antt =====
-- Two handlers of /readyz: one fills the cache while Redis is down, the other is answered from it.
use web_template_go.System.Fresh.{readyz_again}
use web_template_go.Prelude.{ℕ, ◌+◌, ◌≡◌, refl, arith}
use web_template_go.System.Table.{copy_checks}
use web_template_go.System.{
  Probes, all_not_down, is_fresh, new_system_service, run_checks, store, answers, fails, no_client,
  readyz,
}
use web_template_go.System.Cache.{
  World, set_call, answered, probing, IsConsistent, Reach, initial, readiness-IsConsistent, next,
  here, miss, refresh, hit,
}

abbrev redis_down : Probes
redis_down = record { postgres = answers; redis = fails; mongodb = no_client }

abbrev all_up : Probes
all_up = record { postgres = answers; redis = answers; mongodb = answers }

abbrev start : ℕ
start = 5000000000

abbrev one_probing : World
one_probing = record (initial start) { calls = set_call 1 (probing start) (initial start).calls }

abbrev one_answered : World
one_answered = record {
  service = store one_probing.service start (run_checks redis_down);
  calls =
      set_call 1 (answered (all_not_down (run_checks redis_down)) (run_checks redis_down))
        one_probing.calls;
}

abbrev two_answered : World
two_answered = record one_answered {
  calls =
      set_call 2
        (answered one_answered.service.cache_ready (copy_checks one_answered.service.cache_checks))
        one_answered.calls;
}

two_calls : Reach (initial start) two_answered
unfolding is_fresh new_system_service store
two_calls =
    next (next (next here (miss 1 start refl refl)) (refresh 1 start redis_down refl))
      (hit 2 (start + 1) refl refl)

readiness-IsConsistent_example : IsConsistent (two_answered.calls 2)
readiness-IsConsistent_example = readiness-IsConsistent start two_answered two_calls 2

-- Two seconds less a nanosecond after the first call, Redis is up again, and the answer is the old one.
readyz_again_example :
    readyz (readyz (new_system_service start) start redis_down).1 (start + 1999999999) all_up ≡ (
      (readyz (new_system_service start) start redis_down).0,
      (readyz (new_system_service start) start redis_down).1,
    )
unfolding new_system_service
readyz_again_example =
    readyz_again (new_system_service start) start (start + 1999999999) redis_down all_up
      (omega arith) (unfold is_fresh in refl) (omega arith)
