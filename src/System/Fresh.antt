-- ===== src/System/Fresh.antt =====
-- A second call of /readyz while the first one's result is fresh.
use web_template_go.Prelude.{
  ℕ, ◌-◌, ◌<◌, true, false, if◌then◌else◌, ap, ◌∙◌, ◌≡◌, ◌≢◌, refl, arith,
}
use web_template_go.System.Table.{copy_checks, insert, copy_from}
use web_template_go.Text.{bytes, same}
use web_template_go.System.{
  Probes, SystemService, is_fresh, readiness_snapshot, readiness_status, readyz, run_checks, store,
  status_text, all_not_down,
}

copy_checks-run : (p : Probes) → copy_checks (run_checks p) ≡ run_checks p
unfolding run_checks copy_checks insert bytes same copy_from
copy_checks-run p = refl

-- After a call of /readyz that has run the probes, any call within the time to live gets the same
-- status code and payload, whatever the databases do by then, and changes nothing. The clock does
-- not stand at the zero time.
pub readyz_again :
    (s : SystemService) (now later : ℕ) (p q : Probes)
    → now ≢ 0
    → is_fresh s now ≡ false
    → later - now < s.cache_ttl
    → readyz (readyz s now p).1 later q ≡ ((readyz s now p).0, (readyz s now p).1)
unfolding readyz readiness_status readiness_snapshot
readyz_again s now later p q started stale soon =
    let fresh : is_fresh (store s now (run_checks p)) later ≡ true =
      unfold is_fresh store in ground arith in
    rw stale (
      rw fresh (
        unfold store in
        ap
          (λ m. (
            (
              if all_not_down (run_checks p) then 200 else 503,
              status_text (all_not_down (run_checks p)),
              m,
            ),
            store s now (run_checks p),
          ))
          (ap copy_checks (copy_checks-run p) ∙ copy_checks-run p)))
