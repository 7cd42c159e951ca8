-- ===== src/System.antt =====
-- internal/service/system.go: liveness, readiness behind a cache, and metadata; and the status code
-- that /readyz of internal/server/http.go answers. Times are nanoseconds of the monotonic clock, and
-- 0 is the zero time. The clients of the databases are parameters: what a probe of one returns.
pub mod Table
pub mod Cache
pub mod Fresh
use web_template_go.Prelude.{
  ℕ, ◌-◌, List, [], ◌∷◌, Bool, true, false, ◌&&◌, not, if◌then◌else◌, ◌==◌, ltb,
}
use web_template_go.Text.{Bytes, bytes, same}
use web_template_go.System.Table.{Checks, get, insert, copy_checks}

-- How a database answers: no client, an error on the way to the ping or in it, or none.
pub data Probe : Type 0 where
  no_client fails answers : Probe

-- checkPostgres, checkRedis and checkMongoDB
unfoldable pub check : Probe → Bytes
check no_client = bytes "skipped"
check fails = bytes "down"
check answers = bytes "up"

-- What the three probes find while a snapshot is made.
pub record Probes : Type 0 where
  pub postgres : Probe
  pub redis : Probe
  pub mongodb : Probe

pub record SystemService : Type 0 where
  pub started_at : ℕ
  pub cache_at : ℕ
  pub cache_ttl : ℕ
  pub cache_ready : Bool
  pub cache_checks : Checks

-- NewSystemService at a time: two seconds of cache.
unfoldable pub new_system_service : ℕ → SystemService
new_system_service now = record {
  started_at = now;
  cache_at = 0;
  cache_ttl = 2000000000;
  cache_ready = false;
  cache_checks = [];
}

-- The map literal of readinessSnapshot.
unfoldable pub run_checks : Probes → Checks
run_checks p =
    insert (bytes "mongodb") (check p.mongodb)
      (insert (bytes "redis") (check p.redis) (insert (bytes "postgres") (check p.postgres) []))

unfoldable pub not_down : Bytes → Checks → Bool
not_down name checks = not (same (get name checks) (bytes "down"))

unfoldable pub all_not_down : Checks → Bool
all_not_down checks =
    not_down (bytes "postgres") checks
    && not_down (bytes "redis") checks
    && not_down (bytes "mongodb") checks

-- The first half of readinessSnapshot: what it reads under the read lock.
unfoldable pub is_fresh : SystemService → ℕ → Bool
is_fresh s now = not (s.cache_at == 0) && ltb (now - s.cache_at) s.cache_ttl

-- The second half: what it stores under the write lock.
unfoldable pub store : SystemService → ℕ → Checks → SystemService
store s now checks = record s {
  cache_at = now;
  cache_ready = all_not_down checks;
  cache_checks = copy_checks checks;
}

-- readinessSnapshot with nobody in between: the answer and the next state.
unfoldable pub readiness_snapshot : SystemService → ℕ → Probes → (Bool × Checks) × SystemService
readiness_snapshot s now p =
    let checks = run_checks p in
    if is_fresh s now
    then ((s.cache_ready, copy_checks s.cache_checks), s)
    else ((all_not_down checks, checks), store s now checks)

unfoldable pub status_text : Bool → Bytes
status_text ready = if ready then bytes "ready" else bytes "not_ready"

unfoldable pub readiness_status :
    SystemService → ℕ → Probes → (Bool × Bytes × Checks) × SystemService
readiness_status s now p =
    let ((ready, checks), s') = readiness_snapshot s now p in
    ((ready, status_text ready, checks), s')

-- Readiness: the payload alone
unfoldable pub readiness : SystemService → ℕ → Probes → (Bytes × Checks) × SystemService
readiness s now p =
    let ((ready, checks), s') = readiness_snapshot s now p in ((status_text ready, checks), s')

unfoldable pub is_ready : SystemService → ℕ → Probes → Bool × SystemService
is_ready s now p = let ((ready, checks), s') = readiness_snapshot s now p in (ready, s')

unfoldable pub liveness : Checks
liveness = insert (bytes "status") (bytes "ok") []

-- Metadata; the print of a time in UTC by RFC 3339 is an argument.
unfoldable pub metadata : (ℕ → Bytes) → SystemService → Checks
metadata format s =
    insert (bytes "started_at") (format s.started_at) (insert (bytes "status") (bytes "running") [])

-- The handler of GET /readyz: status code and payload.
unfoldable pub readyz : SystemService → ℕ → Probes → (ℕ × Bytes × Checks) × SystemService
readyz s now p =
    let ((ready, status, checks), s') = readiness_status s now p in
    ((if ready then 200 else 503, status, checks), s')
