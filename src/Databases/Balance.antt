-- ===== src/Databases/Balance.antt =====
-- What the constructors of the database clients open is closed again. The state of the outside is
-- looked at, and not the log.
use web_template_go.Wire.Balance.{IsUndoable}
use web_template_go.Greeter.Trace.{Trace, write_line}
use web_template_go.Databases.Redis.{
  RedisConfig, RedisDriver, RedisOptions, redis_options, new_redis_client, opened,
}
use web_template_go.Databases.Mongo.{MongoConfig, MongoDriver, MongoOptions, new_mongo_client}
use web_template_go.Databases.{
  Connection, after_open, after_ping, close_client, log_close, nothing, ℤ, seconds,
}
use web_template_go.Text.{Bytes, same, trim_space, bytes}
use web_template_go.Errors.{Error, Result, ok, err}
use web_template_go.Databases.Postgres.{
  GormConfig, PoolSettings, PostgresConfig, PostgresDriver, new_postgres_db, open_pool, set_pool,
}
use web_template_go.Prelude.{
  Bool-cases, [], ◌++◌, Option, none, some, ◌∙◌, ◌≡◌, refl, inl, inr, Option-cases,
}

-- The rule for a call of the library that opens a client: an error has changed nothing, and closing
-- the client leads back, from whatever log.
abbrev pub Opened :
    {C S : Type 0} → (C → Trace S → Option Error × Trace S) → Trace S → Result C × Trace S → Type 0
Opened close t (err e, u) = u.outside ≡ t.outside
Opened {C} {S} close t (ok c, u) =
    (v : Trace S) → v.outside ≡ u.outside → (close c v).1.outside ≡ t.outside

-- The rule for a constructor: an error has left nothing open, and the cleanup leads back.
abbrev pub IsBalanced : {C S : Type 0} → Trace S → Connection C S → Type 0
IsBalanced t r = IsUndoable (λ u. u.outside) t r

-- The state that a constructor starts in counts by its outside alone.
pub IsBalanced-from :
    {C S : Type 0} (t u : Trace S) (r : Connection C S)
    → u.outside ≡ t.outside
    → IsBalanced u r
    → IsBalanced t r
IsBalanced-from t u (err e, v) p h = h ∙ p
IsBalanced-from t u (ok (c, cleanup), v) p h = λ w q. h w q ∙ p

module _ {C S : Type 0} (ping close : C → Trace S → Option Error × Trace S)
    (connected failure : Bytes) (t : Trace S) where
  log_close-outside : (r : Option Error × Trace S) → (log_close failure r).outside ≡ r.1.outside
  unfolding log_close write_line
  log_close-outside (none, u) = refl
  log_close-outside (some e, u) = refl

  after_ping-IsBalanced :
      (c : C) (u : Trace S) (r : Option Error × Trace S)
      → Opened close t (ok c, u)
      → r.1.outside ≡ u.outside
      → IsBalanced t (after_ping close connected failure c r)
  unfolding after_ping close_client write_line
  after_ping-IsBalanced c u (some e, v) closes same = closes v same
  after_ping-IsBalanced c u (none, v) closes same =
      λ w p. log_close-outside (close c w) ∙ closes w (p ∙ same)

  after_open-IsBalanced :
      (r : Result C × Trace S)
      → Opened close t r
      → ((c : C) (u : Trace S) → (ping c u).1.outside ≡ u.outside)
      → IsBalanced t (after_open ping close connected failure r)
  unfolding after_open
  after_open-IsBalanced (err e, u) h still = h
  after_open-IsBalanced (ok c, u) h still = after_ping-IsBalanced c u (ping c u) h (still c u)

-- gorm: Open opens a client, which Close closes, or fails and leaves no connection open; a client that is
-- not on a pool of package database/sql, for which DB has an error, has opened nothing; and the
-- setters of the pool and pings open nothing.
pub record IsPostgresDriver {C S : Type 0} (d : PostgresDriver C S) : Type 0 where
  pub opens :
      (source : Bytes) (cfg : GormConfig) (t : Trace S) → Opened d.close t (d.open_db source cfg t)
  pub pooled :
      (source : Bytes) (cfg : GormConfig) (t u : Trace S) (c : C) (e : Error)
      → d.open_db source cfg t ≡ (ok c, u)
      → d.sql_db c ≡ some e
      → u.outside ≡ t.outside
  pub configures :
      (p : PoolSettings) (c : C) (t : Trace S) → (d.configure p c t).outside ≡ t.outside
  pub pings : (timeout : ℤ) (c : C) (t : Trace S) → (d.ping timeout c t).1.outside ≡ t.outside

module _ {C S : Type 0} (d : PostgresDriver C S) (laws : IsPostgresDriver d) where
  open_pool-Opened :
      (p : PoolSettings) (source : Bytes) (cfg : GormConfig) (t : Trace S) (r : Result C × Trace S)
      → d.open_db source cfg t ≡ r
      → Opened d.close t r
      → Opened d.close t (open_pool d p r)
  unfolding open_pool
  open_pool-Opened p source cfg t (err e, u) made h = h
  open_pool-Opened p source cfg t (ok c, u) made h = elim (Option-cases (d.sql_db c)) [
    | inl n ↦ rw n (unfold set_pool in λ v q. h v (q ∙ laws.configures p c u))
    | inr (e, f) ↦ rw f (unfold set_pool in laws.pooled source cfg t u c e made f)
  ]

  -- If the library keeps `IsPostgresDriver`, NewPostgresDB leaves nothing open when it fails, and its
  -- cleanup closes what it has opened, whatever the configuration.
  pub new_postgres_db-IsBalanced :
      (cfg : PostgresConfig) (t : Trace S) → IsBalanced t (new_postgres_db d cfg t)
  unfolding new_postgres_db nothing write_line
  new_postgres_db-IsBalanced cfg t = elim (Bool-cases cfg.enabled) [
    | inr e ↦ rw e (λ v p. p)
    | inl e ↦ elim (Bool-cases (same (trim_space cfg.source) [])) [
      | inl f ↦ rw (e, f) refl
      | inr f ↦
          rw (e, f)
            (after_open-IsBalanced _ _ _ _ t _ (open_pool-Opened _ _ _ t _ refl (laws.opens _ _ t))
              (laws.pings _))
    ]
  ]

-- go-redis: NewClient opens a client, which Close closes.
pub record IsRedisDriver {C S : Type 0} (d : RedisDriver C S) : Type 0 where
  pub opens : (o : RedisOptions) (t : Trace S) → Opened d.close t (opened d (d.new_client o t))
  pub pings : (timeout : ℤ) (c : C) (t : Trace S) → (d.ping timeout c t).1.outside ≡ t.outside

-- If the library keeps `IsRedisDriver`, NewRedisClient leaves nothing open when it fails, and its
-- cleanup closes what it has opened, whatever the configuration.
pub new_redis_client-IsBalanced :
    {C S : Type 0} (d : RedisDriver C S) (cfg : RedisConfig) (t : Trace S)
    → IsRedisDriver d
    → IsBalanced t (new_redis_client d cfg t)
unfolding new_redis_client nothing write_line opened redis_options
new_redis_client-IsBalanced d cfg t laws = elim (Bool-cases cfg.enabled) [
  | inr e ↦ rw e (λ v p. p)
  | inl e ↦ elim (Bool-cases (same (trim_space cfg.addr) [])) [
    | inl f ↦ rw (e, f) refl
    | inr f ↦
        rw (e, f)
          (after_open-IsBalanced (d.ping (seconds 5)) d.close
            (bytes "redis connected: addr=" ++ cfg.addr) (bytes "close redis error: ") t
            (opened d (d.new_client (redis_options cfg) t)) (laws.opens (redis_options cfg) t)
            (laws.pings (seconds 5)))
  ]
]

-- The MongoDB driver: Connect opens a client, which Disconnect closes.
pub record IsMongoDriver {C S : Type 0} (d : MongoDriver C S) : Type 0 where
  pub opens :
      (timeout : ℤ) (o : MongoOptions) (t : Trace S) → Opened d.disconnect t (d.connect timeout o t)
  pub pings : (timeout : ℤ) (c : C) (t : Trace S) → (d.ping timeout c t).1.outside ≡ t.outside

-- If the library keeps `IsMongoDriver`, NewMongoClient leaves nothing open when it fails, and its
-- cleanup closes what it has opened, whatever the configuration.
pub new_mongo_client-IsBalanced :
    {C S : Type 0} (d : MongoDriver C S) (cfg : MongoConfig) (t : Trace S)
    → IsMongoDriver d
    → IsBalanced t (new_mongo_client d cfg t)
unfolding new_mongo_client nothing write_line
new_mongo_client-IsBalanced d cfg t laws = elim (Bool-cases cfg.enabled) [
  | inr e ↦ rw e (λ v p. p)
  | inl e ↦ elim (Bool-cases (same (trim_space cfg.uri) [])) [
    | inl f ↦ rw (e, f) refl
    | inr f ↦ rw (e, f) (after_open-IsBalanced _ _ _ _ t _ (laws.opens _ _ t) (laws.pings _))
  ]
]
