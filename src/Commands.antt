-- ===== src/Commands.antt =====
-- cmd: how graph-otel, graph-k8s and graph-read read their settings from the environment.
pub mod Agree
use otel_k8s_graph.Base.{
  ℕ, zero, suc, ◌*◌, Text, [], ◌++◌, Option, none, some, codes, text_DecEq, nat_DecEq,
  if◌then◌else◌, ◌==◌,
}
use otel_k8s_graph.Base.{ℤ, pos, negsuc}

-- `getenv` is os.Getenv, which gives "" for a variable that is not set.
module _ (getenv : Text → Text) where
  -- envOr of graph-k8s is the same.
  unfoldable pub env_or_default : Text → Text → Text
  env_or_default key default = let v = getenv key in if v == [] then default else v

  -- `atoi` is strconv.Atoi and `parse_duration` is time.ParseDuration; `none` is an error.
  unfoldable pub env_int : (Text → Option ℤ) → Text → ℤ → ℤ
  env_int atoi key default =
      let s = getenv key in
      if s == [] then default else elim (atoi s) [ none ↦ default | some n ↦ n ]

  abbrev pub or_positive : ℤ → ℤ → ℤ
  or_positive default (pos zero) = default
  or_positive default (pos (suc n)) = pos (suc n)
  or_positive default (negsuc n) = default

  unfoldable pub env_duration : (Text → Option ℤ) → Text → ℤ → ℤ
  env_duration parse_duration key default =
      let s = getenv key in
      if s == []
      then default
      else elim (parse_duration s) [ none ↦ default | some d ↦ or_positive default d ]

-- time.Second
abbrev pub seconds : ℕ → ℤ
seconds n = pos (n * 1_000_000_000)

-- Where the graph is.
pub record Connection : Type 0 where
  pub addr : Text
  pub username : Text
  pub password : Text
  pub db : ℤ
  pub prefix : Text

pub record OtelSettings : Type 0 where
  pub connection : Connection
  pub listen_addr : Text
  pub grpc_addr : Text
  pub grpc_max_recv_mib : ℤ
  pub flush_delay : ℤ
  pub flush_interval : ℤ
  pub expiry_ttl : ℤ

pub record K8sSettings : Type 0 where
  pub connection : Connection
  pub resync : ℤ
  pub batch_size : ℤ
  pub batch_interval : ℤ

pub record ReadSettings : Type 0 where
  pub connection : Connection
  pub listen_addr : Text

module _ (getenv : Text → Text) (atoi parse_duration : Text → Option ℤ) where
  -- `none` is an exit with status 1.
  unfoldable pub otel_settings : Option OtelSettings
  unfolding env_or_default env_int env_duration
  otel_settings =
      let redis_host = getenv (codes "REDIS_HOST") in
      if redis_host == []
      then none
      else some (record {
        connection = record {
          addr =
              redis_host ++ codes ":" ++ env_or_default getenv (codes "REDIS_PORT") (codes "6379");
          username = getenv (codes "REDIS_USER");
          password = getenv (codes "REDIS_PASSWORD");
          db = env_int getenv atoi (codes "REDIS_DB") (pos 0);
          prefix = env_or_default getenv (codes "GRAPH_REDIS_KEY_PREFIX") (codes "graph");
        };
        listen_addr = env_or_default getenv (codes "LISTEN_ADDR") (codes ":8080");
        grpc_addr = env_or_default getenv (codes "GRPC_LISTEN_ADDR") (codes ":4317");
        grpc_max_recv_mib = env_int getenv atoi (codes "GRPC_MAX_RECV_MSG_MIB") (pos 32);
        flush_delay = env_duration getenv parse_duration (codes "GRAPH_FLUSH_DELAY") (seconds 200);
        flush_interval =
            env_duration getenv parse_duration (codes "GRAPH_FLUSH_INTERVAL") (seconds 60);
        expiry_ttl = env_duration getenv parse_duration (codes "GRAPH_EXPIRY_TTL") (seconds 100);
      })

  unfoldable pub k8s_settings : Option K8sSettings
  unfolding env_or_default env_int env_duration
  k8s_settings =
      let redis_host = getenv (codes "REDIS_HOST") in
      if redis_host == []
      then none
      else some (record {
        connection = record {
          addr =
              redis_host ++ codes ":" ++ env_or_default getenv (codes "REDIS_PORT") (codes "6379");
          username = getenv (codes "REDIS_USER");
          password = getenv (codes "REDIS_PASSWORD");
          db = env_int getenv atoi (codes "REDIS_DB") (pos 0);
          prefix = env_or_default getenv (codes "GRAPH_REDIS_KEY_PREFIX") (codes "graph");
        };
        resync = env_duration getenv parse_duration (codes "WATCH_RESYNC_PERIOD") (seconds 300);
        batch_size = env_int getenv atoi (codes "WATCH_BATCH_SIZE") (pos 1000);
        batch_interval =
            env_duration getenv parse_duration (codes "WATCH_BATCH_INTERVAL") (seconds 5);
      })

  -- The settings of the HTTP API.
  unfoldable pub read_settings : Option ReadSettings
  unfolding env_or_default env_int
  read_settings =
      let host = getenv (codes "REDIS_HOST") in
      if host == []
      then none
      else some (record {
        connection = record {
          addr = host ++ codes ":" ++ env_or_default getenv (codes "REDIS_PORT") (codes "6379");
          username = getenv (codes "REDIS_USER");
          password = getenv (codes "REDIS_PASSWORD");
          db = env_int getenv atoi (codes "REDIS_DB") (pos 0);
          prefix = env_or_default getenv (codes "GRAPH_REDIS_KEY_PREFIX") (codes "graph");
        };
        listen_addr = env_or_default getenv (codes "LISTEN_ADDR") (codes ":8080");
      })
