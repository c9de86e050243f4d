-- ===== src/Database/Stores.antt =====
-- pkg/database/mongodb.go, redis.go, cassandra.go and elasticsearch.go: the other stores.
use test_lintaspay_backend.Common.{
  String, Bool, ℤ, pos, not, ◌&&◌, Option, none, some, List, ◌==◌, if◌then◌else◌,
}
use test_lintaspay_backend.Common.Split.{split_commas}
use test_lintaspay_backend.Errors.{wrapped, other, ◌<>◌}
use test_lintaspay_backend.External.{Result, ok, err}
use test_lintaspay_backend.Database.{Env}

-- The MongoDB driver. Both calls run under one context, with its timeout in nanoseconds.
pub record Mongo : Type 1 where
  pub State : Type 0
  pub Client : Type 0
  pub Database : Type 0
  pub connect : (uri : String) (timeout : ℤ) → State → Result Client × State
  pub ping : Client → (timeout : ℤ) → State → Result (Unit {0}) × State
  pub database : Client → String → Database
  pub log_info : String → State → State

module _ (t : Mongo) where
  abbrev pub mongo_pinged :
      Env → t.Client → Result (Unit {0}) × t.State → Result t.Database × t.State
  mongo_pinged env client (ok _, s) = (
    ok (t.database client (env.get_string "MONGO_DATABASE")),
    t.log_info "MongoDB connected successfully" s,
  )
  mongo_pinged env client (err e, s) = (err (wrapped "failed to ping mongodb" e), s)

  abbrev pub mongo_connected : Env → Result t.Client × t.State → Result t.Database × t.State
  mongo_connected env (ok client, s) =
      mongo_pinged env client (t.ping client (pos 10_000_000_000) s)
  mongo_connected env (err e, s) = (err (wrapped "failed to connect mongodb" e), s)

  unfoldable pub new_mongodb : Env → t.State → Result t.Database × t.State
  new_mongodb env s =
      mongo_connected env (t.connect (env.get_string "MONGO_URI") (pos 10_000_000_000) s)

-- go-redis, with the timeout of the ping in nanoseconds: a client connects when it is first used.
pub record Redis : Type 1 where
  pub State : Type 0
  pub Client : Type 0
  pub new_client : (addr password : String) (db : ℤ) → Client
  pub ping : Client → (timeout : ℤ) → State → Result (Unit {0}) × State
  pub log_info : String → State → State

module _ (t : Redis) where
  abbrev pub redis_pinged : t.Client → Result (Unit {0}) × t.State → Result t.Client × t.State
  redis_pinged client (ok _, s) = (ok client, t.log_info "Redis connected successfully" s)
  redis_pinged client (err e, s) = (err (wrapped "failed to connect redis" e), s)

  abbrev pub redis_client : Env → t.Client
  redis_client env =
      t.new_client (env.get_string "REDIS_HOST" <> ":" <> env.get_string "REDIS_PORT")
        (env.get_string "REDIS_PASSWORD") (env.get_int "REDIS_DB")

  unfoldable pub new_redis : Env → t.State → Result t.Client × t.State
  new_redis env s =
      redis_pinged (redis_client env) (t.ping (redis_client env) (pos 5_000_000_000) s)

-- gocql's `ClusterConfig`, as far as the program sets it; the consistency is always `Quorum`.
pub record Cluster : Type 0 where
  pub hosts : List String
  pub keyspace : String
  pub authenticator : Option (String × String)

pub record Cassandra : Type 1 where
  pub State : Type 0
  pub Session : Type 0
  pub create_session : Cluster → State → Result Session × State
  pub log_info : String → State → State

unfoldable pub cassandra_cluster : Env → Cluster
unfolding split_commas
cassandra_cluster env =
    let username = env.get_string "CASSANDRA_USERNAME" in
    let password = env.get_string "CASSANDRA_PASSWORD" in
    record {
      hosts = split_commas (env.get_string "CASSANDRA_HOSTS");
      keyspace = env.get_string "CASSANDRA_KEYSPACE";
      authenticator =
          if not (username == "") && not (password == "") then some (username, password) else none;
    }

module _ (t : Cassandra) where
  abbrev cassandra_created : Result t.Session × t.State → Result t.Session × t.State
  cassandra_created (ok session, s) = (ok session, t.log_info "Cassandra connected successfully" s)
  cassandra_created (err e, s) = (err (wrapped "failed to connect to cassandra" e), s)

  unfoldable pub new_cassandra : Env → t.State → Result t.Session × t.State
  unfolding cassandra_cluster
  new_cassandra env s = cassandra_created (t.create_session (cassandra_cluster env) s)

-- `elasticsearch.Config`, as far as the program sets it.
pub record ElasticsearchConfig : Type 0 where
  pub addresses : List String
  pub username : String
  pub password : String

-- go-elasticsearch: `Info()` gives a response, which may itself say that something went wrong.
pub record Elasticsearch : Type 1 where
  pub State : Type 0
  pub Client : Type 0
  pub Response : Type 0
  pub new_client : ElasticsearchConfig → Result Client
  pub get_info : Client → State → Result Response × State
  pub is_error : Response → Bool
  pub text_of : Response → String
  pub close : Response → State → State
  pub log_info : String → State → State

unfoldable pub elasticsearch_config : Env → ElasticsearchConfig
unfolding split_commas
elasticsearch_config env = record {
  addresses = split_commas (env.get_string "ELASTICSEARCH_URLS");
  username = env.get_string "ELASTICSEARCH_USERNAME";
  password = env.get_string "ELASTICSEARCH_PASSWORD";
}

module _ (t : Elasticsearch) where
  -- The deferred `Close` runs after the log line.
  abbrev pub informed : t.Client → Result t.Response × t.State → Result t.Client × t.State
  informed client (ok res, s) =
      if t.is_error res
      then (err (other ("elasticsearch returned error: " <> t.text_of res)), t.close res s)
      else (ok client, t.close res (t.log_info "Elasticsearch connected successfully" s))
  informed client (err e, s) = (err (wrapped "failed to ping elasticsearch" e), s)

  abbrev pub client_created : Result t.Client → t.State → Result t.Client × t.State
  client_created (ok client) s = informed client (t.get_info client s)
  client_created (err e) s = (err (wrapped "failed to create elasticsearch client" e), s)

  unfoldable pub new_elasticsearch : Env → t.State → Result t.Client × t.State
  unfolding elasticsearch_config
  new_elasticsearch env s = client_created (t.new_client (elasticsearch_config env)) s
