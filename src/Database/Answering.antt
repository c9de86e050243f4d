-- ===== src/Database/Answering.antt =====
-- When the other stores are handed out, and how their settings are read.
use test_lintaspay_backend.Common.{
  String, ◌≡◌, refl, ap, pos, not, ◌&&◌, ◌||◌, true, false, Option, none, some, List, [], ◌∷◌, All,
  Some, inl, inr, ◌⊎◌, ◌==◌, ◌∙◌, Bool-cases, if◌then◌else◌,
}
use test_lintaspay_backend.Common.Split.{join_commas, has_comma, join_commas-split_commas}
use test_lintaspay_backend.Errors.{GoError, wrapped}
use test_lintaspay_backend.External.{Result, ok, err}
use test_lintaspay_backend.Database.{Env}
use test_lintaspay_backend.Database.Stores.{
  Mongo, mongo_connected, mongo_pinged, new_mongodb, Redis, redis_client, redis_pinged, new_redis,
  Elasticsearch, elasticsearch_config, informed, client_created, new_elasticsearch,
  cassandra_cluster,
}

-- An error made by `fmt.Errorf` with `%w` and one of these prefixes.
abbrev pub Wrapped : List String → GoError → Type 0
Wrapped prefixes e =
    (prefix : String) × (cause : GoError) × (e ≡ wrapped prefix cause)
    × Some (λ p. p ≡ prefix) prefixes

module _ (t : Mongo) where
  abbrev pub MongoAnswers : Env → t.State → Result t.Database → Type 0
  MongoAnswers env s (err e) =
      Wrapped ("failed to connect mongodb" ∷ "failed to ping mongodb" ∷ []) e
  MongoAnswers env s (ok d) =
      let r = t.connect (env.get_string "MONGO_URI") (pos 10_000_000_000) s in
      (client : t.Client) × (r.0 ≡ ok client)
      × ((t.ping client (pos 10_000_000_000) r.1).0 ≡ ok tt)
      × (d ≡ t.database client (env.get_string "MONGO_DATABASE"))

  mongo_answers :
      (env : Env) (s : t.State) (r : Result t.Client × t.State)
      → t.connect (env.get_string "MONGO_URI") (pos 10_000_000_000) s ≡ r
      → MongoAnswers env s (mongo_connected t env r).0
  mongo_answers env s (err e, s') c = (_, e, refl, inl refl)
  mongo_answers env s (ok client, s') c = from_ping (t.ping client (pos 10_000_000_000) s') refl
    where
      from_ping :
          (r : Result (Unit {0}) × t.State)
          → t.ping client (pos 10_000_000_000) s' ≡ r
          → MongoAnswers env s (mongo_pinged t env client r).0
      from_ping (ok u, s'') p = (
        client,
        ap (λ x. x.0) c,
        ap (λ x. (t.ping client (pos 10_000_000_000) x.1).0) c ∙ ap (λ x. x.0) p,
        refl,
      )
      from_ping (err e, s'') p = (_, e, refl, inr (inl refl))

module _ (t : Redis) where
  abbrev pub RedisAnswers : Env → t.State → Result t.Client → Type 0
  RedisAnswers env s (err e) = Wrapped ("failed to connect redis" ∷ []) e
  RedisAnswers env s (ok client) =
      (client ≡ redis_client t env) × ((t.ping client (pos 5_000_000_000) s).0 ≡ ok tt)

  redis_answers :
      (env : Env) (s : t.State) (r : Result (Unit {0}) × t.State)
      → t.ping (redis_client t env) (pos 5_000_000_000) s ≡ r
      → RedisAnswers env s (redis_pinged t (redis_client t env) r).0
  redis_answers env s (ok u, s') p = (refl, ap (λ x. x.0) p)
  redis_answers env s (err e, s') p = (_, e, refl, inl refl)

module _ (t : Elasticsearch) where
  abbrev pub SearchAnswers : Env → t.State → Result t.Client → Type 0
  SearchAnswers env s (ok client) =
      (res : t.Response) × (t.new_client (elasticsearch_config env) ≡ ok client)
      × ((t.get_info client s).0 ≡ ok res)
      × (t.is_error res ≡ false)
  SearchAnswers env s (err e) =
      Wrapped ("failed to create elasticsearch client" ∷ "failed to ping elasticsearch" ∷ []) e
      ⊎ ((client : t.Client) × (res : t.Response) × ((t.get_info client s).0 ≡ ok res)
          × (t.is_error res ≡ true))

  search_answers :
      (env : Env) (s : t.State) (r : Result t.Client)
      → t.new_client (elasticsearch_config env) ≡ r
      → SearchAnswers env s (client_created t r s).0
  search_answers env s (err e) c = inl (_, e, refl, inl refl)
  search_answers env s (ok client) c = from_info (t.get_info client s) refl
    where
      from_info :
          (r : Result t.Response × t.State)
          → t.get_info client s ≡ r
          → SearchAnswers env s (informed t client r).0
      from_info (err e, s') i = inl (_, e, refl, inr (inl refl))
      from_info (ok res, s') i = elim (Bool-cases (t.is_error res)) [
        | inl y ↦ rw y (inr (client, res, ap (λ x. x.0) i, y))
        | inr n ↦ rw n (res, c, ap (λ x. x.0) i, n)
      ]

-- Whatever the stores and the environment answer: MongoDB, Redis and Elasticsearch are handed out
-- only if the client that is handed out connected and answered, Elasticsearch without an error in
-- its response; each error is wrapped with the name of its step, or reports that response.
stores-Answer :
    (m : Mongo) (r : Redis) (x : Elasticsearch) (env : Env) (sm : m.State) (sr : r.State)
    (sx : x.State)
    → MongoAnswers m env sm (new_mongodb m env sm).0
      × RedisAnswers r env sr (new_redis r env sr).0
      × SearchAnswers x env sx (new_elasticsearch x env sx).0
unfolding new_mongodb new_redis new_elasticsearch
stores-Answer m r x env sm sr sx =
    (mongo_answers m env sm _ refl, redis_answers r env sr _ refl, search_answers x env sx _ refl)

-- The cluster's authenticator, against the user name and the password.
abbrev pub Authenticates : String → String → Option (String × String) → Type 0
Authenticates username password none = (username == "" || password == "") ≡ true
Authenticates username password (some c) =
    (c ≡ (username, password)) × ((username == "") ≡ false) × ((password == "") ≡ false)

authenticates :
    (username password : String)
    → Authenticates username password
        (if not (username == "") && not (password == "") then some (username, password) else none)
authenticates username password = elim (Bool-cases (username == "")) [
  | inl u ↦ let h : (username == "" || password == "") ≡ true = rw u refl in rw u h
  | inr u ↦ elim (Bool-cases (password == "")) [
    | inl p ↦ let h : (username == "" || password == "") ≡ true = rw (u, p) refl in rw (u, p) h
    | inr p ↦ rw (u, p) (refl, u, p)
  ]
]

-- For every environment: the hosts of the cluster are the parts of `CASSANDRA_HOSTS` between its
-- commas, so that joined by commas they are that text again, and no part has a comma; and the
-- cluster authenticates, with the user name and the password, exactly if neither is empty.
cassandra_cluster-hosts :
    (env : Env)
    → (join_commas (cassandra_cluster env).hosts ≡ env.get_string "CASSANDRA_HOSTS")
      × All (λ host. has_comma host ≡ false) (cassandra_cluster env).hosts
      × Authenticates
          (env.get_string "CASSANDRA_USERNAME")
          (env.get_string "CASSANDRA_PASSWORD")
          (cassandra_cluster env).authenticator
unfolding cassandra_cluster
cassandra_cluster-hosts env =
    let (j, a) = join_commas-split_commas (env.get_string "CASSANDRA_HOSTS") in
    (
      j,
      a,
      authenticates (env.get_string "CASSANDRA_USERNAME") (env.get_string "CASSANDRA_PASSWORD"),
    )
