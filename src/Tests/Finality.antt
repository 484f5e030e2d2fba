-- ===== src/Tests/Finality.antt =====
-- A logout with a cache client on a Redis that is up and holds the session, and a login.
use async_pulse.Prelude.{◌≡◌, refl, inr, eq_iff, true, false, none, some, [], ◌∷◌, arith, eq_refl}
use async_pulse.Python.Result.{ok, is_ok}
use async_pulse.Db.World.{World, next_request}
use async_pulse.Env.{Env}
use async_pulse.Cache.Client.{Redis, CacheClient, redis_cache}
use async_pulse.Cache.Store.{Store, lookup, remove, put, lookup-remove, lookup-put}
use async_pulse.Cache.Deletion.{Answers}
use async_pulse.Cache.Keeps.{redis_cache-Forgets}
use async_pulse.Auth.Gate.{access_claims, get_current_user}
use async_pulse.Auth.Router.{logout}
use async_pulse.Auth.Router.Finality.{logged_out_session_is_refused}
use async_pulse.Tests.Sample.{
  settings, jwt, bcrypt, codec, access_payload, session, home, home_holds,
}
use async_pulse.Tests.Tokens.{s1_not_empty}

-- A server that keeps its keys for good.
abbrev pub server : Redis Store
server = record {
  ping = λ s. (ok tt, s);
  get = λ key s. (ok (elim (lookup key s) [ none ↦ none | some (v, d) ↦ some v ]), s);
  set = λ key value ttl s. (ok tt, put key (value, none) s);
  delete = λ key s. (ok tt, remove key s);
  aclose = λ s. (ok tt, s);
}

server-Answers : Answers server (λ s. Unit {0}) (λ key s. lookup key s ≡ none)
server-Answers = record {
  del-ok = λ key s up. refl;
  del-IsUp = λ key s up. tt;
  del-Lacks = λ key s up. ground (arith, lookup-remove key key s, eq_refl key);
  del-keeps = λ key j s up lacks. ground (arith, lookup-remove key j s, lacks);
  get-ok = λ key s up. (elim (lookup key s) [ none ↦ none | some (v, d) ↦ some v ], refl);
  get-IsUp = λ key s up. tt;
  get-keeps = λ key j s up lacks. lacks;
  set-ok = λ key v ttl s lasting up. refl;
  set-IsUp = λ key v ttl s lasting up. tt;
  set-keeps = λ key j v ttl s lasting other up lacks.
      ground (arith, lookup-put key j (v, none) s, eq_iff key j, other, lacks);
  get-none = λ key s up lacks. rw (lacks) refl;
}

abbrev warm_client : CacheClient Store
warm_client = record {
  server = ("session:s1", ("{}", none)) ∷ ("user:u1", ("{}", none)) ∷ [];
  connected = true;
  fallback_store = [];
  fallback_active = false;
  initialized = true;
  loop = some 0;
  running_loop = 0;
}

abbrev warm_env : Env (CacheClient Store)
warm_env = record {
  cache = redis_cache server codec;
  jwt = jwt;
  bcrypt = bcrypt;
  codec = codec;
  settings = settings;
}

abbrev warm_home : World (CacheClient Store)
warm_home = record {
  committed = home.committed;
  tx = home.tx;
  cache = warm_client;
  clock = home.clock;
  reads = home.reads;
  uuid = home.uuid;
  drawn = home.drawn;
}

logged_out_session_is_refused_example :
    let v = next_request (logout warm_env "access" warm_home).1 in
    let (r, v') = get_current_user warm_env "access" v in
    (is_ok r ≡ false) × (v'.committed ≡ v.committed) × (v'.tx ≡ v.tx)
unfolding access_claims
logged_out_session_is_refused_example =
    logged_out_session_is_refused warm_env "access" "s1" access_payload (session none) warm_home
      refl refl s1_not_empty (redis_cache-Forgets server _ _ server-Answers codec) refl refl
      home_holds (refl, inr (refl, tt)) "access" "u1" access_payload refl refl
