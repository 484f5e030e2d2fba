-- ===== src/Tests/Coherent.antt =====
-- The gate on a cache that holds the one session, and a client on its fallback that holds one value.
use async_pulse.Prelude.{
  ℕ, ◌≤◌, String, str_eq, eq_iff, ◌≡◌, refl, sym, subst, inl, inr, ◌⊎◌, Bool, true, false, Option,
  none, some, [], ◌∷◌, if◌then◌else◌,
}
use async_pulse.Python.Result.{ok}
use async_pulse.Python.Obj.{Obj}
use async_pulse.Python.Codec.{Codec}
use async_pulse.Env.{Env}
use async_pulse.Env.Retains.{Retains}
use async_pulse.Auth.Entities.{from_session, to_dict}
use async_pulse.Auth.Entities.Laws.{DatesReadBack}
use async_pulse.Auth.Repository.{to_session_entity}
use async_pulse.Auth.Gate.{get_current_user}
use async_pulse.Auth.Admission.Verdict.{IsShown, session-IsShown, judged}
use async_pulse.Auth.Admission.Equivalence.{gate-Agrees}
use async_pulse.Auth.Admission.Coherent.{known}
use async_pulse.Python.DateTime.{aware}
use async_pulse.Db.World.{reading}
use async_pulse.Cache.Client.{redis_cache, parse}
use async_pulse.Cache.Store.{Entry, Store, lookup}
use async_pulse.Cache.Retention.{
  RetainsTexts, StoreFits, put-StoreFits, Reads, IsHolding, redis_cache-Retains,
}
use async_pulse.Tests.Caching.{date-ReadsBack}
use async_pulse.Tests.Finality.{server}
use async_pulse.Tests.Sample.{env, codec, cache, access_payload, session, home}

abbrev row_dict : Obj
row_dict = to_dict codec (from_session (to_session_entity (session none)))

row-DatesReadBack : DatesReadBack codec (from_session (to_session_entity (session none)))
unfolding from_session to_session_entity
row-DatesReadBack = record { expires = date-ReadsBack; revoked = inl refl }

abbrev coherent_env : Env (Unit {0})
coherent_env = record env {
  cache = record cache {
    get_json = λ key now c. (ok (if str_eq key "session:s1" then some row_dict else none), c);
  };
}

coherent-Retains : Retains coherent_env.cache (IsShown codec home.tx) (λ c. Unit {0})
coherent-Retains = record {
  get_json-Allowed = λ key now c holds. held key (str_eq key "session:s1") refl;
  get_json-Holds = λ key now c holds. tt;
  set_json-ok = λ key value ttl now c lasting holds allowed. refl;
  set_json-Holds = λ key value ttl now c lasting holds allowed. tt;
}
  where
    held :
        (key : String) (b : Bool)
        → str_eq key "session:s1" ≡ b
        → (ok (if b then some row_dict else none) ≡ ok none)
          ⊎ ((o : Obj) × (ok (if b then some row_dict else none) ≡ ok (some o))
              × IsShown codec home.tx key o)
    held key true e = inr (
      row_dict,
      refl,
      subst (λ k. IsShown codec home.tx k row_dict) (sym ((eq_iff key "session:s1").0 e))
          (session-IsShown codec home.tx "s1" (session none) refl row-DatesReadBack),
    )
    held key false e = inl refl

gate-Agrees_example :
    let (r, w') = get_current_user coherent_env "access" home in
    ((k : ℕ) × (k ≤ 3) × (known r ≡ judged home.tx (aware (reading home k)) (some access_payload)))
    × Unit {0}
    × (w'.committed ≡ home.committed)
    × (w'.tx ≡ home.tx)
gate-Agrees_example =
    gate-Agrees coherent_env (λ c. Unit {0}) "access" home coherent-Retains tt
      (row-DatesReadBack, tt)

abbrev one_value : Obj
one_value = ("id", some "u1") ∷ []

abbrev one_codec : Codec
one_codec = record codec { dumps = λ o. "{}"; loads = λ s. some one_value }

abbrev OnlyOne : String → Obj → Type 0
OnlyOne key o = o ≡ one_value

one_reads :
    (key : String) (o : Obj)
    → OnlyOne key o
    → parse server one_codec (some (one_codec.dumps o)) ≡ ok (some o)
unfolding parse
one_reads key o is = rw (is) refl

server-RetainsTexts :
    RetainsTexts server
      (Reads server one_codec OnlyOne)
      (StoreFits (Reads server one_codec OnlyOne))
server-RetainsTexts = record {
  get-Fits = λ key s fits. found key s fits (lookup key s) refl;
  get-IsUp = λ key s fits. fits;
  set-ok = λ key v ttl s lasting fits new. refl;
  set-IsUp = λ key v ttl s lasting fits new.
      put-StoreFits (Reads server one_codec OnlyOne) key v none s new fits;
}
  where
    found :
        (key : String) (s : Store)
        → StoreFits (Reads server one_codec OnlyOne) s
        → (e : Option Entry) → lookup key s ≡ e
        → ((server.get key s).0 ≡ ok none)
          ⊎ ((v : String) × ((server.get key s).0 ≡ ok (some v))
              × Reads server one_codec OnlyOne key v)
    found key s fits none e = rw (e) (inl refl)
    found key s fits (some (v, d)) e = rw (e) (inr (v, refl, fits key v d e))

redis_cache-Retains_example : Retains (redis_cache server one_codec) OnlyOne (
    IsHolding server one_codec OnlyOne
      (StoreFits (Reads server one_codec OnlyOne))
      server-RetainsTexts
      one_reads)
redis_cache-Retains_example =
    redis_cache-Retains server one_codec OnlyOne (StoreFits (Reads server one_codec OnlyOne))
      server-RetainsTexts one_reads
