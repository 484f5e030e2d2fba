-- ===== src/Tests/Warm.antt =====
-- A cache that is a map, for a login, a refresh and the gate.
mod Login
mod Refresh
use async_pulse.Prelude.{
  ℕ, zero, suc, ◌+◌, select, ◌≡◌, ◌≢◌, refl, sym, ap, ◌∙◌, subst, Bool, true, false, String, str_eq,
  leb, eq_iff, ◌&&◌, ◌⊎◌, inl, inr, Option, none, some, [], ◌∷◌, if◌then◌else◌, arith,
}
use async_pulse.Python.Result.{ok, is_ok}
use async_pulse.Python.DateTime.{DateTime, aware, micros, days}
use async_pulse.Python.Codec.{Codec, ReadsBack}
use async_pulse.Python.Obj.{Obj}
use async_pulse.Db.Tables.{
  Tables, satisfies_constraints, users_hold, user_fits, sessions_hold, session_holds, session_fits,
}
use async_pulse.Db.World.{World, skip, next_request}
use async_pulse.Env.{Env, Cache}
use async_pulse.Env.Retains.{Retains, Drops}
use async_pulse.Shared.Security.{claims}
use async_pulse.Users.Entities.{active, user, role_value}
use async_pulse.Users.Repository.{to_entity}
use async_pulse.Auth.Entities.{from_session, to_dict}
use async_pulse.Auth.Entities.Laws.{DatesReadBack}
use async_pulse.Auth.Models.{SessionModel}
use async_pulse.Auth.Repository.{has_id, to_session_entity}
use async_pulse.Auth.Schemas.{token_pair}
use async_pulse.Auth.Gate.{get_current_user}
use async_pulse.Auth.Admission.Stale.{remembered}
use async_pulse.Auth.Admission.Verdict.{IsShown, session-IsShown}
use async_pulse.Auth.Admission.Coherent.{known}
use async_pulse.Auth.Admission.Passes.{active_session_passes}
use async_pulse.Auth.Opening.{opened, with_session, login_pair}
use async_pulse.Auth.Opening.Admits.{Decodes, login_claims, login_is_admitted}
use async_pulse.Auth.Presents.{Presents}
use async_pulse.Auth.Renewal.Admits.{
  at_rotation, renewed_claims, renewed_tables, refresh_hands_over,
}
use async_pulse.Auth.Rotation.{rotated_pair, successor}
use async_pulse.Auth.Service.Sessions.{session_key}
use async_pulse.Auth.Service.Login.{authenticate}
use async_pulse.Auth.Service.Refresh.{refresh_claims, refresh_token}
use async_pulse.Tests.Accounts.{ann_claims}
use async_pulse.Tests.Sample.{
  env, access_payload, refresh_payload, session, account, home, home_holds,
}

-- A cache that keeps what it is given.
abbrev pub Map : Type 0
Map = String → Option Obj

abbrev map_cache : Cache Map
map_cache = record {
  get_json = λ key now c. (ok (c key), c);
  set_json = λ key v ttl now c. (ok tt, λ j. if str_eq key j then some v else c j);
  delete = λ key now c. (ok tt, λ j. if str_eq key j then none else c j);
}

abbrev pub HoldsOnly : (String → Obj → Type 0) → Map → Type 0
HoldsOnly Allowed c = (k : String) (o : Obj) → c k ≡ some o → Allowed k o

module _ (Allowed : String → Obj → Type 0) where
  pub map_cache-Retains : Retains map_cache Allowed (HoldsOnly Allowed)
  map_cache-Retains = record {
    get_json-Allowed = λ key now c h. read key c h (c key) refl;
    get_json-Holds = λ key now c h. h;
    set_json-ok = λ key v ttl now c lasting h new. refl;
    set_json-Holds = λ key v ttl now c lasting h new k o e.
        written key k v o (c k) (str_eq key k) refl new (h k o) e;
  }
    where
      read :
          (key : String) (c : Map)
          → HoldsOnly Allowed c
          → (a : Option Obj) → c key ≡ a
          → (ok (c key) ≡ ok none) ⊎ ((o : Obj) × (ok (c key) ≡ ok (some o)) × Allowed key o)
      read key c h none e = rw (e) (inl refl)
      read key c h (some o) e = rw (e) (inr (o, refl, h key o e))

      written :
          (key k : String) (v o : Obj) (before : Option Obj) (b : Bool)
          → str_eq key k ≡ b
          → Allowed key v
          → (before ≡ some o → Allowed k o)
          → (if b then some v else before) ≡ some o
          → Allowed k o
      written key k v o before true is new old e =
          let same : v ≡ o = cc in
          subst (λ j. Allowed j o) ((eq_iff key k).0 is) (subst (Allowed key) same new)
      written key k v o before false is new old e = old e

pub map_cache-Drops :
    (key : String) (A B : String → Obj → Type 0)
    → ((k : String) (o : Obj) → k ≢ key → A k o → B k o)
    → Drops map_cache key (HoldsOnly A) (HoldsOnly B)
map_cache-Drops key A B others = record {
  delete-After = λ now c h k o e. kept k o (c k) (str_eq key k) refl (h k o) e;
}
  where
    kept :
        (k : String) (o : Obj) (before : Option Obj) (b : Bool)
        → str_eq key k ≡ b
        → (before ≡ some o → A k o)
        → (if b then none else before) ≡ some o
        → B k o
    kept k o before true is old e = cc
    kept k o before false is old e =
        others k o (λ same. ground (arith, is, same, eq_iff key k)) (old e)

-- The dates of the stored session, and one more that reads back.
abbrev pub two_dates : DateTime → Codec
two_dates d = record {
  dumps = λ o. "{}";
  loads = λ s. some [];
  isoformat =
      λ e. if leb (micros e) 600_000_000 && leb 600_000_000 (micros e) then "stored" else "other";
  fromisoformat = λ s. some (if str_eq s "stored" then aware 600_000_000 else d);
}

-- A `jwt` for one token that is issued, which expires, and the two that Ann holds.
abbrev pub map_env : DateTime → Env Map
map_env d = record {
  cache = map_cache;
  jwt = record {
    encode = λ p key. "signed";
    decode = λ now token key.
        if str_eq token "signed" && leb now 1_000_000_000
        then some (record {
          sub = some "u1";
          exp = 1_000_000_000;
          type = some "access";
          jti = none;
          sid = some "fresh";
        })
        else if str_eq token "refresh"
        then some refresh_payload
        else if str_eq token "access"
        then some access_payload
        else none;
  };
  bcrypt = env.bcrypt;
  codec = two_dates d;
  settings = env.settings;
}

-- The cache holds the stored session.
abbrev warm : DateTime → Map
warm d k =
    if str_eq "session:s1" k
    then some (to_dict (two_dates d) (from_session (to_session_entity (session none))))
    else none

abbrev pub warm_home : DateTime → World Map
warm_home d = record {
  committed = home.committed;
  tx = home.tx;
  cache = warm d;
  clock = home.clock;
  reads = home.reads;
  uuid = home.uuid;
  drawn = home.drawn;
}

pub skip-plus : (k n : ℕ) → skip k n ≡ k + n
skip-plus zero n = omega arith
skip-plus (suc k) n = omega (arith, skip-plus k n)

pub stored_date-ReadsBack : (d : DateTime) → ReadsBack (two_dates d) (aware 600_000_000)
stored_date-ReadsBack d = record {
  fromisoformat-isoformat = refl;
  isoformat-ne-empty = λ e. ground (arith, eq_iff "stored" "", e);
}

pub stored-DatesReadBack :
    (d : DateTime) → DatesReadBack (two_dates d) (from_session (to_session_entity (session none)))
unfolding from_session to_session_entity
stored-DatesReadBack d = record { expires = stored_date-ReadsBack d; revoked = inl refl }

-- The cache holds what such tables show.
pub warm-HoldsOnly :
    (d : DateTime) (t : Tables)
    → select (has_id "s1") t.sessions ≡ session none ∷ []
    → HoldsOnly (IsShown (two_dates d) t) (warm d)
warm-HoldsOnly d t stored k o e = here (str_eq "session:s1" k) refl e
  where
    dict : Obj
    dict = to_dict (two_dates d) (from_session (to_session_entity (session none)))

    here :
        (b : Bool)
        → str_eq "session:s1" k ≡ b
        → (if b then some dict else none) ≡ some o
        → IsShown (two_dates d) t k o
    here true is e =
        let same : dict ≡ o = cc in
        subst (λ j. IsShown (two_dates d) t j o) ((eq_iff "session:s1" k).0 is)
          (subst (IsShown (two_dates d) t "session:s1") same
            (session-IsShown (two_dates d) t "s1" (session none) stored (stored-DatesReadBack d)))
    here false is e = cc

active_session_passes_example :
    let (r, w') = get_current_user (map_env (aware 0)) "access" (warm_home (aware 0)) in
    (known r ≡ ok (remembered (to_entity (account active))))
    × HoldsOnly (IsShown (two_dates (aware 0)) home.tx) w'.cache
active_session_passes_example =
    active_session_passes (map_env (aware 0)) (HoldsOnly (IsShown (two_dates (aware 0)) home.tx))
      "access" access_payload "u1" "s1" (session none) (warm_home (aware 0)) (map_cache-Retains _)
      (warm-HoldsOnly (aware 0) home.tx refl) (stored-DatesReadBack (aware 0), tt) refl ann_claims
      refl (account active) refl refl (λ k few. rw (skip-plus k 0) (omega (arith, few))) refl refl

pub not_empty : (◌≢◌ {A = String} "u1" "") × (◌≢◌ {A = String} "fresh" "")
not_empty = (λ e. ground (arith, eq_iff "u1" "", e), λ e. ground (arith, eq_iff "fresh" "", e))

pub other-ReadsBack :
    (n : ℕ)
    → (leb n 600_000_000 && leb 600_000_000 n) ≡ false
    → ReadsBack (two_dates (aware n)) (aware n)
other-ReadsBack n h = record {
  fromisoformat-isoformat = rw (h) refl;
  isoformat-ne-empty = λ e. ground (arith, h, eq_iff "other" "", e);
}
