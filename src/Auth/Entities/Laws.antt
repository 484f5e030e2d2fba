-- ===== src/Auth/Entities/Laws.antt =====
-- Session entities: revocation, activity, and the round trip through the cache payload.
use async_pulse.Prelude.{
  ◌≡◌, refl, ◌↔◌, ◌⊎◌, inl, inr, true, Option, none, some, arith, eq_iff, ◌≤◌,
}
use async_pulse.Python.Result.{ok}
use async_pulse.Python.DateTime.{DateTime, micros}
use async_pulse.Python.Codec.{Codec, ReadsBack}
use async_pulse.Auth.Entities.{
  SessionValidation, UserSession, is_expired, is_active, is_revoked, revoke, from_session,
  validation_is_active, iso_or_none, parse_datetime, optional_datetime, to_dict, from_dict,
}

-- The dates of a session, each of which reads back.
pub record DatesReadBack (codec : Codec) (s : SessionValidation) : Type 0 where
  pub expires : ReadsBack codec s.expires_at
  pub revoked :
      (s.revoked_at ≡ none) ⊎ ((d : DateTime) × (s.revoked_at ≡ some d) × ReadsBack codec d)

module _ (codec : Codec) where
  parse_datetime-isoformat :
      (d : DateTime) → ReadsBack codec d → parse_datetime codec (codec.isoformat d) ≡ ok d
  unfolding parse_datetime
  parse_datetime-isoformat d laws = rw (laws.fromisoformat-isoformat)

  optional_datetime-iso_or_none :
      (r : Option DateTime)
      → (r ≡ none) ⊎ ((d : DateTime) × (r ≡ some d) × ReadsBack codec d)
      → optional_datetime codec (iso_or_none codec r) ≡ ok r
  unfolding optional_datetime iso_or_none
  optional_datetime-iso_or_none r (inl e) = rw e refl
  optional_datetime-iso_or_none r (inr (d, e, laws)) = rw e (
      ground (
        arith,
        laws.isoformat-ne-empty,
        eq_iff (codec.isoformat d) "",
        parse_datetime-isoformat d laws,
      ))

  -- What is written to `session:{id}` reads back as the same projection, where its dates read back
  -- from their texts.
  pub from_dict-to_dict :
      (s : SessionValidation) → DatesReadBack codec s → from_dict codec (to_dict codec s) ≡ ok s
  unfolding from_dict to_dict
  from_dict-to_dict s dates = ground (
    arith,
    parse_datetime-isoformat s.expires_at dates.expires,
    optional_datetime-iso_or_none s.revoked_at dates.revoked,
  )

-- A session is active at a reading of the clock exactly when that reading is not past its expiry
-- and it has not been revoked.
pub is_active_iff :
    (now : DateTime) (s : UserSession)
    → (is_active now s ≡ true) ↔ ((micros now ≤ micros s.expires_at) × (s.revoked_at ≡ none))
unfolding is_active is_expired is_revoked
is_active_iff now s = ground arith

-- The projection that the cache holds answers as the full session does.
pub is_active-from_session :
    (now : DateTime) (s : UserSession) → validation_is_active now (from_session s) ≡ is_active now s
unfolding validation_is_active from_session is_active is_expired is_revoked
is_active-from_session now s = ground arith

-- Revoking keeps the first revocation time, whatever came after it.
pub revoke-revoke : (t u : DateTime) (s : UserSession) → revoke u (revoke t s) ≡ revoke t s
unfolding revoke
revoke-revoke t u s = ground arith
