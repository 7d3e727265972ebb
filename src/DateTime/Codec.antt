-- ===== src/DateTime/Codec.antt =====
-- The encoding of time stamps (datetime.rs).
use nuts_archive.Prelude.{ℕ, ◌≡◌, some, List, ◌++◌, length}
use nuts_archive.Outcome.{ok}
use nuts_archive.Platform.{Platform}
use nuts_archive.Platform.Laws.{Laws}
use nuts_archive.DateTime.{from_millis, to_bytes, from_bytes}

module _ ⦃p : Platform⦄ where
  open p use {Time, timestamp_millis, timestamp_millis_opt}

  -- The time has no part below the millisecond, and chrono can represent it.
  abbrev pub IsMillis : Time → Type 0
  IsMillis t = timestamp_millis_opt (timestamp_millis t) ≡ some t

  -- The time that is read back from the milliseconds of a time.
  abbrev pub reread : Time → Time → Time
  reread now t = from_millis now (timestamp_millis t)

  pub reread-IsMillis : (now t : Time) → IsMillis t → reread now t ≡ t
  unfolding from_millis
  reread-IsMillis now t h = rw (h, from_millis)

module _ ⦃p : Platform⦄ (l : Laws p) where
  open p use {Time, timestamp_millis}

  pub length-to_bytes : (t : Time) → length (to_bytes t) ≡ 8
  unfolding to_bytes
  length-to_bytes t = l.i64_lem.length_bytes (timestamp_millis t) (l.timestamp_millis-lt t)

  pub from_bytes-to_bytes :
      (now t : Time) (rest : List ℕ) → from_bytes now (to_bytes t ++ rest) ≡ ok (reread now t, rest)
  unfolding from_bytes to_bytes
  from_bytes-to_bytes now t rest =
      rw (l.i64_lem.round_trip (timestamp_millis t) rest (l.timestamp_millis-lt t))
