-- ===== src/DateTime.antt =====
-- datetime.rs. The argument `now` is what `Utc::now()` returns.
pub mod Codec
use nuts_archive.Prelude.{ℕ, List, none, some}
use nuts_archive.Bytes.{Parser, pure, ◌>>=◌}
use nuts_archive.Platform.{Platform}

module _ ⦃p : Platform⦄ where
  open p use {Time, i64, timestamp_millis, timestamp_millis_opt}

  unfoldable pub from_millis : Time → ℕ → Time
  from_millis now millis = elim (timestamp_millis_opt millis) [ none ↦ now | some dt ↦ dt ]

  -- A field with `#[nuts_bytes(map = datetime)]`.
  unfoldable pub to_bytes : Time → List ℕ
  to_bytes dt = i64.to_bytes (timestamp_millis dt)

  unfoldable pub from_bytes : Time → Parser Time
  unfolding from_millis
  from_bytes now = do millis ← i64.from_bytes; pure (from_millis now millis)
