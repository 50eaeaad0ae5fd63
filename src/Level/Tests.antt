-- ===== src/Level/Tests.antt =====
-- Levels by name.
use structlog.Common.{◌≡◌, refl, codes}
use structlog.Level.{Level, from_str}

aliases : (from_str (codes "warn") ≡ Level.warn) × (from_str (codes "err") ≡ Level.err)
unfolding from_str
aliases = (refl, refl)
