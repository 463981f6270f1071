-- ===== src/Utilities/Tests.antt =====
-- Runs of common.h's helpers, and the theorems about them at concrete inputs.
use libcppx.Base.{◌≡◌, refl}
use libcppx.Utilities.{align8}

align8_runs :
    (align8 32 0 ≡ 0) × (align8 32 1 ≡ 8) × (align8 32 17 ≡ 24) × (align8 32 0xFFFFFFFF ≡ 0)
unfolding align8
align8_runs = (refl, refl, refl, refl)
