-- ===== src/Channel/Layout/Tests.antt =====
-- Runs of channel_common.h's functions, and the theorems about them at concrete inputs.
use libcppx.Base.{ℕ, ◌*◌, ◌^◌, ◌≤◌, ◌<◌, ◌≡◌, refl, arith}
use libcppx.Utilities.{align8}
use libcppx.Channel.Layout.{up2_power_of2, get_index, cal_size}
use libcppx.Channel.Layout.Power.{up2_power_of2_least}

up2_power_of2_runs :
    (up2_power_of2 0 ≡ 0)
    × (up2_power_of2 1 ≡ 1)
    × (up2_power_of2 5 ≡ 8)
    × (up2_power_of2 1024 ≡ 1024)
    × (up2_power_of2 1025 ≡ 2048)
unfolding up2_power_of2
up2_power_of2_runs = (refl, refl, refl, refl, refl)

get_index_runs : (get_index 13 8 ≡ 5) × (get_index 13 0 ≡ 13)
unfolding get_index
get_index_runs = (refl, refl)

cal_size_runs : (cal_size 0 ≡ 8) × (cal_size 1 ≡ 16) × (cal_size 0xFFFFFFFF ≡ 8)
unfolding cal_size align8
cal_size_runs = (refl, refl, refl)

up2_power_of2_least_example :
    (◌≤◌ 1000 (2 ^ 63)
      → (k : ℕ) × (k ≤ 63)
        × (up2_power_of2 1000 ≡ 2 ^ k)
        × (1000 ≤ up2_power_of2 1000)
        × (up2_power_of2 1000 < 2 * 1000))
    × (◌<◌ (2 ^ 63) 1000 → up2_power_of2 1000 ≡ 0)
up2_power_of2_least_example = up2_power_of2_least 1000 (omega arith) (omega arith)
