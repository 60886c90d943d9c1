-- ===== src/Core/Typestate.antt =====
-- crates/wattwarden-core/src/typestate.rs: a governor whose type names the profile it is in. Each move
-- takes the governor in one profile and gives it in another, and no move leads to the same one.
use wattwarden.Core.Config.{PowerProfile}

pub data ProfileState : Type 0 where
  in_normal in_performance in_extreme : ProfileState

unfoldable pub profile : ProfileState → PowerProfile
profile in_normal = PowerProfile.normal
profile in_performance = PowerProfile.performance
profile in_extreme = PowerProfile.extreme

pub data DeviceGovernor : ProfileState → Type 0 where
  governor : (state : ProfileState) → DeviceGovernor state

unfoldable pub new : DeviceGovernor in_normal
new = governor in_normal

-- `impl DeviceGovernor<Normal>`
unfoldable pub normal_to_performance : DeviceGovernor in_normal → DeviceGovernor in_performance
normal_to_performance g = governor in_performance

unfoldable pub normal_to_extreme : DeviceGovernor in_normal → DeviceGovernor in_extreme
normal_to_extreme g = governor in_extreme

-- `impl DeviceGovernor<Performance>`
unfoldable pub performance_to_normal : DeviceGovernor in_performance → DeviceGovernor in_normal
performance_to_normal g = governor in_normal

unfoldable pub performance_to_extreme : DeviceGovernor in_performance → DeviceGovernor in_extreme
performance_to_extreme g = governor in_extreme

-- `impl DeviceGovernor<Extreme>`
unfoldable pub extreme_to_normal : DeviceGovernor in_extreme → DeviceGovernor in_normal
extreme_to_normal g = governor in_normal

unfoldable pub extreme_to_performance : DeviceGovernor in_extreme → DeviceGovernor in_performance
extreme_to_performance g = governor in_performance
