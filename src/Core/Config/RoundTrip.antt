-- ===== src/Core/Config/RoundTrip.antt =====
-- What is displayed is parsed back.
use wattwarden.Base.{◌≡◌, refl, to_lowercase, trim}
use wattwarden.Core.Error.{Result, ok, err, config}
use wattwarden.Core.Config.{
  PowerProfile, normal, performance, extreme, auto_extreme, AutoExtremeLevel, low, medium, high,
  display_profile, profile_from_str, display_level, level_from_str,
}

-- What parsing the displayed name of a profile gives: the name of `AutoExtreme` holds a space, which
-- no accepted spelling has.
abbrev pub reread : PowerProfile → Result PowerProfile
reread normal = ok normal
reread performance = ok performance
reread extreme = ok extreme
reread auto_extreme = err config

-- Every profile but `AutoExtreme` is parsed back from its displayed name; the displayed name of
-- `AutoExtreme` is refused as a configuration error.
pub profile_from_str-display_profile :
    (p : PowerProfile) → profile_from_str (display_profile p) ≡ reread p
unfolding profile_from_str display_profile trim to_lowercase
profile_from_str-display_profile normal = refl
profile_from_str-display_profile performance = refl
profile_from_str-display_profile extreme = refl
profile_from_str-display_profile auto_extreme = refl

-- Every level is parsed back from its displayed name.
pub level_from_str-display_level : (l : AutoExtremeLevel) → level_from_str (display_level l) ≡ ok l
unfolding level_from_str display_level trim to_lowercase
level_from_str-display_level low = refl
level_from_str-display_level medium = refl
level_from_str-display_level high = refl
