-- ===== src/Backend/Profiles.antt =====
-- What a profile does to the machine.
use wattwarden.Base.{ℕ, ◌≡◌, refl, Text, text, Bool, true, false, Option, none, some}
use wattwarden.Sysfs.{World, Os}
use wattwarden.Sysfs.Stable.{Keeps}
use wattwarden.Core.Config.{PowerProfile, normal, performance, extreme, auto_extreme}
use wattwarden.Cpu.Freq.{set_freq_limit}
use wattwarden.Rapl.{LinuxRapl, pl1_bounds_watts, set_pl1_watts, set_pl2_watts}
use wattwarden.Rapl.Writes.{IsPowerLimit, IsConstraint}
use wattwarden.Gpu.{LinuxGpu, discovered_gpu_bounds, set_gpu_freq}
use wattwarden.Backend.{
  LinuxBackend, if_some, set_end, limit_power, limit_gpu, set_hardware, set_tweaks, apply_profile,
  upper, lower_end,
}
use wattwarden.Backend.Moves.{Moves, halt, Moves-trans, LitMoves, unlit, then_lit}
use wattwarden.Backend.Moves.Lit.{set_brightness_percent-LitMoves, if_some-LitMoves}
use wattwarden.Backend.Moves.Operations.{
  set_freq_limit-Moves, set_online_cores-Moves, set_turbo_enabled-Moves,
  set_energy_performance_preference-Moves, set_gpu_freq-Moves, set_aspm_policy-Moves,
  set_pl1_watts-Moves, set_pl2_watts-Moves,
}
use wattwarden.Backend.Moves.Tweaked.{
  set_wifi_power_save-Moves, set_audio_power_save-Moves, set_autosuspend-Moves,
  set_nmi_watchdog-Moves, set_vm_writeback_seconds-Moves, set_kbd_backlight-Moves,
}

module _ (os : Os) (b : LinuxBackend) where
  pub if_some-Moves :
      {A : Type 0} (o : Option A) (f : A → World → World) (w : World)
      → ((a : A) → o ≡ some a → (v : World) → Moves os b v (f a v))
      → Moves os b w (if_some o f w)
  if_some-Moves none f w h = halt
  if_some-Moves (some a) f w h = h a refl w

  set_end-Moves :
      (end : ℕ × ℕ → ℕ) (set : ℕ → World → World) (range : Option (ℕ × ℕ)) (w : World)
      → ((n : ℕ) (v : World) → Moves os b v (set n v))
      → Moves os b w (set_end end set range w)
  set_end-Moves end set none w h = halt
  set_end-Moves end set (some range) w h = h (end range) w

  limit_power-Moves :
      Keeps os IsPowerLimit IsConstraint
      → (end : ℕ × ℕ → ℕ) (r : LinuxRapl) → b.rapl ≡ some r
      → (w : World) → Moves os b w (limit_power os end r w)
  unfolding limit_power
  limit_power-Moves keeps end r has w =
      Moves-trans
        (set_end-Moves end (set_pl1_watts os r) (pl1_bounds_watts r w) w
          (set_pl1_watts-Moves os b keeps r has))
        (set_end-Moves end (set_pl2_watts os r) _ _ (set_pl2_watts-Moves os b keeps r has))

  limit_gpu-Moves :
      (end : ℕ × ℕ → ℕ) (g : LinuxGpu)
      → b.gpu ≡ some g
      → (w : World) → Moves os b w (limit_gpu os end g w)
  unfolding limit_gpu
  limit_gpu-Moves end g has w =
      set_end-Moves end (set_gpu_freq os g) (discovered_gpu_bounds g w) w
        (set_gpu_freq-Moves os b g has)

  set_hardware-Moves :
      Keeps os IsPowerLimit IsConstraint
      → (cores : ℕ) (end : ℕ × ℕ → ℕ) (turbo : Bool) (epp policy : Text) (percent : ℕ) (w : World)
      → LitMoves os b w (set_hardware os b cores end turbo epp policy percent w)
  unfolding set_hardware
  set_hardware-Moves keeps cores end turbo epp policy percent w =
      then_lit
        (unlit (
          Moves-trans (set_online_cores-Moves os b cores w) (
            Moves-trans
              (set_end-Moves end (set_freq_limit os b.cpu) _ _ (set_freq_limit-Moves os b))
              (Moves-trans (set_turbo_enabled-Moves os b turbo _) (
                Moves-trans (set_energy_performance_preference-Moves os b epp _) (
                  Moves-trans
                    (if_some-Moves b.rapl (limit_power os end) _ (limit_power-Moves keeps end))
                    (Moves-trans (if_some-Moves b.gpu (limit_gpu os end) _ (limit_gpu-Moves end))
                      (if_some-Moves b.aspm _ _ (λ a e. set_aspm_policy-Moves os b policy)))))))))
        (if_some-LitMoves os b b.backlight _ _ (λ l. set_brightness_percent-LitMoves os b percent))

  set_tweaks-Moves : (saving : Bool) (s : ℕ) (w : World) → Moves os b w (set_tweaks os saving s w)
  unfolding set_tweaks
  set_tweaks-Moves saving s w = Moves-trans (set_wifi_power_save-Moves os b saving w) (
      Moves-trans (set_audio_power_save-Moves os b saving _) (
        Moves-trans (set_autosuspend-Moves os b saving _) (
          Moves-trans (set_nmi_watchdog-Moves os b _ _) (set_vm_writeback_seconds-Moves os b s _))))

-- Where a power limit that is written leaves the names and ranges of the constraints alone, every
-- profile is a sequence of moves: each frequency, power and GPU write lies in the range that the
-- machine declares when its component begins, the first core is not switched, hints are ones that the
-- machine resolves, the brightness is set to a percentage from 1 to 100 of the maximum that a device
-- declares, in 64-bit arithmetic, and nothing else is written but the tweaks.
pub apply_profile-Moves :
    (os : Os)
    → Keeps os IsPowerLimit IsConstraint
    → (b : LinuxBackend) (profile : PowerProfile) (w : World)
    → LitMoves os b w (apply_profile os b profile w)
unfolding apply_profile
apply_profile-Moves os keeps b performance w =
    then_lit (set_hardware-Moves os b keeps _ upper true _ _ 100 w)
      (unlit (set_tweaks-Moves os b false 5 _))
apply_profile-Moves os keeps b normal w =
    then_lit (set_hardware-Moves os b keeps _ upper true _ _ 100 w)
      (unlit (set_tweaks-Moves os b false 5 _))
apply_profile-Moves os keeps b extreme w =
    then_lit (set_hardware-Moves os b keeps _ lower_end false _ _ 10 w)
      (unlit (Moves-trans (set_kbd_backlight-Moves os b false _) (set_tweaks-Moves os b true 60 _)))
apply_profile-Moves os keeps b auto_extreme w =
    unlit (set_energy_performance_preference-Moves os b (text "balance_power") w)
