-- ===== src/Daemon/Ladder/Safe.antt =====
-- What a step of the ladder does to the machine.
use wattwarden.Base.{
  ◌≡◌, refl, text, Bool, Bool-cases, inl, inr, true, false, not, some, if◌then◌else◌,
}
use wattwarden.Sysfs.{World, Os}
use wattwarden.Sysfs.Stable.{Keeps}
use wattwarden.Core.Config.{Config, AutoExtremeLevel}
use wattwarden.Rapl.{LinuxRapl, pl1_bounds_watts, set_pl1_watts, set_pl2_watts}
use wattwarden.Rapl.Writes.{IsPowerLimit, IsConstraint}
use wattwarden.Gpu.{set_gpu_freq}
use wattwarden.Backend.{LinuxBackend}
use wattwarden.Backend.Moves.{Moves, halt, Moves-trans}
use wattwarden.Backend.Moves.Operations.{
  set_freq_limit-Moves, set_online_cores-Moves, set_turbo_enabled-Moves,
  set_energy_performance_preference-Moves, set_gpu_freq-Moves, set_aspm_policy-Moves,
  set_pl1_watts-Moves, set_pl2_watts-Moves,
}
use wattwarden.Backend.Moves.Tweaked.{
  set_wifi_power_save-Moves, set_audio_power_save-Moves, set_autosuspend-Moves,
  set_nmi_watchdog-Moves, set_vm_writeback_seconds-Moves, set_kbd_backlight-Moves,
}
use wattwarden.Backend.Profiles.{if_some-Moves}
use wattwarden.Core.Float.{Float}
use wattwarden.Daemon.Ladder.{
  LogicStepResult, level_ceiling_of, power_target, limit_power, targets, climb, save_power,
  enabled_step, apply_logic_step,
}

module _ {F : Type 0} (fl : Float F) (os : Os) (keeps : Keeps os IsPowerLimit IsConstraint)
    (b : LinuxBackend) where
  limit_power-Moves :
      (ceiling p : F) (r : LinuxRapl)
      → b.rapl ≡ some r
      → (w : World) → Moves os b w (limit_power fl os ceiling p r w)
  unfolding limit_power
  limit_power-Moves ceiling p r has w =
      Moves-trans
        (if_some-Moves os b (power_target fl ceiling p (pl1_bounds_watts r w)) (set_pl1_watts os r)
          w (λ t e. set_pl1_watts-Moves os b keeps r has t))
        (if_some-Moves os b (power_target fl ceiling p _) (set_pl2_watts os r) _
          (λ t e. set_pl2_watts-Moves os b keeps r has t))

  climb-Moves :
      (level : AutoExtremeLevel) (t : LogicStepResult F) (w : World)
      → Moves os b w (climb fl os b level t w)
  unfolding climb
  climb-Moves level t w =
      Moves-trans
        (if_some-Moves os b b.rapl (limit_power fl os (level_ceiling_of fl level) t.discrete_power)
          w (limit_power-Moves (level_ceiling_of fl level) t.discrete_power))
        (Moves-trans (set_online_cores-Moves os b t.target_cores _) (
          Moves-trans (set_freq_limit-Moves os b t.target_freq _) (
            Moves-trans
              (if_some-Moves os b b.gpu (λ g. set_gpu_freq os g t.target_gpu) _
                (λ g has. set_gpu_freq-Moves os b g has t.target_gpu))
              (Moves-trans (set_energy_performance_preference-Moves os b t.target_epp _)
                (set_turbo_enabled-Moves os b t.target_turbo _)))))

  save_power-Moves : (w : World) → Moves os b w (save_power fl os b w)
  unfolding save_power
  save_power-Moves w =
      Moves-trans
        (if_some-Moves os b b.aspm _ w (λ a e. set_aspm_policy-Moves os b (text "powersave")))
        (Moves-trans (set_wifi_power_save-Moves os b true _) (
          Moves-trans (set_kbd_backlight-Moves os b false _) (
            Moves-trans (set_audio_power_save-Moves os b true _) (
              Moves-trans (set_autosuspend-Moves os b true _) (
                Moves-trans (set_nmi_watchdog-Moves os b false _)
                  (set_vm_writeback_seconds-Moves os b 60 _))))))

  if-Moves :
      (c : Bool) {u v w : World}
      → Moves os b u v
      → Moves os b u w
      → Moves os b u (if c then v else w)
  if-Moves true m n = m
  if-Moves false m n = n

  enabled_step-Moves :
      (level : AutoExtremeLevel) (w : World) → Moves os b w (enabled_step fl os b level w).0
  unfolding enabled_step
  enabled_step-Moves level w =
      let t = targets fl b level w in
      let climbed = climb-Moves level t w in
      if-Moves t.charging climbed (Moves-trans climbed (save_power-Moves _))

  -- For every floating point arithmetic, level, load and charge, a step of the ladder is a sequence
  -- of moves: each frequency, power and GPU write lies in the range that the machine declares when
  -- its component begins, the first core is not switched, hints are ones that the machine resolves,
  -- and nothing else is written but the tweaks. A power limit that is written is assumed to leave
  -- the names and ranges of the constraints alone.
  pub apply_logic_step-Moves :
      (config : Config) (w : World) → Moves os b w (apply_logic_step fl os b config w).0
  unfolding apply_logic_step
  apply_logic_step-Moves config w = elim (Bool-cases (not config.auto_extreme_enabled)) [
    | inl off ↦ rw off halt
    | inr on ↦ rw on (enabled_step-Moves config.auto_extreme_level w)
  ]

module _ {F : Type 0} (fl : Float F) (os : Os) (b : LinuxBackend) (config : Config)
    (w : World) where
  -- With the mode disabled a step leaves the machine as it is and reports the idle result.
  pub apply_logic_step_disabled :
      config.auto_extreme_enabled ≡ false
      → ((apply_logic_step fl os b config w).0 ≡ w)
        × ((apply_logic_step fl os b config w).1.applied ≡ false)
  unfolding apply_logic_step
  apply_logic_step_disabled off = rw off (refl, refl)
