-- ===== src/Cpu/Cores.antt =====
-- `online_cores` and `set_online_cores` of linux/cpu.rs. Neither returns an error.
pub mod Plan
use wattwarden.Base.{
  ℕ, ◌+◌, ◌<◌, Text, text, text_eq, Bool, List, [], ◌∷◌, ltb, clamp, if◌then◌else◌, skip_one,
}
use wattwarden.Sysfs.{World, Os, cpu, online, read, write_best_effort}
use wattwarden.Cpu.Governor.{LinuxCpuGovernor, num_cpus, cpu_ids}
use wattwarden.Cpu.Freq.{freq_limit, set_freq_limit}

count_online : World → ℕ → List ℕ → ℕ
count_online w cores [] = cores
count_online w cores (id ∷ ids) =
    count_online w (if text_eq (read w (cpu id online)) (text "1") then cores + 1 else cores) ids

-- cpu0 cannot be turned off, so the count starts at 1.
unfoldable pub online_cores : LinuxCpuGovernor → World → ℕ
unfolding count_online
online_cores g w = count_online w 1 (skip_one (cpu_ids g w))

-- The loop over `enumerate().skip(1)`, from the index `idx` on.
unfoldable pub switch_cores : Os → ℕ → ℕ → List ℕ → World → World
switch_cores os n idx [] w = w
switch_cores os n idx (id ∷ ids) w =
    switch_cores os n (idx + 1) ids
      (write_best_effort os (cpu id online) (if ltb idx n then text "1" else text "0") w)

-- The frequency limit is applied again, so that newly online cores inherit it.
unfoldable pub reapply_limit : Os → LinuxCpuGovernor → World → World
reapply_limit os g w = if ltb 0 (freq_limit w) then set_freq_limit os g (freq_limit w) w else w

unfoldable pub set_online_cores : Os → LinuxCpuGovernor → ℕ → World → World
unfolding switch_cores reapply_limit
set_online_cores os g count w =
    reapply_limit os g (switch_cores os (clamp count 1 (num_cpus g w)) 1 (skip_one (cpu_ids g w)) w)
