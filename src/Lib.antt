-- ===== src/Lib.antt =====
-- WattWarden: a power manager for laptops. A daemon reads the load and the charger, computes targets
-- on a ladder of power levels and writes them to the hardware through the Linux backend; profiles set
-- the hardware in one go, and a guided calibration lifts and restores the charge ceiling. A command
-- line and a dashboard for the terminal call all of these.
--
-- The parts, with paths below crates/:
-- - Base: texts as lists of bytes, signed 64-bit integers, decimal printing and parsing, lists.
-- - Sysfs (wattwarden-platform/src/linux/sysfs.rs, cmd.rs): the machine. A `World` is what the machine
--   shows (`Tree`) with the effects so far; the kernel and the tools are the parameter `Os`, which
--   answers an effect in the light of all that came before. A node of the tree is a constructor of
--   `Node`, one for each path format of the source. `Issues os P w w'` says that `w'` is reached from
--   `w` by effects of the kind `P` only; `Keeps` is the assumption that effects of one kind leave
--   nodes of another alone.
-- - Cpu, Rapl, Threshold, Gpu, Backlight, Aspm, Tweaks, Battery (the files of linux/ with these names;
--   peripherals.rs is in Tweaks): a record for each controller and a function for each method. A
--   setter takes the `Os` and the world and returns the world. A method that only ever returns `Ok`
--   has no `Result` in the model.
-- - Core (wattwarden-core/src): errors, interfaces, configuration, the health figures of a battery,
--   the floating point interface `Float`, and the calibration, which takes
--   the ceiling and the battery as interfaces; `linux_threshold` and `linux_battery` fill them.
-- - Backend (linux/mod.rs): the record of all controllers and the profiles. Backend.Moves names what
--   an operation may do, in terms of what the machine declares when it begins; its `Moves` leave the
--   brightness alone, and its `LitMoves` set it too.
-- - Daemon (wattwarden-daemon/src/daemon.rs): the ladder, the brightness step, the charge limit and the
--   loop, which is a sequence of ticks, each with the configuration that it finds. Daemon.Health is
--   the throttled telemetry, apart from the loop, since it writes no hardware, and Daemon.Iso its time stamps. Daemon.Pid is the
--   single-instance lock of pid.rs, with the file system and `flock` as an interface.
-- - Macos (wattwarden-platform/src/macos/mod.rs, parse.rs, exec.rs): the backend that calls the tools of
--   macOS, over an interface `Shell`; Macos.Parse reads what they print, Macos.Fixed holds what macOS
--   does not offer. Fallback (fallback/mod.rs) is the backend of an unknown system.
-- - Escalation (wattwarden-platform/src/privilege.rs): a command run again with privileges; the
--   processes are an interface.
-- - Cli (wattwarden-cli/src): Cli.Runtime is the trait `CliRuntime` over a state, Cli.Commands an arm
--   of the dispatcher each, Cli.Dispatch the function `run`, Cli.Behaviour what a command promises.
--   Cli.Real is the program's own runtime (main.rs, service.rs): it fills the interface with the
--   backend and the calibration, over an interface `System` of files and processes.
-- - Tui (wattwarden-tui/src/app.rs, run.rs): Tui.Menu the rows and the selection, Tui.App the state
--   `App` and the operations that no row needs, Tui.Adjust and Tui.Arrows the rows that the arrows
--   adjust, Tui.Keys Enter and the loop's answer to a key; `none` is a panic there. The clock, the
--   configuration file and the other processes are the interface `Host`. Tui.Changes says what an
--   operation keeps and what it may do to the hardware. Tui.Rows is what the rows show, with their
--   cache. Tui.Layout, Tui.Line, Tui.Screen, Tui.Plot and Tui.Draw are ui.rs: where the blocks go, the
--   text of a row, the menu, the plot, and the whole screen as the list of its writes.
-- - Tests: a small machine and the theorems at it.
--
-- Bounds: machine integers are native numbers with their wrap-around (`wrap_u32`, `signed64`) written
-- out where the source casts. A sum that does not fit wraps around too, as in a release build; a debug
-- build panics there. Loops are structural recursion, but for `scan` of
-- Macos.Parse, which has fuel for one round more than the text has bytes. Floating point
-- arithmetic is a parameter (`Float`) of which nothing is assumed.
--
-- The dashboard's clock is in milliseconds. The loops that wait for the daemon count their rounds
-- down from the source's 10, 20 and 30.
--
-- Not modelled: the JSON files, log messages, the compositor's socket, the buffer that is drawn to, and
-- the start of processes. A command of macOS that only reports is taken to change nothing.
pub mod Base
pub mod Sysfs
pub mod Cpu
pub mod Rapl
pub mod Core
pub mod Threshold
pub mod Gpu
pub mod Backlight
pub mod Aspm
pub mod Tweaks
pub mod Battery
pub mod Backend
pub mod Macos
pub mod Fallback
pub mod Escalation
pub mod Cli
pub mod Tui
pub mod Daemon
pub mod Tests
