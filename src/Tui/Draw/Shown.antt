-- ===== src/Tui/Draw/Shown.antt =====
-- What the user has selected is on the screen.
use wattwarden.Core.Float.{Float}
use wattwarden.Tui.App.{App}
