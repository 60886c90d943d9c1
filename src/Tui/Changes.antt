-- ===== src/Tui/Changes.antt =====
-- crates/wattwarden-tui/src/app.rs: what the operations of the dashboard keep, and what they do to
-- the hardware.
pub mod Basic
use wattwarden.Base.{
  ℕ, ◌≤◌, Text, Bool, true, false, if◌then◌else◌, Option, none, some, text, to_string, List, ℤ, pos,
  ◌≡◌, refl, sym, ap, ◌∙◌, ◌⊎◌, inl, inr, subst,
}
use wattwarden.Core.Config.{Config, extreme}
use wattwarden.Sysfs.{World, Os}
use wattwarden.Backend.{LinuxBackend}
use wattwarden.Backend.Moves.{LitMoves}
use wattwarden.Threshold.Set.{set_charge_threshold}
use wattwarden.Tweaks.{set_vm_writeback_centisecs, set_rfkill, process_purge}
use wattwarden.Tui.Menu.{ActionItem, charge_limit}
use wattwarden.Tui.App.{Host, App}

-- A limit that the dashboard may set.
abbrev pub IsLimit : Option ℕ → Type 0
IsLimit none = Unit {0}
IsLimit (some n) = (55 ≤ n) × (n ≤ 100)

-- The argument of `charge-limit` for a limit.
abbrev pub limit_arg : Option ℕ → Text
limit_arg none = text "off"
limit_arg (some n) = to_string n

-- The changes of the hardware that a key can cause, where `stored` says which limits a calibration has
-- stored.
pub data Changes {H : Type 0} (host : Host H) (os : Os) (stored : ℕ → Type 0) (b : LinuxBackend)
    : World → World → Type 0 where
  unchanged : {w : World} → Changes host os stored b w w
  then_also :
      {u v w : World}
      → Changes host os stored b u v
      → Changes host os stored b v w
      → Changes host os stored b u w
  -- The operations of the backend, which stay within what the machine declares
  moved : {w w' : World} → LitMoves os b w w' → Changes host os stored b w w'
  -- A radio switch, and a drop of the page cache
  radio :
      {w : World} (kind : Text) (on : Bool) → Changes host os stored b w (set_rfkill os kind on w)
  purged : {w : World} → Changes host os stored b w (process_purge os w)
  -- A writeback time of 1 to 60 seconds
  writeback :
      {w : World} (cs : ℕ)
      → 100 ≤ cs
      → cs ≤ 6000
      → Changes host os stored b w (set_vm_writeback_centisecs os (pos cs) w)
  -- A charge limit of 55 to 100, or the one that a calibration has stored
  limited :
      {w : World} (n : ℕ)
      → 55 ≤ n
      → n ≤ 100
      → Changes host os stored b w (set_charge_threshold os b.threshold n w).0
  given_back :
      {w : World} (n : ℕ)
      → stored n
      → Changes host os stored b w (set_charge_threshold os b.threshold n w).0
  -- The command line, run with privileges for no limit or one of 55 to 100
  elevated :
      {w : World} (limit : Option ℕ) (h : H)
      → IsLimit limit
      → Changes host os stored b w (host.run_elevated_charge_limit (limit_arg limit) w h).0

module _ {F H : Type 0} where
  -- What only the keys for the selection and the sampling change.
  abbrev pub frame : App F H → List ActionItem × ℕ × ℕ × List F × LinuxBackend
  frame app = (app.items, app.selected, app.refresh_delay, app.history, app.backend)

-- An elevated run of the command line has succeeded and left the machine and the files as they are in
-- `app`, whose configuration is the one that is then read.
pub data IsReloaded {F H : Type 0} (host : Host H) (app : App F H) : Type 0 where
  reloaded :
      (arg : Text) (w : World) (h : H)
      → host.run_elevated_charge_limit arg w h ≡ (app.world, app.host, true)
      → app.config ≡ host.load app.host
      → IsReloaded host app

-- The row is the one of the charge limit, and the configuration has been read again.
abbrev pub Reread : {F H : Type 0} → Host H → ActionItem → App F H → Type 0
Reread host item app = (item ≡ charge_limit) × IsReloaded host app

-- Never.
abbrev pub Never : {F H : Type 0} → App F H → Type 0
Never app = ⊥

module _ {F H : Type 0} (host : Host H) (os : Os) where
  -- A step that keeps the frame, changes the hardware in those ways only, and does not choose
  -- Extreme Mode: where the configuration names it, it did before, or `read` holds afterwards.
  pub record Adjusted (read : App F H → Type 0) (stored : ℕ → Type 0) (app app' : App F H)
      : Type 0 where
    pub kept : frame app' ≡ frame app
    pub changed : Changes host os stored app.backend app.world app'.world
    pub chosen :
        app'.config.profile ≡ some extreme → (app.config.profile ≡ some extreme) ⊎ read app'

module _ {F H : Type 0} (host : Host H) (os : Os) (read : App F H → Type 0)
    (stored : ℕ → Type 0) where
  pub Adjusted-trans :
      (a b c : App F H)
      → Adjusted host os Never stored a b
      → Adjusted host os read stored b c
      → Adjusted host os read stored a c
  Adjusted-trans a b c p q = record {
    kept = q.kept ∙ p.kept;
    changed =
        then_also p.changed
          (subst (λ k. Changes host os stored k b.world c.world) (ap (λ f. f.4) p.kept) q.changed);
    chosen = λ e. elim (q.chosen e) [
      | inl before ↦ elim (p.chosen before) [ inl first ↦ inl first | inr never ↦ absurd never ]
      | inr loaded ↦ inr loaded
    ];
  }

  pub Adjusted-mono :
      (read' : App F H → Type 0) (a b : App F H)
      → (read b → read' b)
      → Adjusted host os read stored a b
      → Adjusted host os read' stored a b
  Adjusted-mono read' a b h p = record {
    kept = p.kept;
    changed = p.changed;
    chosen = λ e. elim (p.chosen e) [ inl before ↦ inl before | inr loaded ↦ inr (h loaded) ];
  }

  pub still : (app : App F H) → Adjusted host os read stored app app
  still app = record { kept = refl; changed = unchanged; chosen = λ e. inl e }

  pub Adjusted-if :
      (app : App F H) (test : Bool) (x y : App F H)
      → Adjusted host os read stored app x
      → Adjusted host os read stored app y
      → Adjusted host os read stored app (if test then x else y)
  Adjusted-if app true x y p q = p
  Adjusted-if app false x y p q = q
