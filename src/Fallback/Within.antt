-- ===== src/Fallback/Within.antt =====
-- The cores that the backend of an unknown system keeps.
use wattwarden.Base.{ℕ, ◌≤◌, List, [], ◌∷◌, arith}
use wattwarden.Core.Config.{PowerProfile, normal, performance, extreme, auto_extreme}
use wattwarden.Fallback.{FallbackCpu, new, set_online_cores, apply_profile}

-- The requests that the backend takes.
pub data Request : Type 0 where
  cores : ℕ → Request
  profile : PowerProfile → Request

abbrev pub after : ℕ → Request → FallbackCpu → FallbackCpu
after p (cores n) c = (set_online_cores p n c).0
after p (profile q) c = (apply_profile p q c).0

abbrev pub after_all : ℕ → List Request → FallbackCpu → FallbackCpu
after_all p [] c = c
after_all p (r ∷ rs) c = after_all p rs (after p r c)

pub IsOnline : ℕ → FallbackCpu → Type 0
IsOnline p c = (1 ≤ c.online) × (c.online ≤ p)

set_online_cores-IsOnline :
    (p n : ℕ) (c : FallbackCpu) → 1 ≤ p → IsOnline p (set_online_cores p n c).0
unfolding set_online_cores IsOnline
set_online_cores-IsOnline p n c h = ground arith

after-IsOnline : (p : ℕ) (r : Request) (c : FallbackCpu) → 1 ≤ p → IsOnline p (after p r c)
unfolding apply_profile
after-IsOnline p (cores n) c h = set_online_cores-IsOnline p n c h
after-IsOnline p (profile normal) c h = set_online_cores-IsOnline p p c h
after-IsOnline p (profile performance) c h = set_online_cores-IsOnline p p c h
after-IsOnline p (profile extreme) c h = set_online_cores-IsOnline p _ c h
after-IsOnline p (profile auto_extreme) c h = set_online_cores-IsOnline p p c h

after_all-IsOnline :
    (p : ℕ) (rs : List Request) (c : FallbackCpu)
    → 1 ≤ p
    → IsOnline p c
    → IsOnline p (after_all p rs c)
after_all-IsOnline p [] c h k = k
after_all-IsOnline p (r ∷ rs) c h k =
    after_all-IsOnline p rs (after p r c) h (after-IsOnline p r c h)

-- Whatever it is asked for from the start on, the backend of an unknown system reports between one
-- core and those that there are.
pub requests-IsOnline : (p : ℕ) (rs : List Request) → 1 ≤ p → IsOnline p (after_all p rs (new p))
unfolding new IsOnline
requests-IsOnline p rs h = after_all-IsOnline p rs (new p) h (h, omega arith)
