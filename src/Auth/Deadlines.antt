-- ===== src/Auth/Deadlines.antt =====
-- The deadline timers of frontend/src/auth/AuthProvider.tsx. A browser's timer may be late, never
-- early, and takes at most 2147483647 milliseconds, so a far deadline is reached in several rounds.
use zen_fm.Base.{ℕ, ◌+◌, List, [], ◌∷◌, Option, none, some}
use zen_fm.Auth.{tick}

-- When a schedule calls back; each round's timer is late by the next number of the list, and the
-- list's length bounds the rounds.
unfoldable pub fires : List ℕ → (deadline now : ℕ) → Option ℕ
fires [] deadline now = none
fires (late ∷ rounds) deadline now = elim (tick deadline now) [
  | none ↦ some now
  | some delay ↦ fires rounds deadline (now + delay + late)
]

unfoldable pub sum : List ℕ → ℕ
sum [] = 0
sum (n ∷ ns) = n + sum ns
