-- ===== src/Botapi/Truncate/Breaks.antt =====
-- Where a line break may move the cut.
use express_botx.Botapi.Truncate.{last_break, last_line_break}
use express_botx.Common.{arith, some, suc, zero, ℕ, ◌-◌, ◌≡◌, ◌≤◌}
use express_botx.Text.{Str}

last_break-le : (runes : Str) (left cut nl : ℕ) → last_break runes left cut ≡ some nl → nl ≤ cut
unfolding last_break
last_break-le runes zero cut nl h = cc
last_break-le runes (suc left) cut nl h = ground (arith, last_break-le runes left (cut - 1) nl)

-- A line break found lies at or before the cut, within the window.
pub last_line_break-le :
    (runes : Str) (cut window nl : ℕ) → last_line_break runes cut window ≡ some nl → nl ≤ cut
unfolding last_line_break
last_line_break-le runes cut window nl h =
    ground (arith, last_break-le runes (cut - (cut - window)) cut nl)
