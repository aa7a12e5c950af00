-- ===== src/Dates/Iso.antt =====
-- `datetime.date.isoformat`
use sanhita.Prelude.{ℕ, String, ltb, if◌then◌else◌}
use sanhita.Prelude.Text.{show, ◌⧺◌}
use sanhita.Dates.{Date}

-- `f"{n:02d}"` and `f"{n:04d}"`
abbrev pad2 : ℕ → String
pad2 n = if ltb n 10 then "0" ⧺ show n else show n

abbrev pad4 : ℕ → String
pad4 n = if ltb n 100 then "00" ⧺ pad2 n else if ltb n 1000 then "0" ⧺ show n else show n

unfoldable pub isoformat : Date → String
unfolding show
isoformat d = pad4 d.year ⧺ "-" ⧺ pad2 d.month ⧺ "-" ⧺ pad2 d.day
