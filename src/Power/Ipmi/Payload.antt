-- ===== src/Power/Ipmi/Payload.antt =====
-- The numbers in the lines that the IPMI commands print, as texts (`GetInfo`, `GetPower` and
-- `GetFanSpeed` of src/efimon/power/ipmi.cpp).
use efimon.Prelude.{
  ℕ, zero, suc, ◌+◌, ◌-◌, Option, none, some, ltb, if◌then◌else◌, length, take, drop, Text, codes,
  find,
}
use efimon.Outcome.{Outcome, returns, escapes}
use efimon.Words.{u64, add64, sub64}

-- A position as a `size_type`: `npos` is the largest one.
unfoldable pub index : Option ℕ → ℕ
index none = u64 - 1
index (some i) = i

-- `s.substr(pos, count)`.
unfoldable pub substr : Text → ℕ → ℕ → Outcome Text
substr s pos count = if ltb (length s) pos then escapes else returns (take count (drop pos s))

-- The text between the colon and the unit, as the positions of `": "` and of `"W"` make it. The
-- length wraps around where a `W` stands before the colon, so the text runs to the end.
unfoldable pub field : Text → Outcome Text
unfolding index substr
field line =
    let start = add64 (index (find (codes ": ") line)) 2 in
    let size = sub64 (sub64 (index (find (codes "W") line)) 1) start in substr line start size

-- Behind the first bar, or the whole text; and up to the byte before the first bar.
unfoldable pub after_bar : Text → Text
after_bar s = elim (find (codes "|") s) [ none ↦ s | some i ↦ drop (i + 1) s ]

unfoldable pub before_bar : Text → Text
before_bar s = elim (find (codes "|") s) [
  | none ↦ s
  | some i ↦ elim i [ zero ↦ s | suc j ↦ take j s ]
]

-- Behind the third bar, up to the fourth.
unfoldable pub fan_field : Text → Text
unfolding after_bar before_bar
fan_field line = before_bar (after_bar (after_bar (after_bar line)))
