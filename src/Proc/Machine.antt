-- ===== src/Proc/Machine.antt =====
-- What the observers ask of the system: `sysconf`, /proc/uptime, and numbers in texts.
pub mod Numbers
use efimon.Prelude.{
  ℕ, ◌+◌, ◌-◌, ◌*◌, Bool, true, false, ◌&&◌, Option, none, some, List, [], ◌∷◌, ◌++◌, ltb, leb,
  ◌==◌, if◌then◌else◌, get_elem?, Text,
}
use efimon.Float.{Float}
use efimon.Outcome.{Outcome, returns, escapes, ◌>>=◌}
use efimon.Words.{u64, mul64}

-- `_SC_CLK_TCK`, `_SC_NPROCESSORS_ONLN` and `_SC_PAGE_SIZE`.
pub record Machine : Type 0 where
  pub clk_tck : ℕ
  pub processors : ℕ
  pub page_size : ℕ

module _ {F : Type 0} (d : Float F) where
  open d use {of_ℕ, mul, single, trunc}

  -- `static_cast<uint64_t>(uptime * sysconf(_SC_CLK_TCK)) * 10`, with `uptime` a float in seconds.
  unfoldable pub uptime_ms : Machine → F → ℕ
  uptime_ms m uptime = mul64 (trunc (single (mul uptime (single (of_ℕ m.clk_tck))))) 10

  -- `GetUptime` (src/efimon/uptime.cpp): 0 where the file cannot be opened.
  unfoldable pub system_uptime : Machine → Option F → ℕ
  unfolding uptime_ms
  system_uptime m up = elim up [ none ↦ 0 | some seconds ↦ uptime_ms m seconds ]

-- `while (std::getline(stream, token, ' '))`: the pieces between the spaces, empty ones too; the
-- text behind the last space counts if it is not empty. The first argument is the piece so far.
unfoldable pub pieces : Text → Text → List Text
pieces [] [] = []
pieces (p ∷ piece) [] = (p ∷ piece) ∷ []
pieces piece (c ∷ s) = elim (c == b' ') [
  | true ↦ piece ∷ pieces [] s
  | false ↦ pieces (piece ++ (c ∷ [])) s
]

unfoldable pub split_spaces : Text → List Text
unfolding pieces
split_spaces s = pieces [] s

abbrev pub is_digit : ℕ → Bool
is_digit c = leb b'0' c && leb c b'9'

-- The number that the leading digits make.
unfoldable pub leading : ℕ → Text → ℕ
leading acc [] = acc
leading acc (c ∷ s) = if is_digit c then leading (10 * acc + (c - b'0')) s else acc

-- `std::stoull` of a text that starts with neither a blank nor a sign: it throws where there is no
-- digit, and where the number does not fit.
unfoldable pub stoull : Text → Outcome ℕ
unfolding leading
stoull [] = escapes
stoull (c ∷ s) =
    if is_digit c
    then if ltb (leading 0 (c ∷ s)) u64 then returns (leading 0 (c ∷ s)) else escapes
    else escapes

-- `values.at(i)`.
unfoldable pub value_at : List Text → ℕ → Outcome Text
value_at vs i = elim (get_elem? vs i) [ none ↦ escapes | some v ↦ returns v ]

-- `std::stoull(values.at(i))`.
unfoldable pub number_at : List Text → ℕ → Outcome ℕ
unfolding value_at stoull
number_at vs i = value_at vs i >>= stoull
