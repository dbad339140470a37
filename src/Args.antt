-- ===== src/Args.antt =====
-- `ArgParser` (src/efimon/arg-parser.cpp). The iterators of the class are the positions from which
-- the arguments are read; `GetBegin` gives the arguments from the value on, up to `GetEnd`.
pub mod Options
pub mod Tests
use efimon.Prelude.{Bool, List, [], ◌∷◌, if◌then◌else◌, any, Text, codes, text_eq}

-- The two exceptions.
pub data ArgError : Type 0 where
  non_existing no_value : ArgError

pub data Found {ℓ} (A : Type ℓ) : Type ℓ where
  found : A → Found A
  throws : ArgError → Found A

-- `arguments_`: `--program-name` and then `argv`.
unfoldable pub parser : List Text → List Text
parser argv = codes "--program-name" ∷ argv

unfoldable pub exists : Text → List Text → Bool
exists option args = any (text_eq option) args

-- `std::find(begin, end, option)`: the arguments from the first match on.
unfoldable pub find_option : Text → List Text → List Text
find_option option [] = []
find_option option (a ∷ args) = if text_eq option a then a ∷ args else find_option option args

-- What stands behind the iterator after `itr++`.
unfoldable pub advance : List Text → Found (List Text)
advance [] = throws no_value
advance (a ∷ []) = throws no_value
advance (a ∷ v ∷ rest) = found (v ∷ rest)

unfoldable pub get_begin : Text → List Text → Found (List Text)
unfolding exists find_option advance
get_begin option args =
    if exists option args then advance (find_option option args) else throws non_existing

-- `*it`.
unfoldable pub deref : Found (List Text) → Found Text
deref (found (v ∷ rest)) = found v
deref (found []) = throws no_value
deref (throws e) = throws e

unfoldable pub get_option : Text → List Text → Found Text
unfolding get_begin deref
get_option option args = deref (get_begin option args)
