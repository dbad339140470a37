-- ===== src/Launcher/Remote/Values.antt =====
-- Values of a JSON library, kept in a binary form, that meet `IsJson`: the library's promises can
-- hold.
pub mod Binary
use efimon.Prelude.{
  ℕ, zero, suc, ◌+◌, ◌≤◌, ◌<◌, ◌≡◌, refl, Bool, true, false, Option, none, some, List, [], ◌∷◌,
  arith, ◌==◌, if◌then◌else◌, length, drop, Text, text_eq,
}
use efimon.Outcome.{Outcome, returns, escapes}
use efimon.Daemon.Server.{Json}
use efimon.Launcher.Json.{parsed, Writer, last_value, assign, build, IsJson}
pub use efimon.Launcher.Remote.Values.Binary.*

-- The last assignment stands in front.
abbrev get : Text → Fields → Option Value
get key end = none
get key (field k v fs) = if text_eq k key then some v else get key fs

abbrev put_value : Value → Text → Value → Value
put_value (document fs) key v = document (field key v fs)
put_value _ key v = document (field key v end)

abbrev member_of : Value → Text → Outcome (Option Value)
member_of nothing key = returns none
member_of (document fs) key = returns (get key fs)
member_of _ key = escapes

abbrev bool_of : Value → Outcome Bool
bool_of (truth b) = returns b
bool_of _ = escapes

abbrev number_of : Value → Outcome ℕ
number_of (number n) = returns n
number_of _ = escapes

abbrev text_of : Value → Outcome Text
text_of nothing = returns []
text_of (word t) = returns t
text_of _ = escapes

abbrev equals_text : Value → Text → Bool
equals_text (word t) u = text_eq t u
equals_text _ u = false

abbrev pub library : Json Value
library = record {
  null = nothing;
  member = member_of;
  as_bool = bool_of;
  as_uint = number_of;
  as_text = text_of;
}

-- Every text is read as some value.
abbrev pub writer : Writer Value
writer = record {
  put = put_value;
  of_bool = truth;
  of_uint = number;
  of_int = number;
  of_text = word;
  equals = equals_text;
  as_int = number_of;
  write = λ v. write_value v [];
  parse_stream = λ t. (parsed (read_value (length t) t).0, (read_value (length t) t).1);
}

-- The value of a key after the assignments, from what the object had.
member-assign :
    (es : List (Text × Value)) (fs : Fields) (key : Text)
    → member_of (assign library writer es (document fs)) key
      ≡ returns (elim (last_value key es) [ none ↦ get key fs | some v ↦ some v ])
member-assign [] fs key = refl
member-assign (e ∷ es) fs key = let ih = member-assign es (field (e.0) (e.1) fs) key in ground arith

member_of-build :
    (es : List (Text × Value)) (key : Text)
    → member_of (build library writer es) key ≡ returns (last_value key es)
member_of-build [] key = refl
member_of-build (e ∷ es) key = let ih = member-assign es (field (e.0) (e.1) end) key in ground arith

read-write : (v : Value) → writer.parse_stream (writer.write v) ≡ (parsed v, [])
read-write v =
    rw (read_value-write v (length (write_value v [])) [] (omega (arith, size-length v []))) refl

pub library-IsJson : IsJson library writer
library-IsJson = record {
  member-build = member_of-build;
  as_bool-of_bool = λ b. refl;
  as_uint-of_uint = λ n h. refl;
  as_int-of_int = λ n h. refl;
  as_text-of_text = λ t. refl;
  equals-of_text = λ s t. refl;
  parse_stream-write = λ es. read-write (build library writer es);
}
