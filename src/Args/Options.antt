-- ===== src/Args/Options.antt =====
-- What the options of a command line give.
use efimon.Prelude.{
  ◌≡◌, refl, ◌≢◌, ◌↔◌, true, false, List, [], ◌∷◌, ◌++◌, arith, Text, codes, text_eq_refl,
}
use efimon.Args.{
  non_existing, no_value, found, throws, parser, exists, find_option, advance, deref, get_option,
}

find_option-append :
    (option : Text) (pre rest : List Text)
    → exists option pre ≡ false
    → find_option option (pre ++ (option ∷ rest)) ≡ option ∷ rest
unfolding exists find_option
find_option-append option [] rest h = rw (text_eq_refl option)
find_option-append option (a ∷ pre) rest h = ground (arith, find_option-append option pre rest)

exists-append :
    (option : Text) (pre rest : List Text) → exists option (pre ++ (option ∷ rest)) ≡ true
unfolding exists
exists-append option [] rest = rw (text_eq_refl option)
exists-append option (a ∷ pre) rest = ground (arith, exists-append option pre rest)

-- The value of an option is the argument behind its first occurrence, whatever that argument is;
-- an option that stands last has none, and that is the second exception.
pub get_option-first :
    (option value : Text) (pre rest : List Text)
    → exists option pre ≡ false
    → (get_option option (pre ++ (option ∷ value ∷ rest)) ≡ found value)
      × (get_option option (pre ++ (option ∷ [])) ≡ throws no_value)
unfolding get_option
get_option-first option value pre rest h = (
  rw (exists-append option pre (value ∷ rest), find_option-append option pre (value ∷ rest) h),
  rw (exists-append option pre [], find_option-append option pre [] h),
)

deref-advance : (args : List Text) → deref (advance args) ≢ throws non_existing
unfolding deref advance
deref-advance [] e = cc
deref-advance (a ∷ []) e = cc
deref-advance (a ∷ v ∷ rest) e = cc

-- The first exception says exactly that the option is absent.
pub get_option-non_existing_iff :
    (option : Text) (args : List Text)
    → (get_option option args ≡ throws non_existing) ↔ (exists option args ≡ false)
unfolding get_option
get_option-non_existing_iff option args = ground (arith, deref-advance (find_option option args))

-- The program's own path, the first argument, can be read as an option.
pub get_option-program_name :
    (path : Text) (argv : List Text)
    → get_option (codes "--program-name") (parser (path ∷ argv)) ≡ found path
unfolding parser get_option
get_option-program_name path argv = refl
