-- ===== src/Launcher/Json.antt =====
-- What the tools write and read with the JSON library (src/tools/efimon-launcher.cpp and the
-- response of src/tools/efimon-daemon.cpp), beside the `Json` of the daemon: documented behaviour of
-- the library stands in `IsJson`.
use efimon.Prelude.{
  ℕ, ◌^◌, ◌<◌, ◌≡◌, Bool, Option, none, some, List, [], ◌∷◌, if◌then◌else◌, Text, text_eq,
}
use efimon.Outcome.{Outcome, returns}
use efimon.Daemon.Server.{Json}

-- What `parseFromStream` gives: a value, or the text of the errors.
pub data Parsed (J : Type 0) : Type 0 where
  parsed : J → Parsed J
  wrong : Text → Parsed J

-- `root[key] = value`, the values that are made of a `bool`, an unsigned number, an `int` (as its
-- pattern of 32 bits) and a text, the comparison with a text, `asInt`, `writeString`, and
-- `parseFromStream` with what it leaves in the stream.
pub record Writer (J : Type 0) : Type 0 where
  pub put : J → Text → J → J
  pub of_bool : Bool → J
  pub of_uint : ℕ → J
  pub of_int : ℕ → J
  pub of_text : Text → J
  pub equals : J → Text → Bool
  pub as_int : J → Outcome ℕ
  pub write : J → Text
  pub parse_stream : Text → Parsed J × Text

-- The value of a key after assignments in this order.
abbrev pub last_value : {J : Type 0} → Text → List (Text × J) → Option J
last_value key [] = none
last_value key (e ∷ es) = elim (last_value key es) [
  | none ↦ if text_eq (e.0) key then some (e.1) else none
  | some v ↦ some v
]

module _ {J : Type 0} (api : Json J) (w : Writer J) where
  -- The assignments of some keys, in order.
  abbrev pub assign : List (Text × J) → J → J
  assign [] j = j
  assign (e ∷ es) j = assign es (w.put j (e.0) (e.1))

  abbrev pub build : List (Text × J) → J
  build es = assign es api.null

  -- The library's promises: a value that was assigned is found under its key, a conversion gives
  -- back what the value was made of, and an object that is written is read back whole.
  pub record IsJson : Type 0 where
    pub member-build :
        (es : List (Text × J)) (key : Text)
        → api.member (build es) key ≡ returns (last_value key es)
    pub as_bool-of_bool : (b : Bool) → api.as_bool (w.of_bool b) ≡ returns b
    pub as_uint-of_uint : (n : ℕ) → n < 2 ^ 32 → api.as_uint (w.of_uint n) ≡ returns n
    pub as_int-of_int : (n : ℕ) → n < 2 ^ 32 → w.as_int (w.of_int n) ≡ returns n
    pub as_text-of_text : (t : Text) → api.as_text (w.of_text t) ≡ returns t
    pub equals-of_text : (s t : Text) → w.equals (w.of_text s) t ≡ text_eq s t
    pub parse_stream-write :
        (es : List (Text × J)) → w.parse_stream (w.write (build es)) ≡ (parsed (build es), [])
