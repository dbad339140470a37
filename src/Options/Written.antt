-- ===== src/Options/Written.antt =====
-- A command line of the daemon is read back.
use efimon.Prelude.{
  ℕ, ◌^◌, ◌<◌, String, ◌≡◌, refl, sym, ap, subst, ◌∙◌, Bool, true, false, ◌||◌, Option, none, some,
  List, [], ◌∷◌, arith, ◌==◌, if◌then◌else◌, any, All, Text, codes, text_eq, to_string,
}
use efimon.Prelude.{IsDigit}
use efimon.Outcome.{returns}
use efimon.Args.{found, parser, exists, find_option, advance, deref, get_begin, get_option}
use efimon.Proc.Machine.Numbers.{to_string-cons}
use efimon.Proc.CpuInfo.{stoi}
use efimon.Proc.CpuInfo.Lines.{stoi-to_string}
use efimon.Daemon.Server.{def_frequency}
use efimon.Options.{
  def_samples, def_delay, def_port, is_blank, skip_blanks, signed, read_uint, of_found,
  exists_either, get_either, number_or, text_or, DaemonOptions, daemon_options,
}

-- A value that is no option: it has a first byte, and that is not `-`.
abbrev pub IsPlain : Text → Type 0
IsPlain [] = ⊥
IsPlain (c ∷ t) = (b'-' == c) ≡ false

read_uint-digits : (c : ℕ) (t : Text) → IsDigit c → read_uint (c ∷ t) ≡ stoi (c ∷ t)
unfolding read_uint signed skip_blanks is_blank
read_uint-digits c t d = ground arith

-- The command line of some options.
abbrev pub command_line : Text → DaemonOptions → List Text
command_line program o =
    program
    ∷ codes "-s"
    ∷ to_string o.samples
    ∷ codes "-f"
    ∷ to_string o.frequency
    ∷ codes "-d"
    ∷ to_string o.delaytime
    ∷ codes "-p"
    ∷ to_string o.port
    ∷ codes "-o"
    ∷ o.outputpath
    ∷ (if o.debug_mode then codes "-g" ∷ [] else [])

-- Options with their values, and then some more arguments.
abbrev flat : List (Text × Text) → List Text → List Text
flat [] tail = tail
flat (p ∷ ps) tail = p.0 ∷ p.1 ∷ flat ps tail

abbrev value_of : Text → List (Text × Text) → Option Text
value_of option [] = none
value_of option (p ∷ ps) = if text_eq option (p.0) then some (p.1) else value_of option ps

abbrev ArePlain : List (Text × Text) → Type 0
ArePlain ps = All (λ p. IsPlain (p.1)) ps

plain_ne : (o v : Text) → IsPlain v → text_eq (b'-' ∷ o) v ≡ false
plain_ne o [] h = elim h [ ]
plain_ne o (c ∷ v) h = rw h refl

exists-flat :
    (o : Text) (ps : List (Text × Text)) (tail : List Text)
    → ArePlain ps
    → exists (b'-' ∷ o) (flat ps tail)
      ≡ (any (λ p. text_eq (b'-' ∷ o) (p.0)) ps || exists (b'-' ∷ o) tail)
unfolding exists
exists-flat o [] tail h = refl
exists-flat o (p ∷ ps) tail h =
    let ih = exists-flat o ps tail (h.1) in let n = plain_ne o (p.1) (h.0) in ground arith

find-flat :
    (o : Text) (ps : List (Text × Text)) (tail : List Text) (v : Text)
    → ArePlain ps
    → value_of (b'-' ∷ o) ps ≡ some v
    → deref (advance (find_option (b'-' ∷ o) (flat ps tail))) ≡ found v
unfolding find_option advance deref
find-flat o [] tail v h e = cc
find-flat o (p ∷ ps) tail v h e =
    let ih = find-flat o ps tail v (h.1) in let n = plain_ne o (p.1) (h.0) in ground arith

value_of-any :
    (o : Text) (ps : List (Text × Text)) (v : Text)
    → value_of o ps ≡ some v
    → any (λ p. text_eq o (p.0)) ps ≡ true
value_of-any o [] v e = cc
value_of-any o (p ∷ ps) v e = let ih = value_of-any o ps v in ground arith

exists-value :
    (o : Text) (ps : List (Text × Text)) (tail : List Text) (v : Text)
    → ArePlain ps
    → value_of (b'-' ∷ o) ps ≡ some v
    → exists (b'-' ∷ o) (flat ps tail) ≡ true
exists-value o ps tail v h e = exists-flat o ps tail h ∙ rw (value_of-any (b'-' ∷ o) ps v e) refl

get-flat :
    (o : Text) (ps : List (Text × Text)) (tail : List Text) (v : Text)
    → ArePlain ps
    → value_of (b'-' ∷ o) ps ≡ some v
    → get_option (b'-' ∷ o) (flat ps tail) ≡ found v
unfolding get_option get_begin
get-flat o ps tail v h e = rw (exists-value o ps tail v h e) (find-flat o ps tail v h e)

-- The short name of an option, with its value.
module _ (short long : String) (o : Text) (name : codes short ≡ b'-' ∷ o) (ps : List (Text × Text))
    (tail : List Text) (v : Text) (h : ArePlain ps) (e : value_of (b'-' ∷ o) ps ≡ some v) where
  get_either-flat : get_either short long (flat ps tail) ≡ returns v
  unfolding get_either of_found
  get_either-flat = rw (name, exists-value o ps tail v h e, get-flat o ps tail v h e) refl

  exists_either-flat : exists_either short long (flat ps tail) ≡ true
  unfolding exists_either
  exists_either-flat = rw (name, exists-value o ps tail v h e) refl

  text_or-flat : (default : Text) → text_or default short long (flat ps tail) ≡ returns v
  unfolding text_or
  text_or-flat default = rw (exists_either-flat, get_either-flat) refl

  number_or-flat :
      (default n : ℕ)
      → read_uint v ≡ returns n
      → number_or default short long (flat ps tail) ≡ returns n
  unfolding number_or
  number_or-flat default n r = rw (exists_either-flat, get_either-flat, r) refl

read_uint-to_string : (n : ℕ) → n < 2 ^ 31 → read_uint (to_string n) ≡ returns n
read_uint-to_string n h =
    let (c, t, e, d, _, _) = to_string-cons n in
    ap read_uint e ∙ read_uint-digits c t d ∙ ap stoi (sym e) ∙ stoi-to_string n h

to_string-IsPlain : (n : ℕ) → IsPlain (to_string n)
to_string-IsPlain n =
    let (c, t, e, d, _, _) = to_string-cons n in subst IsPlain (sym e) (ground arith)

-- The numbers fit an `int`.
pub record IsSmall (o : DaemonOptions) : Type 0 where
  pub samples_fit : o.samples < 2 ^ 31
  pub frequency_fits : o.frequency < 2 ^ 31
  pub delaytime_fits : o.delaytime < 2 ^ 31
  pub port_fits : o.port < 2 ^ 31

abbrev pairs : Text → DaemonOptions → List (Text × Text)
pairs program o =
    (codes "--program-name", program)
    ∷ (codes "-s", to_string o.samples)
    ∷ (codes "-f", to_string o.frequency)
    ∷ (codes "-d", to_string o.delaytime)
    ∷ (codes "-p", to_string o.port)
    ∷ (codes "-o", o.outputpath)
    ∷ []

abbrev debug_flag : Bool → List Text
debug_flag debug = if debug then codes "-g" ∷ [] else []

absent-either :
    (ps : List (Text × Text)) (debug : Bool)
    → ArePlain ps
    → any (λ p. text_eq (codes "-h") (p.0)) ps ≡ false
    → any (λ p. text_eq (codes "--help") (p.0)) ps ≡ false
    → exists_either "-h" "--help" (flat ps (debug_flag debug)) ≡ false
unfolding exists_either exists
absent-either ps true h a b =
    let e1 = exists-flat (codes "h") ps (debug_flag true) h in
    let e2 = exists-flat (codes "-help") ps (debug_flag true) h in rw (e1, e2, a, b) refl
absent-either ps false h a b =
    let e1 = exists-flat (codes "h") ps (debug_flag false) h in
    let e2 = exists-flat (codes "-help") ps (debug_flag false) h in rw (e1, e2, a, b) refl

debug-either :
    (ps : List (Text × Text)) (debug : Bool)
    → ArePlain ps
    → any (λ p. text_eq (codes "-g") (p.0)) ps ≡ false
    → any (λ p. text_eq (codes "--enable-debug") (p.0)) ps ≡ false
    → exists_either "-g" "--enable-debug" (flat ps (debug_flag debug)) ≡ debug
unfolding exists_either exists
debug-either ps true h a b =
    let e1 = exists-flat (codes "g") ps (debug_flag true) h in
    let e2 = exists-flat (codes "-enable-debug") ps (debug_flag true) h in rw (e1, e2, a) refl
debug-either ps false h a b =
    let e1 = exists-flat (codes "g") ps (debug_flag false) h in
    let e2 = exists-flat (codes "-enable-debug") ps (debug_flag false) h in rw (e1, e2, a, b) refl

-- The daemon reads back the options that are written on a command line, whichever they are, if the
-- numbers fit an `int` and neither the program's name nor the folder is empty or begins with a dash.
pub daemon_options-command_line :
    (program : Text) (o : DaemonOptions)
    → IsPlain program
    → IsPlain o.outputpath
    → IsSmall o
    → daemon_options (command_line program o) ≡ returns (some o)
unfolding daemon_options parser
daemon_options-command_line program o p q s =
    let ps = pairs program o in
    let tail = debug_flag o.debug_mode in
    let h : ArePlain ps = (
      p,
      (
        to_string-IsPlain o.samples,
        (
          to_string-IsPlain o.frequency,
          (to_string-IsPlain o.delaytime, (to_string-IsPlain o.port, (q, tt))),
        ),
      ),
    ) in
    rw
      (
        absent-either ps o.debug_mode h refl refl,
        number_or-flat "-s" "--samples" (codes "s") refl ps tail (to_string o.samples) h refl
            def_samples o.samples (read_uint-to_string o.samples s.samples_fit),
        number_or-flat "-f" "--frequency" (codes "f") refl ps tail (to_string o.frequency) h refl
            def_frequency o.frequency (read_uint-to_string o.frequency s.frequency_fits),
        number_or-flat "-d" "--delay" (codes "d") refl ps tail (to_string o.delaytime) h refl
            def_delay o.delaytime (read_uint-to_string o.delaytime s.delaytime_fits),
        number_or-flat "-p" "--port" (codes "p") refl ps tail (to_string o.port) h refl def_port
            o.port (read_uint-to_string o.port s.port_fits),
        text_or-flat "-o" "--output-folder" (codes "o") refl ps tail o.outputpath h refl
            (codes "/tmp"),
        debug-either ps o.debug_mode h refl refl,
      )
      refl
