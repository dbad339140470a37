-- ===== src/Options/Targets.antt =====
-- Which command lines the launcher cannot read.
use efimon.Prelude.{
  ℕ, ◌-◌, ◌^◌, ◌≡◌, subst, inl, inr, Bool, true, not, ◌||◌, some, List, arith, Bool-cases, Text,
  codes,
}
use efimon.Outcome.{returns, >>=-returns}
use efimon.Args.{parser, exists, get_begin, get_option}
use efimon.Launcher.Monitor.{AppData}
use efimon.Options.{
  of_found, exists_either, number_or, read_target, read_filename, launcher_options,
}
use efimon.Daemon.Server.{def_frequency}
use efimon.Options.{def_delay, def_port}

get_begin-exists :
    (option : Text) (args : List Text) (r : List Text)
    → of_found (get_begin option args) ≡ returns r
    → exists option args ≡ true
unfolding of_found get_begin
get_begin-exists option args r e = ground arith

read_filename-dash :
    (args : List Text) (file : Text)
    → exists (codes "-o") args ≡ true
    → read_filename args ≡ returns file
    → exists (codes "-") args ≡ true
unfolding read_filename of_found get_option get_begin exists_either
read_filename-dash args file o e = ground arith

read_target-dash :
    (args : List Text) (t : List Text × ℕ)
    → read_target true args ≡ returns t
    → exists (codes "-c") args ≡ true
unfolding read_target
read_target-dash args t e =
    let (r, h, _) = >>=-returns (of_found (get_begin (codes "-c") args)) _ t e in
    get_begin-exists (codes "-c") args r h

command_exists :
    (args : List Text)
    → exists (codes "--command") args ≡ true
    → exists_either "-c" "--command" args ≡ true
unfolding exists_either
command_exists args c = ground arith

-- A command line that the launcher reads to its end and that has `-o` has an argument `-` too, since
-- the code asks for the value of that; and one with `--command` has `-c` too.
pub launcher_options-dashes :
    (argv : List Text) (app : AppData) (check_command : Bool)
    → launcher_options argv ≡ returns (some (app, check_command))
    → (exists (codes "-o") (parser argv) ≡ true → exists (codes "-") (parser argv) ≡ true)
      × (exists (codes "--command") (parser argv) ≡ true → exists (codes "-c") (parser argv) ≡ true)
unfolding launcher_options
launcher_options-dashes argv app check e =
    let args = parser argv in
    let command = exists_either "-c" "--command" args in
    elim (Bool-cases
      (exists_either "-h" "--help" args || not (command || exists_either "-pid" "--pid" args))) [
        | inl g ↦ absurd (let e' = rw g at e in ground arith)
        | inr g ↦
            let e' = rw g at e in
            let (t, h, e1) = >>=-returns (read_target command args) _ _ e' in
            let (n1, _, e2) = >>=-returns (number_or (2 ^ 32 - 1) "-s" "--samples" args) _ _ e1 in
            let (n2, _, e3) =
              >>=-returns (number_or def_frequency "-f" "--frequency" args) _ _ e2 in
            let (n3, _, e4) = >>=-returns (number_or def_delay "-d" "--delay" args) _ _ e3 in
            let (n4, _, e5) = >>=-returns (number_or def_port "-p" "--port" args) _ _ e4 in
            let (file, k, _) = >>=-returns (read_filename args) _ _ e5 in
            (
              λ o. read_filename-dash args file o k,
              λ c.
                  read_target-dash args t
                    (subst (λ b. read_target b args ≡ returns t) (command_exists args c) h),
            )
      ]
