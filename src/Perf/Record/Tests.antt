-- ===== src/Perf/Record/Tests.antt =====
-- The theorems on observers of perf record at concrete inputs.
use efimon.Prelude.{ℕ, ◌≡◌, refl, Bool, true, false, [], ◌∷◌, codes}
use efimon.Observer.{process}
use efimon.Outcome.{Outcome, returns}
use efimon.Perf.Record.{
  RecordReadings, Recorder, World, is_active, fresh_recorder, enlist, construct, construct_alive,
  check_alive,
}
use efimon.Perf.Record.Registry.{IsUnique, System, makes, Reach, here, next, Reach-IsUnique}

abbrev memory : RecordReadings
memory = record { perf_data_path = []; type = 7; timestamp = 10; difference = 9 }

abbrev all_alive : ℕ → Bool
all_alive p = true

abbrev empty_world : World
empty_world = record { tmp_dir = codes "/tmp"; active = []; folders = [] }

abbrev two_tracked : World
two_tracked = record empty_world { active = 5 ∷ 8 ∷ [] }

abbrev fifth : Recorder
fifth = fresh_recorder memory 5 3 100 false

made : Outcome (Recorder × World)
made = construct all_alive memory 5 process 3 100 false empty_world

abbrev fifth_alive : Recorder
fifth_alive = (check_alive all_alive fifth).0

abbrev after_fifth : Recorder × World
after_fifth = enlist fifth_alive empty_world

construct_run : construct all_alive memory 5 process 3 100 false empty_world ≡ returns after_fifth
unfolding construct construct_alive check_alive fresh_recorder is_active
construct_run = refl

abbrev start : System
start = record { world = empty_world; live = [] }

abbrev tracking : System
tracking = record { world = after_fifth.1; live = after_fifth.0 ∷ [] }

one_made : Reach start tracking
one_made = next all_alive here (makes memory 5 process 3 100 false after_fifth.0 construct_run refl)

Reach-IsUnique_example : IsUnique after_fifth.1.active
Reach-IsUnique_example = Reach-IsUnique one_made tt
