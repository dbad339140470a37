-- ===== src/Perf/Record/State.antt =====
-- The state of `PerfRecordObserver` (src/efimon/perf/record.cpp), what its observers share, and the folder of a recording.
use efimon.Prelude.{
  ℕ, Bool, not, List, [], ◌∷◌, ◌++◌, ◌==◌, if◌then◌else◌, any, keep, Text, codes, text_eq,
  to_string,
}
use efimon.Status.{Status}

pub record RecordReadings : Type 0 where
  pub perf_data_path : Text
  pub type : ℕ
  pub timestamp : ℕ
  pub difference : ℕ

pub record Recorder : Type 0 where
  pub valid : Bool
  pub pid : ℕ
  pub interval_ms : ℕ
  pub frequency : ℕ
  pub no_dispose : Bool
  pub status : Status
  pub caps_type : ℕ
  pub perf_cmd : Text
  pub path_to_perf_data : Text
  pub tmp_folder : Text
  pub readings : RecordReadings

-- `active_pids_`, `temp_directory_path()`, and the temporary folders that exist.
pub record World : Type 0 where
  pub tmp_dir : Text
  pub active : List ℕ
  pub folders : List Text

unfoldable pub is_active : ℕ → List ℕ → Bool
is_active p active = any (λ q. q == p) active

-- `active_pids_.erase(std::find(…))`, where the pid is there.
unfoldable pub forget : ℕ → List ℕ → List ℕ
forget p [] = []
forget p (q ∷ active) = if q == p then active else q ∷ forget p active

unfoldable pub folder_of : World → ℕ → Text
folder_of w pid = w.tmp_dir ++ codes "/efimon-" ++ to_string pid

-- `create_directory` does nothing if the folder is there.
unfoldable pub create_temporary_folder : Recorder → World → Recorder × World
unfolding folder_of
create_temporary_folder r w =
    let path = folder_of w r.pid in
    (
      record r { tmp_folder = path },
      (if any (text_eq path) w.folders then w else record w { folders = path ∷ w.folders }),
    )

unfoldable pub dispose_temporary_folder : Recorder → World → World
dispose_temporary_folder r w =
    if r.no_dispose
    then w
    else record w { folders = keep (λ f. not (text_eq r.tmp_folder f)) w.folders }
