-- ===== src/Perf/Annotate/Tests.antt =====
-- The theorems on the histogram of instructions at concrete inputs.
use efimon.Prelude.{ℕ, ◌≡◌, refl, true, false, none, some, List, [], ◌∷◌, Text, codes}
use efimon.Status.{status_ok}
use efimon.Float.{whole, whole-IsExact}
use efimon.Asm.X86.{classify}
use efimon.Perf.Record.{Recorder}
use efimon.Perf.Annotate.{Line, Annotator, trigger, is_small}
use efimon.Perf.Annotate.Shares.{histogram_total, classification_total, trigger-totals}

abbrev recorder : Recorder
recorder = record {
  valid = true;
  pid = 5;
  interval_ms = 3;
  frequency = 100;
  no_dispose = true;
  status = status_ok;
  caps_type = 0;
  perf_cmd = [];
  path_to_perf_data = codes "/tmp/efimon-5/perf.data.ulock";
  tmp_folder = codes "/tmp/efimon-5";
  readings = record { perf_data_path = []; type = 0; timestamp = 0; difference = 0 };
}

-- An observer that still has the share of an earlier recording.
abbrev annotator : Annotator ℕ
annotator = record {
  valid = false;
  interval_ms = 0;
  caps_type = 0;
  command_prefix = [];
  command_suffix = [];
  classifier = some classify;
  readings = record {
    histogram = (codes "ret_u", 40) ∷ [];
    classification = [];
    type = 0;
    timestamp = 0;
    difference = 0;
  };
}

abbrev line : ℕ → Text → Text → Line ℕ
line p a o = record { percent = some p; assembly = a; operands = o }

abbrev printed : List (Line ℕ)
printed =
    line 30 (codes "addsd") (codes "%xmm0,%xmm1")
    ∷ record { percent = none; assembly = []; operands = [] }
    ∷ line 12 (codes "mov") (codes "(%rax),%rbx")
    ∷ line 9 (codes "addsd") (codes "%xmm2,%xmm3")
    ∷ line 1 (codes "nop") []
    ∷ []

trigger-totals_example :
    let o' = (trigger whole 1 recorder (some printed) annotator).0 in
    (o'.valid ≡ true)
    × (histogram_total whole o'.readings ≡ 51)
    × (classification_total whole o'.readings ≡ 51)
unfolding is_small
trigger-totals_example =
    trigger-totals whole whole-IsExact 1 recorder printed annotator classify refl refl
