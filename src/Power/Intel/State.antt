-- ===== src/Power/Intel/State.antt =====
-- The state of `IntelMeterObserver` (src/efimon/power/intel.cpp), the counters, and what the meters share.
use efimon.Prelude.{ℕ, Bool, List}
use efimon.Status.{Status}

-- `pcm::PCM::ErrorCode`.
pub data Programmed : Type 0 where
  success msr_access_denied pmu_busy unknown_error : Programmed

-- What the file calls of PCM: the machine, and what two samples tell of a core and of a socket.
pub record Pcm (F S : Type 0) : Type 0 where
  pub num_sockets : ℕ
  pub num_cores : ℕ
  pub socket_id : ℕ → ℕ
  pub energy_available : Bool
  pub ipc : S → S → ℕ → F
  pub joules : S → S → ℕ → F

-- The variables of the file; `created` is that `pcm_instance_` is not null.
pub record Shared (S : Type 0) : Type 0 where
  pub locked : Bool
  pub created : Bool
  pub pcm_valid : ℕ
  pub state_1 : S
  pub state_2 : S

-- The part of `CPUReadings` that the meter writes.
pub record IntelReadings (F : Type 0) : Type 0 where
  pub type : ℕ
  pub timestamp : ℕ
  pub difference : ℕ
  pub overall_usage : F
  pub overall_power : F
  pub overall_energy : F
  pub core_usage : List F
  pub socket_usage : List F
  pub socket_power : List F
  pub socket_energy : List F
  pub core_energy : List F

pub record Intel (F : Type 0) : Type 0 where
  pub valid : Bool
  pub pid : ℕ
  pub interval_ms : ℕ
  pub caps_type : ℕ
  pub readings : IntelReadings F

-- How a call ends: it returns; it throws; an element past the end is accessed by `at`; or it locks a
-- mutex that is held and that nobody releases.
pub data Ended (A S : Type 0) : Type 0 where
  ended : A → Shared S → Ended A S
  raised : Status → Shared S → Ended A S
  out_of_range waits : Ended A S
