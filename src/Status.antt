-- ===== src/Status.antt =====
-- `class Status` (include/efimon/status.hpp): the code and the message that every operation returns.
use efimon.Prelude.{ℕ, Bool, true, false, [], String, Text, codes}

pub data Code : Type 0 where
  ok file_error invalid_parameter incompatible_parameter configuration_error : Code
  register_io_error not_implemented member_absent resource_busy not_found : Code
  logger_cannot_open logger_cannot_insert not_ready cannot_open access_denied : Code
  running stopped : Code

-- The number of the enumerator, as it goes to a client.
unfoldable pub code_number : Code → ℕ
code_number ok = 0
code_number file_error = 1
code_number invalid_parameter = 2
code_number incompatible_parameter = 3
code_number configuration_error = 4
code_number register_io_error = 5
code_number not_implemented = 6
code_number member_absent = 7
code_number resource_busy = 8
code_number not_found = 9
code_number logger_cannot_open = 10
code_number logger_cannot_insert = 11
code_number not_ready = 12
code_number cannot_open = 13
code_number access_denied = 14
code_number running = 15
code_number stopped = 16

pub record Status : Type 0 where
  pub code : Code
  pub msg : Text

-- `Status{}`.
abbrev pub status_ok : Status
status_ok = record { code = ok; msg = [] }

abbrev pub fail : Code → String → Status
fail c m = record { code = c; msg = codes m }

-- `Status::OK == code`.
abbrev pub is_ok : Code → Bool
is_ok ok = true
is_ok _ = false
