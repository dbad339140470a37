-- ===== src/Proc/Io/Tests.antt =====
-- The theorems on the I/O observer at concrete inputs.
use efimon.Prelude.{ℕ, ◌≡◌, arith}
use efimon.Status.{status_ok}
use efimon.Observer.{process}
use efimon.Float.{whole}
use efimon.Proc.Machine.{Machine, uptime_ms}
use efimon.Proc.Io.{IoData, IoObserver}
use efimon.Proc.Io.Volumes.{measured, measured-twice}

abbrev machine : Machine
machine = record { clk_tck = 100; processors = 2; page_size = 4096 }

abbrev observer : IoObserver ℕ
observer = record {
  pid = 5;
  interval_ms = 3;
  status = status_ok;
  caps_type = 132;
  scope = process;
  proc_data = record { rchar = 0; wchar = 0 };
  readings = record {
    type = 4;
    timestamp = 9;
    difference = 9;
    read_bw = 0;
    write_bw = 0;
    read_volume = 7;
    write_volume = 8;
    read_power = 0;
    write_power = 0;
  };
  uptime = 9;
}

abbrev first : IoData
first = record { rchar = 100; wchar = 20 }

abbrev second : IoData
second = record { rchar = 500; wchar = 80 }

measured-twice_example :
    let o' = measured whole machine 4 second (measured whole machine 2 first observer) in
    (o'.readings.difference ≡ 2000)
    × (o'.readings.read_volume ≡ 500)
    × (o'.readings.write_volume ≡ 80)
    × (o'.readings.read_bw ≡ 200)
    × (o'.readings.write_bw ≡ 30)
unfolding uptime_ms
measured-twice_example =
    measured-twice whole machine 2 4 first second observer (omega arith) (omega arith) (omega arith)
      (omega arith) (omega arith) (omega arith)
