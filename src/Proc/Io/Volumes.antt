-- ===== src/Proc/Io/Volumes.antt =====
-- Which bytes and which time the bandwidths of the I/O observer are about.
use efimon.Prelude.{ℕ, ◌+◌, ◌-◌, ◌≤◌, ◌<◌, ◌≡◌, refl, ap, ◌∙◌, true, some, arith}
use efimon.Float.{Float}
use efimon.Words.{u64, sub64, sub64-of_le}
use efimon.Proc.Machine.{Machine, uptime_ms}
use efimon.Proc.Io.{
  IoData, IoObserver, reset, get_uptime, check_alive, get_proc_io, bandwidth, translate_readings,
  trigger,
}

module _ {F : Type 0} (d : Float F) where
  open d use {of_ℕ, mul, div, single}

  -- What a trigger measures of a process that is alive.
  abbrev pub measured : Machine → F → IoData → IoObserver F → IoObserver F
  measured m up q o = (trigger d m true (some up) (some q) o).0

  measured-readings :
      (m : Machine) (up : F) (q : IoData) (o : IoObserver F)
      → let o' = measured m up q o in
        let ms = sub64 (uptime_ms d m up) o.readings.timestamp in
        (o'.readings.timestamp ≡ uptime_ms d m up)
        × (o'.readings.difference ≡ ms)
        × (o'.readings.read_volume ≡ q.rchar)
        × (o'.readings.write_volume ≡ q.wchar)
        × (o'.readings.read_bw ≡ bandwidth d (sub64 q.rchar o.readings.read_volume) ms)
        × (o'.readings.write_bw ≡ bandwidth d (sub64 q.wchar o.readings.write_volume) ms)
  unfolding trigger translate_readings get_proc_io check_alive get_uptime
  measured-readings m up q o = (refl, refl, refl, refl, refl, refl)

  bandwidth-of : {b b' ms ms' : ℕ} → b ≡ b' → ms ≡ ms' → bandwidth d b ms ≡ bandwidth d b' ms'
  bandwidth-of e f = cc

  -- Bytes per second: a thousand times the bytes, over the milliseconds.
  abbrev pub per_second : ℕ → ℕ → F
  per_second bytes ms =
      single (div (single (mul (single (of_ℕ 1000)) (single (of_ℕ bytes)))) (single (of_ℕ ms)))

  per_second-bandwidth : (bytes ms : ℕ) → bandwidth d bytes ms ≡ per_second bytes ms
  unfolding bandwidth
  per_second-bandwidth bytes ms = refl

  -- Of two triggers in a row of a process that is alive, with counters and an uptime that do not go
  -- down, the second gives the counters as volumes, and as bandwidths a thousand times the bytes read
  -- and written between the two over the milliseconds between them: bytes and bytes per second.
  pub measured-twice :
      (m : Machine) (up up' : F) (q q' : IoData) (o : IoObserver F)
      → q.rchar ≤ q'.rchar
      → q'.rchar < u64
      → q.wchar ≤ q'.wchar
      → q'.wchar < u64
      → uptime_ms d m up ≤ uptime_ms d m up'
      → uptime_ms d m up' < u64
      → let ms = uptime_ms d m up' - uptime_ms d m up in
        let o' = measured m up' q' (measured m up q o) in
        (o'.readings.difference ≡ ms)
        × (o'.readings.read_volume ≡ q'.rchar)
        × (o'.readings.write_volume ≡ q'.wchar)
        × (o'.readings.read_bw ≡ per_second (q'.rchar - q.rchar) ms)
        × (o'.readings.write_bw ≡ per_second (q'.wchar - q.wchar) ms)
  measured-twice m up up' q q' o rl ru wl wu tl tu =
      let o1 = measured m up q o in
      let (t1, d1, r1, w1, rb1, wb1) = measured-readings m up q o in
      let (t2, d2, r2, w2, rb2, wb2) = measured-readings m up' q' o1 in
      let u = uptime_ms d m up in
      let u' = uptime_ms d m up' in
      let ms : sub64 u' o1.readings.timestamp ≡ u' - u =
        ap (sub64 u') t1 ∙ sub64-of_le u' u tl tu in
      let bytes : sub64 q'.rchar o1.readings.read_volume ≡ q'.rchar - q.rchar =
        ap (sub64 q'.rchar) r1 ∙ sub64-of_le q'.rchar q.rchar rl ru in
      let bytes' : sub64 q'.wchar o1.readings.write_volume ≡ q'.wchar - q.wchar =
        ap (sub64 q'.wchar) w1 ∙ sub64-of_le q'.wchar q.wchar wl wu in
      (
        d2 ∙ ms,
        r2,
        w2,
        rb2 ∙ (bandwidth-of bytes ms ∙ per_second-bandwidth (q'.rchar - q.rchar) (u' - u)),
        wb2 ∙ (bandwidth-of bytes' ms ∙ per_second-bandwidth (q'.wchar - q.wchar) (u' - u)),
      )

  reset-readings :
      (o : IoObserver F)
      → let q = (reset d o).0.readings in
        (q.timestamp ≡ 0) × (q.read_volume ≡ u64 - 1) × (q.write_volume ≡ u64 - 1)
  unfolding reset
  reset-readings o = (refl, refl, refl)

  -- The first trigger after a reset gives one byte more than the counters, read and written.
  pub reset-measured :
      (m : Machine) (up : F) (q : IoData) (o : IoObserver F)
      → q.rchar < u64 - 1
      → q.wchar < u64 - 1
      → uptime_ms d m up < u64
      → let o' = measured m up q (reset d o).0 in
        (o'.readings.read_bw ≡ bandwidth d (q.rchar + 1) (uptime_ms d m up))
        × (o'.readings.write_bw ≡ bandwidth d (q.wchar + 1) (uptime_ms d m up))
  reset-measured m up q o r w t =
      let o0 = (reset d o).0 in
      let (t1, d1, r1, w1, rb1, wb1) = measured-readings m up q o0 in
      let (start, reads, writes) = reset-readings o in
      let u = uptime_ms d m up in
      let ms : sub64 u o0.readings.timestamp ≡ u = ap (sub64 u) start ∙ omega arith in
      let bytes : sub64 q.rchar o0.readings.read_volume ≡ q.rchar + 1 =
        ap (sub64 q.rchar) reads ∙ omega arith in
      let bytes' : sub64 q.wchar o0.readings.write_volume ≡ q.wchar + 1 =
        ap (sub64 q.wchar) writes ∙ omega arith in
      (rb1 ∙ bandwidth-of bytes ms, wb1 ∙ bandwidth-of bytes' ms)
