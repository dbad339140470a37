-- ===== src/Proc/Net/Rates.antt =====
-- The volumes and the bandwidths of a device over two triggers, in KiB and in KiB per second.
use efimon.Prelude.{
  ℕ, ◌-◌, ◌≤◌, ◌<◌, ◌≡◌, refl, sym, ap, ◌∙◌, Option, some, List, get_elem?, drop, Text,
}
use efimon.Float.{Float}
use efimon.Outcome.{returns}
use efimon.Status.{status_ok}
use efimon.Words.{u64, sub64, sub64-of_le}
use efimon.Proc.Machine.{Machine, uptime_ms}
use efimon.Proc.Net.{
  NetReadings, NetObserver, Row, find_device, volume, bandwidth, measure, trigger,
}
use efimon.Proc.Net.Devices.{Parses, AreDistinct, trigger-device}

module _ {F : Type 0} (d : Float F) where
  open d use {of_ℕ, sub, mul, div, single}

  -- Bytes over 1024.
  abbrev pub kib : ℕ → F
  kib bytes = single (div (single (of_ℕ bytes)) (of_ℕ 1024))

  -- The KiB between two counts of bytes, over the milliseconds, a thousand times.
  abbrev pub rate : ℕ → ℕ → ℕ → F
  rate before now ms =
      single
        (mul (single (div (single (sub (kib now) (kib before))) (single (of_ℕ ms)))) (of_ℕ 1000))

  -- The reading of a device that told `r` and then, some milliseconds later, `r'`.
  abbrev pub IsRated : Row → Row → ℕ → NetReadings F → Type 0
  IsRated r r' ms q =
      (q.difference ≡ ms)
      × (q.dev_name ≡ r'.name)
      × (q.tx_volume ≡ kib r'.tx)
      × (q.rx_volume ≡ kib r'.rx)
      × (q.tx_packets ≡ r'.tx_packets)
      × (q.rx_packets ≡ r'.rx_packets)
      × (q.tx_bw ≡ rate r.tx r'.tx ms)
      × (q.rx_bw ≡ rate r.rx r'.rx ms)

  measure-volumes :
      (u ms : ℕ) (old : Option (NetReadings F)) (r : Row)
      → let q = measure d u ms old r in (q.tx_volume ≡ kib r.tx) × (q.rx_volume ≡ kib r.rx)
  unfolding measure volume
  measure-volumes u ms old r = (refl, refl)

  measure-IsRated :
      (u ms : ℕ) (q : NetReadings F) (r r' : Row)
      → q.tx_volume ≡ kib r.tx
      → q.rx_volume ≡ kib r.rx
      → IsRated r r' ms (measure d u ms (some q) r')
  unfolding measure volume bandwidth
  measure-IsRated u ms q r r' t x = (refl, refl, refl, refl, refl, refl, rw t refl, rw x refl)

  -- Of two triggers in a row on files that name each device once, with an uptime that does not go
  -- down, both return OK, and a device that stands in both files gets from the second its volumes in
  -- KiB, its packets, and as bandwidths the KiB between the two files over the milliseconds between
  -- the two triggers, a thousand times.
  pub trigger-rates :
      (arrange : List (Text × NetReadings F) → List (Text × NetReadings F)) (mc : Machine)
      (up up' : F) (lines lines' : List Text) (rows rows' : List Row) (i i' : ℕ) (r r' : Row)
      (o : NetObserver F)
      → Parses (drop 2 lines) rows
      → Parses (drop 2 lines') rows'
      → AreDistinct rows
      → AreDistinct rows'
      → get_elem? rows i ≡ some r
      → get_elem? rows' i' ≡ some r'
      → r.name ≡ r'.name
      → uptime_ms d mc up ≤ uptime_ms d mc up'
      → uptime_ms d mc up' < u64
      → (o1 : NetObserver F) × (o2 : NetObserver F) × (q : NetReadings F) × (trigger d arrange mc
            (some up)
            lines
            o
          ≡ returns (o1, status_ok))
        × (trigger d arrange mc (some up') lines' o1 ≡ returns (o2, status_ok))
        × (find_device r'.name o2.devices ≡ some q)
        × IsRated r r' (uptime_ms d mc up' - uptime_ms d mc up) q
  trigger-rates arrange mc up up' lines lines' rows rows' i i' r r' o p p' h h' e e' same le lt =
      let (o1, t1, v1, f1) = trigger-device d arrange mc up lines rows i r o p h e in
      let (o2, t2, v2, f2) = trigger-device d arrange mc up' lines' rows' i' r' o1 p' h' e' in
      let u = uptime_ms d mc up in
      let u' = uptime_ms d mc up' in
      let first = measure d u (sub64 u o.prev_uptime) (find_device r.name o.devices) r in
      let (tx, rx) = measure-volumes u (sub64 u o.prev_uptime) (find_device r.name o.devices) r in
      let ms : sub64 u' o1.prev_uptime ≡ u' - u = ap (sub64 u') v1 ∙ sub64-of_le u' u le lt in
      let found : find_device r'.name o1.devices ≡ some first =
        ap (λ k. find_device k o1.devices) (sym same) ∙ f1 in
      (
        o1,
        o2,
        measure d u' (u' - u) (some first) r',
        t1,
        t2,
        f2
            ∙ (ap (λ x. some (measure d u' (sub64 u' o1.prev_uptime) x r')) found
                ∙ ap (λ x. some (measure d u' x (some first) r')) ms),
        measure-IsRated u' (u' - u) first r r' tx rx,
      )
