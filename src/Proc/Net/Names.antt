-- ===== src/Proc/Net/Names.antt =====
-- The list of the devices' names against the list of their readings.
use efimon.Prelude.{
  suc, ◌+◌, ◌≡◌, refl, ap, subst, ◌∙◌, Option, none, some, List, [], ◌∷◌, map, arith, length, drop,
  length-append, Text,
}
use efimon.Words.{sub64}
use efimon.Status.{Status}
use efimon.Float.{Float}
use efimon.Outcome.{returns, >>=-returns}
use efimon.Proc.Machine.{Machine}
use efimon.Proc.Net.{
  NetReadings, NetObserver, publish, get_uptime, get_proc_net_dev, read_lines, trigger,
}

length-map : {A B : Type 0} → (f : A → B) (xs : List A) → length (map f xs) ≡ length xs
length-map f [] = refl
length-map f (x ∷ xs) = ap suc (length-map f xs)

module _ {F : Type 0} (d : Float F)
    (arrange : List (Text × NetReadings F) → List (Text × NetReadings F))
    (same_size : (m : List (Text × NetReadings F)) → length (arrange m) ≡ length m) where
  publish-lengths :
      (o : NetObserver F)
      → let o' = publish d arrange o in
        (length o'.readings ≡ length o'.devices)
        × (length o'.device_names ≡ length o.device_names + length o'.readings)
  unfolding publish
  publish-lengths o =
      let entries = arrange o.devices in
      let n = same_size o.devices in
      let a = length-map {A = Text × NetReadings F} (λ e. e.1) entries in
      let b = length-map {A = Text × NetReadings F} (λ e. e.0) entries in
      let c = length-append o.device_names (map (λ e. e.0) entries) in (omega arith, omega arith)

  get_uptime-keeps :
      (mc : Machine) (up : Option F) (o : NetObserver F)
      → (get_uptime d mc up o).device_names ≡ o.device_names
  unfolding get_uptime
  get_uptime-keeps mc none o = refl
  get_uptime-keeps mc (some u) o = refl

  -- Each trigger that returns leaves one reading for each device that it knows, and puts the names of
  -- all of them behind the names that it finds.
  pub trigger-names :
      (mc : Machine) (up : Option F) (lines : List Text) (o o' : NetObserver F) (st : Status)
      → trigger d arrange mc up lines o ≡ returns (o', st)
      → (length o'.readings ≡ length o'.devices)
        × (length o'.device_names ≡ length o.device_names + length o'.readings)
  unfolding trigger get_proc_net_dev
  trigger-names mc up lines o o' st e =
      let o1 = get_uptime d mc up o in
      let (o2, h, e2) = >>=-returns (get_proc_net_dev d arrange lines o1) _ _ e in
      let before = get_uptime-keeps mc up o in
      let (m, h3, e3) =
        >>=-returns
          (read_lines d o1.uptime (sub64 o1.uptime o1.prev_uptime) (drop 2 lines) o1.devices) _ _
          h in
      let o3 : NetObserver F = record o1 { prev_uptime = o1.uptime; devices = m } in
      let (a, b) = publish-lengths o3 in
      let same : publish d arrange o3 ≡ o' = ground arith in
      subst
        (λ y.
          (length y.readings ≡ length y.devices)
          × (length y.device_names ≡ length o.device_names + length y.readings))
        same (a, b ∙ ap (λ y. length y + length (publish d arrange o3).readings) before)
