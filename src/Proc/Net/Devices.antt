-- ===== src/Proc/Net/Devices.antt =====
-- Which reading each device gets from a file.
use efimon.Prelude.{
  ℕ, zero, suc, ◌≡◌, refl, sym, ap, subst, ◌∙◌, ◌≢◌, inl, inr, false, some, List, [], ◌∷◌, arith,
  Bool-cases, get_elem?, drop, All, Text, text_eq, text_eq_refl, eq_of_text_eq,
}
use efimon.Float.{Float}
use efimon.Outcome.{returns}
use efimon.Status.{status_ok}
use efimon.Words.{sub64}
use efimon.Proc.Machine.{Machine, uptime_ms}
use efimon.Proc.Net.{
  publish, get_uptime, get_proc_net_dev, trigger, NetReadings, NetObserver, Row, parse_row,
  find_device, set_device, measure, record_row, read_lines,
}

pub find-set_self :
    {V : Type 0}
    → (k : Text) (v : V) (m : List (Text × V)) → find_device k (set_device k v m) ≡ some v
unfolding find_device set_device
find-set_self k v [] = rw (text_eq_refl k) refl
find-set_self k v (e ∷ m) =
    let ih = find-set_self k v m in
    elim (Bool-cases (text_eq k (e.0))) [ inl h ↦ ground arith | inr h ↦ ground arith ]

text_eq-false : (j k : Text) → j ≢ k → text_eq j k ≡ false
text_eq-false j k ne = elim (Bool-cases (text_eq j k)) [
  | inl h ↦ absurd (ne (eq_of_text_eq j k h))
  | inr h ↦ h
]

pub find-set_ne :
    {V : Type 0}
    → (j k : Text) (v : V) (m : List (Text × V)) → j ≢ k
    → find_device j (set_device k v m) ≡ find_device j m
unfolding find_device set_device
find-set_ne j k v [] ne = let n = text_eq-false j k ne in ground arith
find-set_ne j k v (e ∷ m) ne =
    let ih = find-set_ne j k v m ne in
    let n = text_eq-false j k ne in
    elim (Bool-cases (text_eq k (e.0))) [
      | inl h ↦
          let other : text_eq j (e.0) ≡ false =
            ap (text_eq j) (sym (eq_of_text_eq k (e.0) h)) ∙ n in
          ground arith
      | inr h ↦ ground arith
    ]

All-get {ℓ} :
    {A : Type 0} (P : A → Type ℓ) (xs : List A) (i : ℕ) (x : A)
    → All P xs
    → get_elem? xs i ≡ some x
    → P x
All-get P [] i x h e = cc
All-get P (y ∷ ys) zero x h e = let same : y ≡ x = cc in subst P same (h.0)
All-get P (y ∷ ys) (suc i) x h e = All-get P ys i x (h.1) e

-- The texts of a list of lines that all parse.
abbrev pub Parses : List Text → List Row → Type 0
Parses [] [] = Unit
Parses [] (r ∷ rows) = ⊥
Parses (l ∷ lines) [] = ⊥
Parses (l ∷ lines) (r ∷ rows) = (parse_row l ≡ returns r) × Parses lines rows

-- No device has two rows.
abbrev pub AreDistinct : List Row → Type 0
AreDistinct [] = Unit
AreDistinct (r ∷ rows) = All (λ q. q.name ≢ r.name) rows × AreDistinct rows

module _ {F : Type 0} (d : Float F) where
  -- The rows, one after the other.
  abbrev pub record_rows :
      ℕ → ℕ → List Row → List (Text × NetReadings F) → List (Text × NetReadings F)
  record_rows uptime ms [] m = m
  record_rows uptime ms (r ∷ rows) m = record_rows uptime ms rows (record_row d uptime ms r m)

  read_lines-rows :
      (uptime ms : ℕ) (lines : List Text) (rows : List Row) (m : List (Text × NetReadings F))
      → Parses lines rows
      → read_lines d uptime ms lines m ≡ returns (record_rows uptime ms rows m)
  unfolding read_lines
  read_lines-rows uptime ms [] [] m p = refl
  read_lines-rows uptime ms [] (r ∷ rows) m p = absurd p
  read_lines-rows uptime ms (l ∷ lines) [] m p = absurd p
  read_lines-rows uptime ms (l ∷ lines) (r ∷ rows) m p =
      rw (p.0) (read_lines-rows uptime ms lines rows (record_row d uptime ms r m) (p.1))

  -- A device that no row names keeps its reading.
  rows-other :
      (uptime ms : ℕ) (rows : List Row) (k : Text) (m : List (Text × NetReadings F))
      → All (λ q. q.name ≢ k) rows
      → find_device k (record_rows uptime ms rows m) ≡ find_device k m
  unfolding record_row
  rows-other uptime ms [] k m h = refl
  rows-other uptime ms (r ∷ rows) k m h =
      rows-other uptime ms rows k (record_row d uptime ms r m) (h.1)
      ∙ find-set_ne k r.name (measure d uptime ms (find_device r.name m) r) m (λ e. h.0 (sym e))

  rows-device :
      (uptime ms : ℕ) (rows : List Row) (i : ℕ) (r : Row) (m : List (Text × NetReadings F))
      → AreDistinct rows
      → get_elem? rows i ≡ some r
      → find_device r.name (record_rows uptime ms rows m)
        ≡ some (measure d uptime ms (find_device r.name m) r)
  unfolding record_row
  rows-device uptime ms [] i r m h e = cc
  rows-device uptime ms (q ∷ rows) zero r m h e =
      let same : q ≡ r = cc in
      subst
        (λ x.
          find_device x.name (record_rows uptime ms (q ∷ rows) m)
          ≡ some (measure d uptime ms (find_device x.name m) x))
        same
        (rows-other uptime ms rows q.name (record_row d uptime ms q m) (h.0)
          ∙ find-set_self q.name (measure d uptime ms (find_device q.name m) q) m)
  rows-device uptime ms (q ∷ rows) (suc i) r m h e =
      let ne : r.name ≢ q.name = All-get (λ x. x.name ≢ q.name) rows i r (h.0) e in
      let kept = find-set_ne r.name q.name (measure d uptime ms (find_device q.name m) q) m ne in
      rows-device uptime ms rows i r (record_row d uptime ms q m) (h.1) e
      ∙ ap (λ x. some (measure d uptime ms x r)) kept

  -- A trigger on a file whose lines name each device once returns OK, and gives each of them the
  -- reading that its row and its own reading of the trigger before make, over the time since then.
  pub trigger-device :
      (arrange : List (Text × NetReadings F) → List (Text × NetReadings F)) (mc : Machine) (up : F)
      (lines : List Text) (rows : List Row) (i : ℕ) (r : Row) (o : NetObserver F)
      → Parses (drop 2 lines) rows
      → AreDistinct rows
      → get_elem? rows i ≡ some r
      → (o' : NetObserver F) × (trigger d arrange mc (some up) lines o ≡ returns (o', status_ok))
        × (o'.prev_uptime ≡ uptime_ms d mc up)
        × (find_device r.name o'.devices
            ≡ some (
                measure d
                  (uptime_ms d mc up)
                  (sub64 (uptime_ms d mc up) o.prev_uptime)
                  (find_device r.name o.devices)
                  r))
  unfolding trigger get_proc_net_dev get_uptime publish
  trigger-device arrange mc up lines rows i r o p h e =
      let u = uptime_ms d mc up in
      let ms = sub64 u o.prev_uptime in
      let m = record_rows u ms rows o.devices in
      let read = read_lines-rows u ms (drop 2 lines) rows o.devices p in
      (
        publish d arrange (record o { uptime = u; prev_uptime = u; devices = m }),
        rw (read, trigger) refl,
        refl,
        rows-device u ms rows i r o.devices h e,
      )
