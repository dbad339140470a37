-- ===== src/Daemon/Rows/Known.antt =====
-- Every value of a row has a column.
use efimon.Prelude.{
  ℕ, ◌≡◌, refl, subst, Bool, true, false, ◌&&◌, none, some, List, [], ◌++◌, arith, if◌then◌else◌,
  length, Text, codes,
}
use mathlib.Core.List.{append_assoc}
use efimon.Float.{Float}
use efimon.Outcome.{returns, >>=-returns}
use efimon.Logger.{FieldType, Value}
use efimon.Daemon.Columns.{
  Features, CpuUsage, Slots, types, indexed_fields, type_fields, base_fields, create_log_table,
  ipmi_fields, rapl_fields, frequencies, max_powers, psu_powers, speeds, socket_powers,
}
use efimon.Daemon.Rows.{
  put_value, put_indexed, put_types, base_values, put_usage, put_ipmi, put_rapl, row_values,
}
use efimon.Daemon.Rows.Names.{has_column, has-append_left, has-append_right}
use efimon.Daemon.Rows.Filled.{AreKnown, types-AreKnown, Includes, put-indexed_range}

module _ {F : Type 0} (d : Float F) (arrange : List (ℕ × F) → List (ℕ × F)) where
  -- What the meters measured has the same sizes.
  pub record IsSameShape (s s' : Slots F) : Type 0 where
    pub frequencies_len : length (frequencies s') ≡ length (frequencies s)
    pub max_powers_len : length (max_powers s') ≡ length (max_powers s)
    pub speeds_len : length (speeds s') ≡ length (speeds s)
    pub socket_powers_len : length (socket_powers s') ≡ length (socket_powers s)

  base-AreKnown :
      (table : List (Text × FieldType)) (usage : CpuUsage F) (sys : F)
      → Includes d arrange base_fields table
      → AreKnown table (base_values d arrange usage sys)
  unfolding base_values put_value
  base-AreKnown table usage sys part = (
    part (codes "Timestamp") refl,
    (
      part (codes "SystemCpuUsage") refl,
      (part (codes "ProcessCpuUsage") refl, (part (codes "TimeDifference") refl, tt)),
    ),
  )

  usage-AreKnown :
      (table : List (Text × FieldType)) (usage : CpuUsage F) (s s' : Slots F)
      (vals : List (Text × Value F))
      → IsSameShape s s'
      → Includes d arrange
          (base_fields ++ indexed_fields (codes "SocketFreq") (length (frequencies s)) 0)
          table
      → put_usage d arrange usage s' ≡ returns vals
      → AreKnown table vals
  unfolding put_usage
  usage-AreKnown table usage s s' vals z part e =
      let fields = indexed_fields (codes "SocketFreq") (length (frequencies s)) 0 in
      let sys : F = elim (s'.cpu_slot) [ none ↦ d.of_ℕ 0 | some q ↦ q.overall_usage ] in
      put-indexed_range d arrange table (codes "SocketFreq") (length (frequencies s))
        (frequencies s') (length (frequencies s')) (base_values d arrange usage sys) vals
        (λ name h. part name (has-append_right name base_fields fields h)) z.frequencies_len
        (base-AreKnown table usage sys
          (λ name h. part name (has-append_left name base_fields fields h)))
        e

  ipmi-AreKnown :
      (table : List (Text × FieldType)) (enabled : Bool) (s s' : Slots F)
      (vals vals' : List (Text × Value F))
      → IsSameShape s s'
      → Includes d arrange (ipmi_fields enabled s) table
      → AreKnown table vals
      → put_ipmi d arrange enabled s' vals ≡ returns vals'
      → AreKnown table vals'
  unfolding put_ipmi ipmi_fields
  ipmi-AreKnown table false s s' vals vals' z part k e = ground arith
  ipmi-AreKnown table true s s' vals vals' z part k e =
      let units = indexed_fields (codes "PSUPower") (length (max_powers s)) 0 in
      let fans = indexed_fields (codes "FanSpeed") (length (speeds s)) 0 in
      let (v, one, rest) =
        >>=-returns (put_indexed (codes "PSUPower") (psu_powers s') (length (max_powers s')) 0 vals)
          _ vals' e in
      put-indexed_range d arrange table (codes "FanSpeed") (length (speeds s)) (speeds s')
        (length (speeds s')) v vals' (λ name h. part name (has-append_right name units fans h))
        z.speeds_len
        (put-indexed_range d arrange table (codes "PSUPower") (length (max_powers s))
          (psu_powers s') (length (max_powers s')) vals v
          (λ name h. part name (has-append_left name units fans h)) z.max_powers_len k one)
        rest

  rapl-AreKnown :
      (table : List (Text × FieldType)) (enabled : Bool) (s s' : Slots F)
      (vals vals' : List (Text × Value F))
      → IsSameShape s s'
      → Includes d arrange (rapl_fields enabled s) table
      → AreKnown table vals
      → put_rapl d arrange enabled s' vals ≡ returns vals'
      → AreKnown table vals'
  unfolding put_rapl rapl_fields
  rapl-AreKnown table false s s' vals vals' z part k e = ground arith
  rapl-AreKnown table true s s' vals vals' z part k e =
      put-indexed_range d arrange table (codes "SocketPower") (length (socket_powers s))
        (socket_powers s') (length (socket_powers s')) vals vals' part z.socket_powers_len k e

  perf-AreKnown :
      (table : List (Text × FieldType)) (enabled : Bool)
      (classification : List (ℕ × List (ℕ × List (ℕ × F)))) (vals : List (Text × Value F))
      → Includes d arrange (if enabled then type_fields types else []) table
      → AreKnown table vals
      → AreKnown table (if enabled then put_types d arrange classification types vals else vals)
  perf-AreKnown table true classification vals part k =
      types-AreKnown d arrange table classification types vals part k
  perf-AreKnown table false classification vals part k = k

  -- Every value of a row has a column in the table that the worker made, if the meters have the same
  -- numbers of sockets, units and fans as when it was made.
  pub row_values-AreKnown :
      (on : Features) (metered : Bool) (usage : CpuUsage F) (s s' : Slots F)
      (classification : List (ℕ × List (ℕ × List (ℕ × F)))) (vals : List (Text × Value F))
      → IsSameShape s s'
      → row_values d arrange on metered usage s' classification ≡ returns vals
      → AreKnown (create_log_table on metered s []).0 vals
  unfolding row_values create_log_table
  row_values-AreKnown on metered usage s s' classification vals z e =
      let a = indexed_fields (codes "SocketFreq") (length (frequencies s)) 0 in
      let b = ipmi_fields on.ipmi s in
      let c = rapl_fields on.rapl s in
      let p : List (Text × FieldType) = if on.perf && metered then type_fields types else [] in
      let table = base_fields ++ (a ++ (b ++ (c ++ p))) in
      let behind : Includes d arrange (b ++ (c ++ p)) table = λ name h.
        has-append_right name base_fields (a ++ (b ++ (c ++ p)))
          (has-append_right name a (b ++ (c ++ p)) h) in
      let last : Includes d arrange (c ++ p) table =
        λ name h. behind name (has-append_right name b (c ++ p) h) in
      let first : Includes d arrange (base_fields ++ a) table = λ name h.
        subst (λ y. has_column name y ≡ true) (append_assoc base_fields a (b ++ (c ++ p)))
          (has-append_left name (base_fields ++ a) (b ++ (c ++ p)) h) in
      let (v1, e1, r1) = >>=-returns (put_usage d arrange usage s') _ vals e in
      let (v2, e2, r2) = >>=-returns (put_ipmi d arrange on.ipmi s' v1) _ vals r1 in
      let (v3, e3, r3) = >>=-returns (put_rapl d arrange on.rapl s' v2) _ vals r2 in
      let k1 = usage-AreKnown table usage s s' v1 z first e1 in
      let k2 =
        ipmi-AreKnown table on.ipmi s s' v1 v2 z
          (λ name h. behind name (has-append_left name b (c ++ p) h)) k1 e2 in
      let k3 =
        rapl-AreKnown table on.rapl s s' v2 v3 z (λ name h. last name (has-append_left name c p h))
          k2 e3 in
      let k4 =
        perf-AreKnown table (on.perf && metered) classification v3
          (λ name h. last name (has-append_right name c p h)) k3 in
      let same : (if on.perf && metered then put_types d arrange classification types v3 else v3)
          ≡ vals =
        ground arith in
      subst (AreKnown table) same k4
