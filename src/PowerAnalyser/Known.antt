-- ===== src/PowerAnalyser/Known.antt =====
-- Every value that the power analyser logs has a column.
use efimon.Prelude.{
  ℕ, zero, suc, ◌+◌, ◌<◌, ◌≡◌, refl, subst, inl, inr, Bool, true, false, List, [], ◌∷◌, ◌++◌, arith,
  Option-cases, get_elem?, Text, codes, to_string,
}
use efimon.Float.{Float}
use efimon.Outcome.{returns, >>=-returns}
use efimon.Logger.{FieldType, integer64, Value, single_float, uint64}
use efimon.Daemon.Columns.{Features, types, indexed_fields}
use efimon.Daemon.Rows.{put_value, put_indexed}
use efimon.Daemon.Rows.Names.{has_column, has-append_left, has-append_right, has-indexed}
use efimon.Daemon.Rows.Filled.{AreKnown, put-AreKnown, types-AreKnown, put-indexed_range, Includes}
use efimon.PowerAnalyser.{
  Sizes, Sample, log_table, rapl_columns, perf_columns, ipmi_columns, last_columns, put_frequencies,
  put_rapl, put_ipmi, put_perf, put_last, timestamp, difference, sample_values,
}

frequencies-AreKnown :
    {F : Type 0} (table : List (Text × FieldType)) (xs : List F) (left i : ℕ)
    (vals vals' : List (Text × Value F))
    → ((j : ℕ) → j < i + left → has_column (codes "SocketFreq" ++ to_string j) table ≡ true)
    → AreKnown table vals
    → put_frequencies xs left i vals ≡ returns vals'
    → AreKnown table vals'
unfolding put_frequencies
frequencies-AreKnown table xs zero i vals vals' h k e = ground arith
frequencies-AreKnown table xs (suc left) i vals vals' h k e = elim (Option-cases (get_elem? xs i)) [
  | inl n ↦ absurd (ground arith)
  | inr (x, s) ↦
      frequencies-AreKnown table xs left (i + 1)
        (put_value (codes "SocketFreq" ++ to_string i) (single_float x) vals) vals'
        (λ j lt. h j (omega arith))
        (put-AreKnown table (codes "SocketFreq" ++ to_string i) (single_float x) vals
          (h i (omega arith)) k)
        (rw (s, put_frequencies) at e)
]

module _ {F : Type 0} (d : Float F) (arrange : List (ℕ × F) → List (ℕ × F)) where
  rapl-AreKnown :
      (table : List (Text × FieldType)) (enabled : Bool) (n : ℕ) (s : Sample F)
      (vals vals' : List (Text × Value F))
      → Includes d arrange (rapl_columns enabled n) table
      → AreKnown table vals
      → put_rapl enabled n s vals ≡ returns vals'
      → AreKnown table vals'
  unfolding put_rapl rapl_columns
  rapl-AreKnown table false n s vals vals' part k e = ground arith
  rapl-AreKnown table true n s vals vals' part k e =
      put-indexed_range d arrange table (codes "SocketPower") n s.socket_power n vals vals' part
        refl k e

  ipmi-AreKnown :
      (table : List (Text × FieldType)) (enabled : Bool) (z : Sizes) (s : Sample F)
      (vals vals' : List (Text × Value F))
      → Includes d arrange (ipmi_columns enabled z) table
      → AreKnown table vals
      → put_ipmi enabled z s vals ≡ returns vals'
      → AreKnown table vals'
  unfolding put_ipmi ipmi_columns
  ipmi-AreKnown table false z s vals vals' part k e = ground arith
  ipmi-AreKnown table true z s vals vals' part k e =
      let units = indexed_fields (codes "PSUPower") z.psu_num 0 in
      let fans = indexed_fields (codes "FanSpeed") z.fan_num 0 in
      let (v, one, rest) =
        >>=-returns (put_indexed (codes "PSUPower") s.psu_power z.psu_num 0 vals) _ vals' e in
      put-indexed_range d arrange table (codes "FanSpeed") z.fan_num s.fan_speeds z.fan_num v vals'
        (λ name h. part name (has-append_right name units fans h)) refl
        (put-indexed_range d arrange table (codes "PSUPower") z.psu_num s.psu_power z.psu_num vals v
          (λ name h. part name (has-append_left name units fans h)) refl k one)
        rest

  perf-AreKnown :
      (table : List (Text × FieldType)) (enabled : Bool) (s : Sample F)
      (vals : List (Text × Value F))
      → Includes d arrange (perf_columns enabled) table
      → AreKnown table vals
      → AreKnown table (put_perf d arrange enabled s vals)
  unfolding put_perf perf_columns
  perf-AreKnown table false s vals part k = k
  perf-AreKnown table true s vals part k =
      types-AreKnown d arrange table s.classification types vals part k

  last-AreKnown :
      (table : List (Text × FieldType)) (perf : Bool) (s : Sample F) (vals : List (Text × Value F))
      → Includes d arrange last_columns table
      → AreKnown table vals
      → AreKnown table (put_last perf s vals)
  unfolding put_last
  last-AreKnown table perf s vals part k =
      let v1 = put_value (codes "SystemCpuUsage") (single_float s.system_usage) vals in
      let v2 = put_value (codes "ProcessCpuUsage") (single_float s.process_usage) v1 in
      put-AreKnown table (codes "TimeDifference") (uint64 (difference perf s)) v2
        (part (codes "TimeDifference") refl)
        (put-AreKnown table (codes "ProcessCpuUsage") (single_float s.process_usage) v1
          (part (codes "ProcessCpuUsage") refl)
          (put-AreKnown table (codes "SystemCpuUsage") (single_float s.system_usage) vals
            (part (codes "SystemCpuUsage") refl) k))

  -- Every value of a row has a column, if there are as many sockets as when the table was made.
  pub sample_values-AreKnown :
      (on : Features) (z : Sizes) (s : Sample F) (vals : List (Text × Value F))
      → sample_values d arrange on z s ≡ returns vals
      → AreKnown (log_table on z s.num_sockets) vals
  unfolding sample_values log_table
  sample_values-AreKnown on z s vals e =
      let a = rapl_columns on.rapl z.socket_num in
      let b = perf_columns on.perf in
      let c = ipmi_columns on.ipmi z in
      let f = indexed_fields (codes "SocketFreq") s.num_sockets 0 in
      let start : List (Text × FieldType) = (codes "Timestamp", integer64) ∷ [] in
      let table = log_table on z s.num_sockets in
      let behind1 : Includes d arrange (a ++ (b ++ (c ++ (f ++ last_columns)))) table =
        λ name h. has-append_right name start (a ++ (b ++ (c ++ (f ++ last_columns)))) h in
      let behind2 : Includes d arrange (b ++ (c ++ (f ++ last_columns))) table =
        λ name h. behind1 name (has-append_right name a (b ++ (c ++ (f ++ last_columns))) h) in
      let behind3 : Includes d arrange (c ++ (f ++ last_columns)) table =
        λ name h. behind2 name (has-append_right name b (c ++ (f ++ last_columns)) h) in
      let behind4 : Includes d arrange (f ++ last_columns) table =
        λ name h. behind3 name (has-append_right name c (f ++ last_columns) h) in
      let v0 : List (Text × Value F) = (codes "Timestamp", uint64 (timestamp on.perf s)) ∷ [] in
      let (v1, e1, r1) = >>=-returns (put_rapl on.rapl z.socket_num s v0) _ vals e in
      let v2 = put_perf d arrange on.perf s v1 in
      let (v3, e3, r3) = >>=-returns (put_ipmi on.ipmi z s v2) _ vals r1 in
      let (v4, e4, r4) =
        >>=-returns (put_frequencies s.socket_frequency s.num_sockets 0 v3) _ vals r3 in
      let k1 =
        rapl-AreKnown table on.rapl z.socket_num s v0 v1
          (λ name h. behind1 name (has-append_left name a (b ++ (c ++ (f ++ last_columns))) h))
          (refl, tt) e1 in
      let k2 =
        perf-AreKnown table on.perf s v1
          (λ name h. behind2 name (has-append_left name b (c ++ (f ++ last_columns)) h)) k1 in
      let k3 =
        ipmi-AreKnown table on.ipmi z s v2 v3
          (λ name h. behind3 name (has-append_left name c (f ++ last_columns) h)) k2 e3 in
      let k4 =
        frequencies-AreKnown table s.socket_frequency s.num_sockets 0 v3 v4
          (λ j lt. behind4 (codes "SocketFreq" ++ to_string j) (
            has-append_left (codes "SocketFreq" ++ to_string j) f last_columns
              (has-indexed (codes "SocketFreq") s.num_sockets 0 j (omega arith) (omega arith))))
          k3 e4 in
      let k5 =
        last-AreKnown table on.perf s v4
          (λ name h. behind4 name (has-append_right name f last_columns h)) k4 in
      let same : put_last on.perf s v4 ≡ vals = ground arith in subst (AreKnown table) same k5
