-- ===== src/Daemon/System/Sockets.antt =====
-- How many frequencies the readings of the system have.
use efimon.Prelude.{
  ℕ, zero, suc, ◌+◌, ◌≤◌, ◌≡◌, refl, sym, ap, subst, ◌∙◌, inl, inr, Option, none, some, List, [],
  ◌∷◌, arith, Option-cases, length, Text,
}
use efimon.Float.{Float}
use efimon.Status.{Status}
use efimon.Outcome.{Outcome, returns, >>=-returns}
use efimon.Proc.CpuInfo.{
  CpuInfo, Parsing, Keyword, processor, clock_speed, physical_id, core_id, keyword_of, keyword_bits,
  after_colon, read_id, max, insert_map, see_processor, see_socket, see_core, see, parse_line,
  parse_lines, start_parsing, parse_map, refresh, socket_mean, socket_means,
  get_socket_mean_frequency, find_socket,
}
use efimon.Daemon.System.{
  SystemObserver, trigger_if_enabled, SystemMeters, write_means, refresh_proc_sys,
}

module _ {F : Type 0} (d : Float F) (stof : Text → Outcome F) where
  mean-num_sockets :
      (i : ℕ) (o : CpuInfo F) → (socket_mean d stof i o).0.num_sockets ≡ o.num_sockets
  unfolding socket_mean
  mean-num_sockets i o = elim (Option-cases (find_socket i o.topology)) [
    | inl n ↦ rw (n, socket_mean) refl
    | inr (cs, n) ↦ rw (n, socket_mean) refl
  ]

  means-length :
      (left i : ℕ) (o : CpuInfo F)
      → let p = socket_means d stof left i o in
        (length (p.1) ≡ left) × ((p.0).num_sockets ≡ o.num_sockets)
  unfolding socket_means
  means-length zero i o = (refl, refl)
  means-length (suc left) i o =
      let ih = means-length left (i + 1) (socket_mean d stof i o).0 in
      (ap suc (ih.0), ih.1 ∙ mean-num_sockets i o)

  see-num_sockets :
      (k : Keyword) (t : Text) (p p' : Parsing F)
      → see d stof k t p ≡ returns p'
      → p.info.num_sockets ≤ p'.info.num_sockets
  unfolding see see_processor see_socket see_core insert_map max
  see-num_sockets processor t p p' e =
      let (n, _, last) = >>=-returns (read_id t) _ p' e in ground arith
  see-num_sockets clock_speed t p p' e =
      let (x, _, last) = >>=-returns (stof t) _ p' e in ground arith
  see-num_sockets physical_id t p p' e =
      let (n, _, last) = >>=-returns (read_id t) _ p' e in ground arith
  see-num_sockets core_id t p p' e =
      let (n, _, last) = >>=-returns (read_id t) _ p' e in ground arith

  line-num_sockets :
      (line : Text) (p p' : Parsing F)
      → parse_line d stof line p ≡ returns p'
      → p.info.num_sockets ≤ p'.info.num_sockets
  unfolding parse_line
  line-num_sockets line p p' e = elim (Option-cases (keyword_of (keyword_bits line))) [
    | inl n ↦ ground arith
    | inr (k, n) ↦ see-num_sockets k (after_colon line) p p' (ground arith)
  ]

  lines-num_sockets :
      (lines : List Text) (p p' : Parsing F)
      → parse_lines d stof lines p ≡ returns p'
      → p.info.num_sockets ≤ p'.info.num_sockets
  unfolding parse_lines
  lines-num_sockets [] p p' e = ground arith
  lines-num_sockets (line ∷ lines) p p' e =
      let (q, one, rest) = >>=-returns (parse_line d stof line p) _ p' e in
      let a = line-num_sockets line p q one in
      let b = lines-num_sockets lines q p' rest in omega arith

  refresh-num_sockets :
      (lines : List Text) (o : CpuInfo F) (r : CpuInfo F × Status)
      → refresh d stof lines o ≡ returns r
      → o.num_sockets ≤ (r.0).num_sockets
  unfolding refresh parse_map start_parsing
  refresh-num_sockets lines o r e =
      let o0 : CpuInfo F = record o { topology = [] } in
      let (o', parsed, last) = >>=-returns (parse_map d stof lines o0) _ r e in
      let (p, read, end) =
        >>=-returns (parse_lines d stof lines (start_parsing d stof o0)) _ o' parsed in
      let le = lines-num_sockets lines (start_parsing d stof o0) p read in ground arith

module _ {F O I R : Type 0} (d : Float F) (stof : Text → Outcome F) (api : SystemObserver F O)
    (trigger_ipmi : I → Outcome (I × Status)) (trigger_rapl : R → Outcome (R × Status)) where
  -- The readings have one frequency for each socket.
  abbrev pub IsMeasured : SystemMeters F O I R → ℕ → Type 0
  IsMeasured s n =
      (o : O) × (s.proc_sys ≡ some o)
      × (length (api.usage o).socket_frequency ≡ s.info.num_sockets)
      × (s.info.num_sockets ≡ n)

  write_means-IsMeasured :
      (o : Option O) (info : CpuInfo F) (s s' : SystemMeters F O I R)
      → ((xs : List F) (x : O) → (api.usage (api.write_frequencies xs x)).socket_frequency ≡ xs)
      → write_means d stof api trigger_ipmi trigger_rapl o info s ≡ returns s'
      → IsMeasured s' info.num_sockets
  unfolding write_means get_socket_mean_frequency
  write_means-IsMeasured none info s s' written e = absurd (cc)
  write_means-IsMeasured (some o) info s s' written e =
      let (info', means) = socket_means d stof info.num_sockets 0 info in
      let m = means-length d stof info.num_sockets 0 info in
      let after : SystemMeters F O I R = record s {
        proc_sys = some (api.write_frequencies means o);
        info = info';
      } in
      let same : after ≡ s' = ground arith in
      subst (λ y. IsMeasured y info.num_sockets) same
        (api.write_frequencies means o, refl, ap length (written means o) ∙ (m.0 ∙ sym (m.1)), m.1)

  -- After a refresh of the system that returns, the readings of its observer have one frequency for
  -- each socket that the topology has counted, and that number never gets smaller. What is written
  -- through the pointer is what the readings have.
  pub refresh-frequencies :
      (lines : List Text) (s s' : SystemMeters F O I R) (st : Status)
      → ((xs : List F) (o : O) → (api.usage (api.write_frequencies xs o)).socket_frequency ≡ xs)
      → refresh_proc_sys d stof api trigger_ipmi trigger_rapl lines s ≡ returns (s', st)
      → (o : O) × (s'.proc_sys ≡ some o)
        × (length (api.usage o).socket_frequency ≡ s'.info.num_sockets)
        × (s.info.num_sockets ≤ s'.info.num_sockets)
  unfolding refresh_proc_sys
  refresh-frequencies lines s s' st written e =
      let (p, one, rest) = >>=-returns (trigger_if_enabled api.trigger s.proc_sys) _ (s', st) e in
      let (q, two, rest2) = >>=-returns (refresh d stof lines s.info) _ (s', st) rest in
      let (s1, three, last) =
        >>=-returns (write_means d stof api trigger_ipmi trigger_rapl (p.0) (q.0) s) _ (s', st)
          rest2 in
      let le = refresh-num_sockets d stof lines s.info q two in
      let (o, made, len, same) = write_means-IsMeasured (p.0) (q.0) s s1 written three in
      let last_same : s1 ≡ s' = ground arith in
      subst
        (λ y.
          (x : O) × (y.proc_sys ≡ some x)
          × (length (api.usage x).socket_frequency ≡ y.info.num_sockets)
          × (s.info.num_sockets ≤ y.info.num_sockets))
        last_same (o, made, len, omega arith)
