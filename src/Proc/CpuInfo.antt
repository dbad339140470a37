-- ===== src/Proc/CpuInfo.antt =====
-- `CPUInfo` (src/efimon/proc/cpuinfo.cpp). The lines of /proc/cpuinfo and the reading of a float from
-- a text (`std::stof`) are arguments. The ids are not negative.
pub mod Lines
pub mod Blocks
pub mod Grouped
pub mod Sorted
pub mod Tests
use efimon.Prelude.{
  ℕ, zero, suc, ◌+◌, ◌^◌, Option, none, some, List, [], ◌∷◌, ◌++◌, ltb, ◌==◌, if◌then◌else◌, length,
  drop, Text, codes, find, contains,
}
use efimon.Status.{Status, status_ok}
use efimon.Float.{Float}
use efimon.Outcome.{Outcome, returns, throws, escapes, faults, ◌>>=◌}
use efimon.Proc.Machine.{is_digit, leading}

-- `CPUPair`: the logical core, the physical core and the clock in MHz.
pub record Core (F : Type 0) : Type 0 where
  pub logical : ℕ
  pub core : ℕ
  pub clock : F

pub record CpuInfo (F : Type 0) : Type 0 where
  pub num_logical : ℕ
  pub num_physical : ℕ
  pub num_sockets : ℕ
  pub topology : List (ℕ × List (Core F))

-- The variables of the loop in `ParseMap`, with the object.
pub record Parsing (F : Type 0) : Type 0 where
  pub info : CpuInfo F
  pub logical_id : ℕ
  pub core_id : ℕ
  pub socket_id : ℕ
  pub clock_mhz : F

-- The four keywords; a line with none or with several is passed over.
pub data Keyword : Type 0 where
  processor clock_speed physical_id core_id : Keyword

-- `idx`: one bit for each keyword that the line has.
unfoldable pub keyword_bits : Text → ℕ
keyword_bits line =
    (if contains (codes "processor") line then 1 else 0)
    + (if contains (codes "cpu MHz") line then 2 else 0)
    + (if contains (codes "physical id") line then 4 else 0)
    + (if contains (codes "core id") line then 8 else 0)

-- The `switch`.
unfoldable pub keyword_of : ℕ → Option Keyword
keyword_of bits =
    if bits == 1
    then some processor
    else if bits == 2
    then some clock_speed
    else if bits == 4
    then some physical_id
    else if bits == 8
    then some core_id
    else none

-- `line.substr(idx_colon + 2)`; without a colon the sum wraps to 1.
unfoldable pub after_colon : Text → Text
after_colon line = elim (find (codes ": ") line) [ none ↦ drop 1 line | some i ↦ drop (i + 2) line ]

-- `std::stoi` of a text that starts with neither a blank nor a sign: it throws where there is no
-- digit, and where the number does not fit an `int`.
unfoldable pub stoi : Text → Outcome ℕ
stoi [] = escapes
stoi (c ∷ s) =
    let n = leading 0 (c ∷ s) in
    if is_digit c then if ltb n (2 ^ 31) then returns n else escapes else escapes

-- The number of a line, and the sum with 1 that the code makes of it at once; the sum does not fit
-- an `int` where the number is the largest one.
unfoldable pub read_id : Text → Outcome ℕ
unfolding stoi
read_id t = stoi t >>= λ n. if ltb (n + 1) (2 ^ 31) then returns n else faults

unfoldable pub max : ℕ → ℕ → ℕ
max a b = if ltb a b then b else a

module _ {F : Type 0} where
  -- `topology_[socket].push_back(core)`.
  unfoldable pub push_core : ℕ → Core F → List (ℕ × List (Core F)) → List (ℕ × List (Core F))
  push_core socket c [] = (socket, c ∷ []) ∷ []
  push_core socket c (e ∷ m) =
      if e.0 == socket then (e.0, e.1 ++ (c ∷ [])) ∷ m else e ∷ push_core socket c m

  unfoldable pub insert_map : ℕ → ℕ → ℕ → F → CpuInfo F → CpuInfo F
  insert_map logical socket core clock o = record o {
    topology =
        push_core socket (record { logical = logical; core = core; clock = clock }) o.topology;
  }

  unfoldable pub see_processor : ℕ → Parsing F → Parsing F
  see_processor n p = record p {
    logical_id = n;
    info = record p.info { num_logical = max p.info.num_logical (n + 1) };
  }

  unfoldable pub see_socket : ℕ → Parsing F → Parsing F
  see_socket n p = record p {
    socket_id = n;
    info = record p.info { num_sockets = max p.info.num_sockets (n + 1) };
  }

  -- The core id is the last of a processor's lines that matter, and flushes it into the map.
  unfoldable pub see_core : ℕ → Parsing F → Parsing F
  unfolding insert_map
  see_core n p = record p {
    core_id = n;
    info =
        insert_map p.logical_id p.socket_id n p.clock_mhz
          (record p.info { num_physical = max p.info.num_physical (n + 1) });
  }

  -- Insertion before the first core with a larger logical id.
  unfoldable pub insert_core : Core F → List (Core F) → List (Core F)
  insert_core c [] = c ∷ []
  insert_core c (x ∷ xs) = if ltb c.logical x.logical then c ∷ x ∷ xs else x ∷ insert_core c xs

  -- `std::sort` by the logical id, for which a sort by insertion stands.
  unfoldable pub sort_cores : List (Core F) → List (Core F)
  sort_cores [] = []
  sort_cores (x ∷ xs) = insert_core x (sort_cores xs)

  unfoldable pub sort_topology : List (ℕ × List (Core F)) → List (ℕ × List (Core F))
  sort_topology [] = []
  sort_topology (e ∷ m) = (e.0, sort_cores (e.1)) ∷ sort_topology m

  unfoldable pub find_socket : ℕ → List (ℕ × List (Core F)) → Option (List (Core F))
  find_socket socket [] = none
  find_socket socket (e ∷ m) = if e.0 == socket then some (e.1) else find_socket socket m

module _ {F : Type 0} (d : Float F) (stof : Text → Outcome F) where
  open d use {of_ℕ, add, div, single}

  unfoldable pub see : Keyword → Text → Parsing F → Outcome (Parsing F)
  see processor t p = read_id t >>= λ n. returns (see_processor n p)
  see clock_speed t p = stof t >>= λ x. returns (record p { clock_mhz = x })
  see physical_id t p = read_id t >>= λ n. returns (see_socket n p)
  see core_id t p = read_id t >>= λ n. returns (see_core n p)

  unfoldable pub parse_line : Text → Parsing F → Outcome (Parsing F)
  parse_line line p = elim (keyword_of (keyword_bits line)) [
    | none ↦ returns p
    | some k ↦ see k (after_colon line) p
  ]

  unfoldable pub parse_lines : List Text → Parsing F → Outcome (Parsing F)
  parse_lines [] p = returns p
  parse_lines (line ∷ lines) p = parse_line line p >>= parse_lines lines

  unfoldable pub start_parsing : CpuInfo F → Parsing F
  start_parsing o = record {
    info = o;
    logical_id = 0;
    core_id = 0;
    socket_id = 0;
    clock_mhz = of_ℕ 0;
  }

  -- `ParseMap`.
  unfoldable pub parse_map : List Text → CpuInfo F → Outcome (CpuInfo F)
  parse_map lines o = parse_lines lines (start_parsing o) >>= λ p. returns p.info

  unfoldable pub construct : List Text → Outcome (CpuInfo F)
  construct lines =
      parse_map lines record { num_logical = 0; num_physical = 0; num_sockets = 0; topology = [] }
      >>= λ o. returns (record o { topology = sort_topology o.topology })

  -- `Refresh` keeps the numbers, and does not sort.
  unfoldable pub refresh : List Text → CpuInfo F → Outcome (CpuInfo F × Status)
  refresh lines o = parse_map lines (record o { topology = [] }) >>= λ o'. returns (o', status_ok)

  unfoldable pub sum_clocks : F → List (Core F) → F
  sum_clocks sum [] = sum
  sum_clocks sum (c ∷ cs) = sum_clocks (single (add sum c.clock)) cs

  -- `topology_[i]` makes an empty vector for a socket that is not in the map.
  unfoldable pub socket_mean : ℕ → CpuInfo F → CpuInfo F × F
  socket_mean i o = elim (find_socket i o.topology) [
    | none ↦ (
      record o { topology = o.topology ++ ((i, []) ∷ []) },
      single (div (of_ℕ 0) (single (of_ℕ 0))),
    )
    | some cs ↦ (o, single (div (sum_clocks (of_ℕ 0) cs) (single (of_ℕ (length cs)))))
  ]

  -- The loop over the sockets from `i` on.
  unfoldable pub socket_means : ℕ → ℕ → CpuInfo F → CpuInfo F × List F
  socket_means zero i o = (o, [])
  socket_means (suc left) i o =
      let (o', mean) = socket_mean i o in
      let (o'', means) = socket_means left (i + 1) o' in (o'', mean ∷ means)

  unfoldable pub get_socket_mean_frequency : CpuInfo F → CpuInfo F × List F
  get_socket_mean_frequency o = socket_means o.num_sockets 0 o

  unfoldable pub sum_means : F → List F → F
  sum_means sum [] = sum
  sum_means sum (x ∷ xs) = sum_means (single (add sum x)) xs

  unfoldable pub get_mean_frequency : CpuInfo F → CpuInfo F × F
  get_mean_frequency o =
      let (o', means) = get_socket_mean_frequency o in
      (o', single (div (sum_means (of_ℕ 0) means) (single (of_ℕ o.num_sockets))))
