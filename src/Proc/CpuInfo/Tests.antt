-- ===== src/Proc/CpuInfo/Tests.antt =====
-- The theorems on the topology at a concrete file.
use efimon.Prelude.{ℕ, ◌≡◌, refl, List, [], ◌∷◌, arith, All, Text, codes, to_string}
use efimon.Float.{whole}
use efimon.Outcome.{Outcome, returns}
use efimon.Proc.Machine.{leading}
use efimon.Proc.CpuInfo.{
  CpuInfo, keyword_bits, keyword_of, after_colon, stoi, read_id, max, push_core, insert_map,
  see_processor, see_socket, see_core, insert_core, sort_cores, sort_topology, see, parse_line,
  parse_lines, start_parsing, parse_map, construct,
}
use efimon.Proc.CpuInfo.Blocks.{Block, block_lines, IsBlock}
use efimon.Proc.CpuInfo.Grouped.{AreLargest, vector_of, named_cores, parse_map-vectors}
use efimon.Proc.CpuInfo.Sorted.{IsSortOf, no_cores, construct-IsSortOf}

abbrev megahertz : Text → ℕ
megahertz t = leading 0 t

abbrev stof : Text → Outcome ℕ
stof t = returns (megahertz t)

-- Two cores of one socket, the second one first.
abbrev blocks : List Block
blocks =
    record {
      logical = 1;
      clock = codes "2400.5";
      socket = 0;
      core = 1;
      model = codes "model name\t: Ryzen" ∷ [];
      cache = [];
      siblings = codes "siblings\t: 2" ∷ [];
      flags = [] ∷ [];
    }
    ∷ record {
      logical = 0;
      clock = codes "1800";
      socket = 0;
      core = 0;
      model = [];
      cache = [];
      siblings = [];
      flags = [];
    }
    ∷ []

blocks-IsBlock : All IsBlock blocks
unfolding keyword_of keyword_bits
blocks-IsBlock = (
  (
    omega arith,
    omega arith,
    omega arith,
    (omega arith, (omega arith, (omega arith, (omega arith, (omega arith, (omega arith, tt)))))),
    (refl, tt),
    tt,
    (refl, tt),
    (refl, tt),
  ),
  (
    (
      omega arith,
      omega arith,
      omega arith,
      (omega arith, (omega arith, (omega arith, (omega arith, tt)))),
      tt,
      tt,
      tt,
      tt,
    ),
    tt,
  ),
)

parse_map-vectors_example :
    (o' : CpuInfo ℕ) × (parse_map whole stof (block_lines blocks) no_cores ≡ returns o')
    × AreLargest whole stof blocks no_cores o'
    × ((socket : ℕ) → vector_of socket o'.topology ≡ named_cores megahertz socket blocks)
parse_map-vectors_example =
    parse_map-vectors whole stof megahertz blocks no_cores blocks-IsBlock (refl, (refl, tt))

abbrev sorted : CpuInfo ℕ
sorted = record {
  num_logical = 2;
  num_physical = 2;
  num_sockets = 1;
  topology =
      (
        0,
        record { logical = 0; core = 0; clock = 1800 }
            ∷ record { logical = 1; core = 1; clock = 2400 }
            ∷ [],
      )
      ∷ [];
}

blocks_run : construct whole stof (block_lines blocks) ≡ returns sorted
unfolding keyword_bits keyword_of after_colon stoi read_id max push_core insert_map see_processor
    see_socket see_core insert_core sort_cores sort_topology see parse_line parse_lines
    start_parsing parse_map construct leading to_string
blocks_run = refl

construct-IsSortOf_example :
    (o' : CpuInfo ℕ) × (parse_map whole stof (block_lines blocks) no_cores ≡ returns o')
    × IsSortOf o'.topology sorted.topology
    × (2 ≡ o'.num_logical)
    × (2 ≡ o'.num_physical)
    × (1 ≡ o'.num_sockets)
construct-IsSortOf_example = construct-IsSortOf whole stof (block_lines blocks) sorted blocks_run
