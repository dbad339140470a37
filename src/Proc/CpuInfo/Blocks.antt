-- ===== src/Proc/CpuInfo/Blocks.antt =====
-- The lines that the kernel writes for each processor, and what is read from them.
use efimon.Prelude.{
  ℕ, ◌+◌, ◌^◌, ◌<◌, ◌≡◌, refl, ap, ◌∙◌, none, some, List, [], ◌∷◌, ◌++◌, arith, All, Text, codes,
  to_string,
}
use efimon.Prelude.{IsNumeral}
use efimon.Float.{Float}
use efimon.Outcome.{Outcome, returns, ◌>>=◌}
use efimon.Proc.CpuInfo.Lines.{
  bits-processor, bits-clock, bits-socket, bits-core, read_id-to_string, to_string-IsNumeral,
}
use efimon.Proc.CpuInfo.{
  CpuInfo, Parsing, Keyword, processor, clock_speed, physical_id, core_id, keyword_bits, keyword_of,
  after_colon, max, push_core, insert_map, see_processor, see_socket, see_core, see, parse_line,
  parse_lines, start_parsing, parse_map,
}

-- What the kernel writes for a processor: its numbers, the text of its clock, and the lines between
-- and behind those that matter.
pub record Block : Type 0 where
  pub logical : ℕ
  pub clock : Text
  pub socket : ℕ
  pub core : ℕ
  pub model : List Text
  pub cache : List Text
  pub siblings : List Text
  pub flags : List Text

-- The lines of the processors, in order.
abbrev pub block_lines : List Block → List Text
block_lines [] = []
block_lines (b ∷ bs) =
    (codes "processor\t: " ++ to_string b.logical)
    ∷ (b.model
        ++ ((codes "cpu MHz\t\t: " ++ b.clock)
            ∷ (b.cache
                ++ ((codes "physical id\t: " ++ to_string b.socket)
                    ∷ (b.siblings
                        ++ ((codes "core id\t\t: " ++ to_string b.core)
                            ∷ (b.flags ++ block_lines bs)))))))

-- Lines with none of the keywords, or with several.
abbrev pub IsOther : Text → Type 0
IsOther line = keyword_of (keyword_bits line) ≡ none

-- Numbers that fit an `int` with 1 added, a clock of digits and points, and no keyword elsewhere.
abbrev pub IsBlock : Block → Type 0
IsBlock b =
    (b.logical + 1 < 2 ^ 31)
    × (b.socket + 1 < 2 ^ 31)
    × (b.core + 1 < 2 ^ 31)
    × IsNumeral b.clock
    × All IsOther b.model
    × All IsOther b.cache
    × All IsOther b.siblings
    × All IsOther b.flags

module _ {F : Type 0} (d : Float F) (stof : Text → Outcome F) where
  abbrev pub parse_one : Text → Parsing F → Outcome (Parsing F)
  parse_one = parse_line d stof

  parse-keyword :
      (k : Keyword) (line : Text) (p : Parsing F)
      → keyword_of (keyword_bits line) ≡ some k
      → parse_line d stof line p ≡ see d stof k (after_colon line) p
  unfolding parse_line
  parse-keyword k line p e = ground arith

  parse-other : (line : Text) (p : Parsing F) → IsOther line → parse_line d stof line p ≡ returns p
  unfolding parse_line
  parse-other line p e = ground arith

  parse-skip :
      (others lines : List Text) (p : Parsing F)
      → All IsOther others
      → parse_lines d stof (others ++ lines) p ≡ parse_lines d stof lines p
  unfolding parse_lines
  parse-skip [] lines p h = refl
  parse-skip (x ∷ others) lines p h = rw (parse-other x p (h.0)) (parse-skip others lines p (h.1))

  -- A line of a keyword, and the lines behind it that are passed over.
  parse-step :
      (line : Text) (others lines : List Text) (p q : Parsing F)
      → parse_line d stof line p ≡ returns q
      → All IsOther others
      → parse_lines d stof (line ∷ (others ++ lines)) p ≡ parse_lines d stof lines q
  unfolding parse_lines
  parse-step line others lines p q e h = rw e (parse-skip others lines q h)

  see-processor :
      (n : ℕ) (p : Parsing F)
      → n + 1 < 2 ^ 31
      → see d stof processor (after_colon (codes "processor\t: " ++ to_string n)) p
        ≡ returns (see_processor n p)
  unfolding see after_colon
  see-processor n p lt = rw (read_id-to_string n lt) refl

  parse-processor :
      (n : ℕ) (p : Parsing F)
      → n + 1 < 2 ^ 31
      → parse_line d stof (codes "processor\t: " ++ to_string n) p ≡ returns (see_processor n p)
  parse-processor n p lt =
      parse-keyword processor (codes "processor\t: " ++ to_string n) p (
        ap keyword_of (bits-processor (to_string n) (to_string-IsNumeral n))
        ∙ (unfold keyword_of in refl))
      ∙ see-processor n p lt

  see-socket :
      (n : ℕ) (p : Parsing F)
      → n + 1 < 2 ^ 31
      → see d stof physical_id (after_colon (codes "physical id\t: " ++ to_string n)) p
        ≡ returns (see_socket n p)
  unfolding see after_colon
  see-socket n p lt = rw (read_id-to_string n lt) refl

  parse-socket :
      (n : ℕ) (p : Parsing F)
      → n + 1 < 2 ^ 31
      → parse_line d stof (codes "physical id\t: " ++ to_string n) p ≡ returns (see_socket n p)
  parse-socket n p lt =
      parse-keyword physical_id (codes "physical id\t: " ++ to_string n) p (
        ap keyword_of (bits-socket (to_string n) (to_string-IsNumeral n))
        ∙ (unfold keyword_of in refl))
      ∙ see-socket n p lt

  see-core :
      (n : ℕ) (p : Parsing F)
      → n + 1 < 2 ^ 31
      → see d stof core_id (after_colon (codes "core id\t\t: " ++ to_string n)) p
        ≡ returns (see_core n p)
  unfolding see after_colon
  see-core n p lt = rw (read_id-to_string n lt) refl

  parse-core :
      (n : ℕ) (p : Parsing F)
      → n + 1 < 2 ^ 31
      → parse_line d stof (codes "core id\t\t: " ++ to_string n) p ≡ returns (see_core n p)
  parse-core n p lt =
      parse-keyword core_id (codes "core id\t\t: " ++ to_string n) p (
        ap keyword_of (bits-core (to_string n) (to_string-IsNumeral n))
        ∙ (unfold keyword_of in refl))
      ∙ see-core n p lt

  see-clock :
      (t : Text) (x : F) (p : Parsing F)
      → stof t ≡ returns x
      → see d stof clock_speed (after_colon (codes "cpu MHz\t\t: " ++ t)) p
        ≡ returns (record p { clock_mhz = x })
  unfolding see after_colon
  see-clock t x p e = rw e refl

  parse-clock :
      (t : Text) (x : F) (p : Parsing F)
      → IsNumeral t
      → stof t ≡ returns x
      → parse_line d stof (codes "cpu MHz\t\t: " ++ t) p ≡ returns (record p { clock_mhz = x })
  parse-clock t x p n e =
      parse-keyword clock_speed (codes "cpu MHz\t\t: " ++ t) p
        (ap keyword_of (bits-clock t n) ∙ (unfold keyword_of in refl))
      ∙ see-clock t x p e

  -- What a block says of the machine: a core more, and larger numbers where its own are.
  abbrev pub add_block : Block → F → CpuInfo F → CpuInfo F
  add_block b x o = record {
    num_logical = max o.num_logical (b.logical + 1);
    num_physical = max o.num_physical (b.core + 1);
    num_sockets = max o.num_sockets (b.socket + 1);
    topology =
        push_core b.socket (record { logical = b.logical; core = b.core; clock = x }) o.topology;
  }

  abbrev pub add_blocks : (Text → F) → List Block → CpuInfo F → CpuInfo F
  add_blocks clock [] o = o
  add_blocks clock (b ∷ bs) o = add_blocks clock bs (add_block b (clock b.clock) o)

  -- The loop after one block.
  abbrev pub after_block : Block → F → Parsing F → Parsing F
  after_block b x p = record {
    info = add_block b x p.info;
    logical_id = b.logical;
    core_id = b.core;
    socket_id = b.socket;
    clock_mhz = x;
  }

  parse-block :
      (b : Block) (bs : List Block) (x : F) (p : Parsing F)
      → IsBlock b
      → stof b.clock ≡ returns x
      → parse_lines d stof (block_lines (b ∷ bs)) p
        ≡ parse_lines d stof (block_lines bs) (after_block b x p)
  parse-block b bs x p (l, s, c, n, h1, h2, h3, h4) e =
      let p1 = see_processor b.logical p in
      let p2 : Parsing F = record p1 { clock_mhz = x } in
      let p3 = see_socket b.socket p2 in
      let p4 = see_core b.core p3 in
      let same : p4 ≡ after_block b x p =
        unfold see_core insert_map see_socket see_processor in refl in
      parse-step _ b.model _ p p1 (parse-processor b.logical p l) h1
      ∙ (parse-step _ b.cache _ p1 p2 (parse-clock b.clock x p1 n e) h2
          ∙ (parse-step _ b.siblings _ p2 p3 (parse-socket b.socket p2 s) h3
              ∙ (parse-step _ b.flags _ p3 p4 (parse-core b.core p3 c) h4
                  ∙ ap (parse_lines d stof (block_lines bs)) same)))

  parse-blocks :
      (clock : Text → F) (bs : List Block) (p : Parsing F)
      → All IsBlock bs
      → All (λ b. stof b.clock ≡ returns (clock b.clock)) bs
      → (parse_lines d stof (block_lines bs) p >>= λ q. returns q.info)
        ≡ returns (add_blocks clock bs p.info)
  parse-blocks clock [] p h c = unfold parse_lines in refl
  parse-blocks clock (b ∷ bs) p h c =
      ap (λ y. y >>= λ q. returns q.info) (parse-block b bs (clock b.clock) p (h.0) (c.0))
      ∙ parse-blocks clock bs (after_block b (clock b.clock) p) (h.1) (c.1)

  -- Reading the lines of any number of processors is the fold of what each block says.
  pub parse_map-blocks :
      (clock : Text → F) (bs : List Block) (o : CpuInfo F)
      → All IsBlock bs
      → All (λ b. stof b.clock ≡ returns (clock b.clock)) bs
      → parse_map d stof (block_lines bs) o ≡ returns (add_blocks clock bs o)
  unfolding parse_map start_parsing
  parse_map-blocks clock bs o h c = parse-blocks clock bs (start_parsing d stof o) h c
