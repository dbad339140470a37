-- ===== src/Proc/CpuInfo/Grouped.antt =====
-- The numbers and the vectors that the lines of /proc/cpuinfo come to.
use efimon.Prelude.{
  ℕ, ◌+◌, ◌≤◌, ◌≡◌, refl, sym, ap, subst, ◌∙◌, ◌⊎◌, inl, inr, false, List, [], ◌∷◌, ◌++◌, map,
  arith, ltb, ◌==◌, if◌then◌else◌, ==_iff, ==_refl, Bool-cases, All, Text,
}
use mathlib.Core.List.{append-nil, append_assoc}
use efimon.Float.{Float}
use efimon.Outcome.{Outcome, returns}
use efimon.Proc.CpuInfo.{Core, CpuInfo, max, push_core, parse_map}
use efimon.Proc.CpuInfo.Blocks.{
  Block, block_lines, IsBlock, add_block, add_blocks, parse_map-blocks,
}

-- The largest of the first number and the others: a bound of all, and one of them.
abbrev Reaches : ℕ → ℕ → List ℕ → Type 0
Reaches n m [] = n ≡ m
Reaches n m (x ∷ xs) = (n ≡ x) ⊎ Reaches n m xs

abbrev pub IsLargest : ℕ → ℕ → List ℕ → Type 0
IsLargest n m xs = (m ≤ n) × All (λ x. x ≤ n) xs × Reaches n m xs

max-cases : (a b : ℕ) → ((max a b ≡ a) × (b ≤ a)) ⊎ ((max a b ≡ b) × (a ≤ b))
unfolding max
max-cases a b = elim (Bool-cases (ltb a b)) [
  | inl h ↦ inr (ground arith)
  | inr h ↦ inl (ground arith)
]

Reaches-head : (n m x : ℕ) (xs : List ℕ) → Reaches n x xs → Reaches n m (x ∷ xs)
Reaches-head n m x [] h = inl h
Reaches-head n m x (y ∷ xs) (inl h) = inr (inl h)
Reaches-head n m x (y ∷ xs) (inr h) = elim (Reaches-head n m x xs h) [
  | inl k ↦ inl k
  | inr k ↦ inr (inr k)
]

IsLargest-max : (n m x : ℕ) (xs : List ℕ) → IsLargest n (max m x) xs → IsLargest n m (x ∷ xs)
IsLargest-max n m x xs (a, b, r) = elim (max-cases m x) [
  | inl (e, le) ↦ (omega arith, (omega arith, b), inr (subst (λ k. Reaches n k xs) e r))
  | inr (e, le) ↦
      (omega arith, (omega arith, b), Reaches-head n m x xs (subst (λ k. Reaches n k xs) e r))
]

module _ {F : Type 0} where
  -- The vector of a socket, empty where it has none.
  abbrev pub vector_of : ℕ → List (ℕ × List (Core F)) → List (Core F)
  vector_of socket [] = []
  vector_of socket (e ∷ m) = if e.0 == socket then e.1 else vector_of socket m

  -- The cores that the file names for a socket, in its order.
  abbrev pub named_cores : (Text → F) → ℕ → List Block → List (Core F)
  named_cores clock socket [] = []
  named_cores clock socket (b ∷ bs) =
      if b.socket == socket
      then record { logical = b.logical; core = b.core; clock = clock b.clock }
        ∷ named_cores clock socket bs
      else named_cores clock socket bs

  vector_of-push_same :
      (socket : ℕ) (c : Core F) (m : List (ℕ × List (Core F)))
      → vector_of socket (push_core socket c m) ≡ vector_of socket m ++ (c ∷ [])
  unfolding push_core
  vector_of-push_same socket c [] = let r = ==_refl socket in rw r refl
  vector_of-push_same socket c (e ∷ m) =
      let ih = vector_of-push_same socket c m in
      elim (Bool-cases (e.0 == socket)) [ inl h ↦ rw (h, h) refl | inr h ↦ rw (h, h) ih ]

  vector_of-push_other :
      (j socket : ℕ) (c : Core F) (m : List (ℕ × List (Core F)))
      → (socket == j) ≡ false
      → vector_of j (push_core socket c m) ≡ vector_of j m
  unfolding push_core
  vector_of-push_other j socket c [] n = rw n refl
  vector_of-push_other j socket c (e ∷ m) n =
      let ih = vector_of-push_other j socket c m n in
      elim (Bool-cases (e.0 == socket)) [
        | inl h ↦
            let k : (e.0 == j) ≡ false = ap (λ x. x == j) ((==_iff (e.0) socket).0 h) ∙ n in
            rw (h, k) refl
        | inr h ↦ rw h (ap (λ x. if e.0 == j then e.1 else x) ih)
      ]

module _ {F : Type 0} (d : Float F) (stof : Text → Outcome F) where
  vector_of-add_blocks :
      (clock : Text → F) (bs : List Block) (o : CpuInfo F) (socket : ℕ)
      → vector_of socket (add_blocks d stof clock bs o).topology
        ≡ vector_of socket o.topology ++ named_cores clock socket bs
  vector_of-add_blocks clock [] o socket = sym (append-nil (vector_of socket o.topology))
  vector_of-add_blocks clock (b ∷ bs) o socket =
      let c : Core F = record { logical = b.logical; core = b.core; clock = clock b.clock } in
      let o' = add_block d stof b (clock b.clock) o in
      let ih = vector_of-add_blocks clock bs o' socket in
      elim (Bool-cases (b.socket == socket)) [
        | inl h ↦
            let same = (==_iff b.socket socket).0 h in
            let pushed : vector_of socket o'.topology ≡ vector_of socket o.topology ++ (c ∷ []) =
              ap (λ x. vector_of socket (push_core x c o.topology)) same
              ∙ vector_of-push_same socket c o.topology in
            rw h (
              ih
              ∙ (ap (λ x. x ++ named_cores clock socket bs) pushed
                  ∙ append_assoc (vector_of socket o.topology) (c ∷ [])
                      (named_cores clock socket bs)))
        | inr h ↦ rw h (
            ih
            ∙ ap (λ x. x ++ named_cores clock socket bs)
                (vector_of-push_other socket b.socket c o.topology h))
      ]

  -- The numbers are the largest of those before and those that the file names, each with 1 added.
  abbrev pub AreLargest : List Block → CpuInfo F → CpuInfo F → Type 0
  AreLargest bs o o' =
      IsLargest o'.num_logical o.num_logical (map (λ b. b.logical + 1) bs)
      × IsLargest o'.num_physical o.num_physical (map (λ b. b.core + 1) bs)
      × IsLargest o'.num_sockets o.num_sockets (map (λ b. b.socket + 1) bs)

  add_blocks-AreLargest :
      (clock : Text → F) (bs : List Block) (o : CpuInfo F)
      → AreLargest bs o (add_blocks d stof clock bs o)
  add_blocks-AreLargest clock [] o =
      ((omega arith, tt, refl), (omega arith, tt, refl), (omega arith, tt, refl))
  add_blocks-AreLargest clock (b ∷ bs) o =
      let (l, p, s) = add_blocks-AreLargest clock bs (add_block d stof b (clock b.clock) o) in
      (
        IsLargest-max _ o.num_logical (b.logical + 1) _ l,
        IsLargest-max _ o.num_physical (b.core + 1) _ p,
        IsLargest-max _ o.num_sockets (b.socket + 1) _ s,
      )

  -- Reading the lines of any number of processors, as the kernel writes them, with lines of no or of
  -- several keywords between them, returns: each number is the largest of the one before and of the
  -- ids with 1 added, and the vector of every socket is what it was with the cores that the file
  -- names for the socket behind it, in the order of the file. The ids fit an `int` with 1 added, and
  -- the clocks are digits and points that `stof` reads.
  pub parse_map-vectors :
      (clock : Text → F) (bs : List Block) (o : CpuInfo F)
      → All IsBlock bs
      → All (λ b. stof b.clock ≡ returns (clock b.clock)) bs
      → (o' : CpuInfo F) × (parse_map d stof (block_lines bs) o ≡ returns o')
        × AreLargest bs o o'
        × ((socket : ℕ)
            → vector_of socket o'.topology
              ≡ vector_of socket o.topology ++ named_cores clock socket bs)
  parse_map-vectors clock bs o h c = (
    add_blocks d stof clock bs o,
    parse_map-blocks d stof clock bs o h c,
    add_blocks-AreLargest clock bs o,
    vector_of-add_blocks clock bs o,
  )
