-- ===== src/Proc/CpuInfo/Sorted.antt =====
-- The order of the cores in the topology.
use efimon.Prelude.{ℕ, ◌≤◌, ◌≡◌, subst, inl, inr, List, [], ◌∷◌, arith, ltb, Bool-cases, All, Text}
use mathlib.Core.List.{Perm}
use mathlib.Core.List.Perm
use efimon.Float.{Float}
use efimon.Outcome.{Outcome, returns, >>=-returns}
use efimon.Proc.CpuInfo.{
  Core, CpuInfo, insert_core, sort_cores, sort_topology, parse_map, construct,
}

module _ {F : Type 0} where
  -- No core has a smaller logical id than one before it.
  abbrev pub IsAscending : List (Core F) → Type 0
  IsAscending [] = Unit
  IsAscending (c ∷ cs) = All (λ x. c.logical ≤ x.logical) cs × IsAscending cs

  -- The same sockets in the same order, each with its cores in order.
  pub data IsSortOf : List (ℕ × List (Core F)) → List (ℕ × List (Core F)) → Type 0 where
    no_socket : IsSortOf [] []
    socket :
        {i : ℕ} {cs cs' : List (Core F)} {m m' : List (ℕ × List (Core F))}
        → Perm cs cs'
        → IsAscending cs'
        → IsSortOf m m'
        → IsSortOf ((i, cs) ∷ m) ((i, cs') ∷ m')

  insert-All {ℓ} :
      (P : Core F → Type ℓ) (c : Core F) (cs : List (Core F))
      → P c
      → All P cs
      → All P (insert_core c cs)
  unfolding insert_core
  insert-All P c [] p h = (p, tt)
  insert-All P c (x ∷ cs) p h = let ih = insert-All P c cs p (h.1) in ground arith

  insert-Perm : (c : Core F) (cs : List (Core F)) → Perm (c ∷ cs) (insert_core c cs)
  unfolding insert_core
  insert-Perm c [] = Perm.rfl
  insert-Perm c (x ∷ cs) = elim (Bool-cases (ltb c.logical x.logical)) [
    | inl b ↦ rw b Perm.rfl
    | inr b ↦ rw b (Perm.trans (Perm.swap x c cs) (Perm.cons x (insert-Perm c cs)))
  ]

  All-le_trans :
      (a b : ℕ) (cs : List (Core F))
      → a ≤ b
      → All (λ x. b ≤ x.logical) cs
      → All (λ x. a ≤ x.logical) cs
  All-le_trans a b [] le h = tt
  All-le_trans a b (x ∷ cs) le h = (omega arith, All-le_trans a b cs le (h.1))

  insert-IsAscending :
      (c : Core F) (cs : List (Core F)) → IsAscending cs → IsAscending (insert_core c cs)
  unfolding insert_core
  insert-IsAscending c [] h = (tt, tt)
  insert-IsAscending c (x ∷ cs) h = elim (Bool-cases (ltb c.logical x.logical)) [
    | inl b ↦
        let le : c.logical ≤ x.logical = ground arith in
        rw b ((le, All-le_trans c.logical x.logical cs le (h.0)), h)
    | inr b ↦
        let le : x.logical ≤ c.logical = ground arith in
        rw b (insert-All (λ y. x.logical ≤ y.logical) c cs le (h.0), insert-IsAscending c cs (h.1))
  ]

  sort-IsAscending : (cs : List (Core F)) → IsAscending (sort_cores cs)
  unfolding sort_cores
  sort-IsAscending [] = tt
  sort-IsAscending (c ∷ cs) = insert-IsAscending c (sort_cores cs) (sort-IsAscending cs)

  sort-Perm : (cs : List (Core F)) → Perm cs (sort_cores cs)
  unfolding sort_cores
  sort-Perm [] = Perm.rfl
  sort-Perm (c ∷ cs) = Perm.trans (Perm.cons c (sort-Perm cs)) (insert-Perm c (sort_cores cs))

  sort_topology-IsSortOf : (m : List (ℕ × List (Core F))) → IsSortOf m (sort_topology m)
  unfolding sort_topology
  sort_topology-IsSortOf [] = no_socket
  sort_topology-IsSortOf (e ∷ m) =
      socket (sort-Perm (e.1)) (sort-IsAscending (e.1)) (sort_topology-IsSortOf m)

  abbrev pub no_cores : CpuInfo F
  no_cores = record { num_logical = 0; num_physical = 0; num_sockets = 0; topology = [] }

  -- What the constructor returns is what the lines of the file add to an empty object, with the
  -- cores of each socket put in the order of their logical ids, none lost and none added.
  pub construct-IsSortOf :
      (d : Float F) (stof : Text → Outcome F) (lines : List Text) (o : CpuInfo F)
      → construct d stof lines ≡ returns o
      → (o' : CpuInfo F) × (parse_map d stof lines no_cores ≡ returns o')
        × IsSortOf o'.topology o.topology
        × (o.num_logical ≡ o'.num_logical)
        × (o.num_physical ≡ o'.num_physical)
        × (o.num_sockets ≡ o'.num_sockets)
  unfolding construct
  construct-IsSortOf d stof lines o e =
      let (o', parsed, last) = >>=-returns (parse_map d stof lines no_cores) _ o e in
      let same : sort_topology o'.topology ≡ o.topology = ground arith in
      (
        o',
        parsed,
        subst (IsSortOf o'.topology) same (sort_topology-IsSortOf o'.topology),
        ground arith,
        ground arith,
        ground arith,
      )
