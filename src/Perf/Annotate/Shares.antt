-- ===== src/Perf/Annotate/Shares.antt =====
-- What the histogram and the classification of the instructions add up to.
use efimon.Prelude.{
  ℕ, ◌≡◌, refl, sym, ap, subst, ◌∙◌, ◌⊎◌, inl, inr, true, none, some, List, [], ◌∷◌, ◌++◌, map,
  arith, ◌==◌, if◌then◌else◌, Bool-cases, Option-cases, Text, codes, text_eq,
}
use efimon.Float.{Float, IsExact}
use efimon.Asm.Kinds.{InstructionPair}
use efimon.Perf.Record.{Recorder}
use efimon.Asm.X86.{operand_types}
use efimon.Perf.Annotate.{
  type_number, family_number, alter, Line, InstructionReadings, Annotator, add_to_histogram,
  add_to_origins, add_to_families, add_to_classification, count_line, is_small, parse_line,
  parse_lines, parse_results, trigger, reconstruct_path,
}

module _ {F : Type 0} (d : Float F) where
  open d use {of_ℕ, add, ge, single}

  -- The sum of a weight over the entries of a map.
  abbrev pub sum_by : {A : Type 0} → (A → F) → List A → F
  sum_by weight [] = of_ℕ 0
  sum_by weight (e ∷ map) = add (weight e) (sum_by weight map)

  abbrev pub histogram_total : InstructionReadings F → F
  histogram_total q = sum_by (λ e. e.1) q.histogram

  abbrev origins_total : List (ℕ × F) → F
  origins_total m = sum_by (λ e. e.1) m

  abbrev families_total : List (ℕ × List (ℕ × F)) → F
  families_total m = sum_by (λ e. origins_total (e.1)) m

  abbrev pub classification_total : InstructionReadings F → F
  classification_total q = sum_by (λ e. families_total (e.1)) q.classification

  -- The shares of the lines that are over the threshold.
  abbrev pub counted : F → List (Line F) → List F
  counted thres [] = []
  counted thres (l ∷ lines) = elim (l.percent) [
    | none ↦ counted thres lines
    | some p ↦ if is_small d thres p then counted thres lines else p ∷ counted thres lines
  ]

  abbrev pub counted_total : F → List (Line F) → F
  counted_total thres lines = sum_by (λ p. p) (counted thres lines)

  module _ (x : IsExact d) where
    open x use {add_assoc, add_comm, zero-add, single_id}

    swap : (p a b : F) → add a (add p b) ≡ add p (add a b)
    swap p a b = sym (add_assoc a p b) ∙ (ap (λ y. add y b) (add_comm a p) ∙ add_assoc p a b)

    -- Changing one entry by `p` changes the sum by `p`.
    sum_by-alter :
        {V : Type 0}
        → (weight : V → F) (key : ℕ) (fresh : V) (change : V → V) (p : F) → weight fresh ≡ of_ℕ 0
        → ((v : V) → weight (change v) ≡ add p (weight v))
        → (m : List (ℕ × V))
        → sum_by (λ e. weight (e.1)) (alter key fresh change m)
          ≡ add p (sum_by (λ e. weight (e.1)) m)
    unfolding alter
    sum_by-alter weight key fresh change p z h [] =
        ap (λ y. add y (of_ℕ 0)) (h fresh ∙ ap (add p) z)
        ∙ (add_assoc p (of_ℕ 0) (of_ℕ 0) ∙ ap (add p) (zero-add (of_ℕ 0)))
    sum_by-alter weight key fresh change p z h (e ∷ m) = elim (Bool-cases (e.0 == key)) [
      | inl b ↦ rw b (
          ap (λ y. add y (sum_by (λ e. weight (e.1)) m)) (h (e.1))
          ∙ add_assoc p (weight (e.1)) (sum_by (λ e. weight (e.1)) m))
      | inr b ↦ rw b (
          ap (add (weight (e.1))) (sum_by-alter weight key fresh change p z h m)
          ∙ swap p (weight (e.1)) (sum_by (λ e. weight (e.1)) m))
    ]

    grown : (a p : F) → single (add a p) ≡ add p a
    grown a p = single_id (add a p) ∙ add_comm a p

    histogram-total :
        (a : Text) (p : F) (m : List (Text × F))
        → sum_by (λ e. e.1) (add_to_histogram d a p m) ≡ add p (sum_by (λ e. e.1) m)
    unfolding add_to_histogram
    histogram-total a p [] = refl
    histogram-total a p (e ∷ m) = elim (Bool-cases (text_eq a (e.0))) [
      | inl b ↦ rw b (
          ap (λ y. add y (sum_by (λ e. e.1) m)) (grown (e.1) p)
          ∙ add_assoc p (e.1) (sum_by (λ e. e.1) m))
      | inr b ↦ rw b (ap (add (e.1)) (histogram-total a p m) ∙ swap p (e.1) (sum_by (λ e. e.1) m))
    ]

    origins-total :
        (c : InstructionPair) (p : F) (m : List (ℕ × F))
        → origins_total (add_to_origins d c p m) ≡ add p (origins_total m)
    unfolding add_to_origins
    origins-total c p =
        sum_by-alter (λ v. v) c.origin (of_ℕ 0) (λ share. single (add share p)) p refl
          (λ v. grown v p)

    families-total :
        (c : InstructionPair) (p : F) (m : List (ℕ × List (ℕ × F)))
        → families_total (add_to_families d c p m) ≡ add p (families_total m)
    unfolding add_to_families
    families-total c p =
        sum_by-alter origins_total (family_number c.family) [] (add_to_origins d c p) p refl
          (origins-total c p)

    types-total :
        (c : InstructionPair) (p : F) (m : List (ℕ × List (ℕ × List (ℕ × F))))
        → sum_by (λ e. families_total (e.1)) (add_to_classification d c p m)
          ≡ add p (sum_by (λ e. families_total (e.1)) m)
    unfolding add_to_classification
    types-total c p =
        sum_by-alter families_total (type_number c.type) [] (add_to_families d c p) p refl
          (families-total c p)

    abbrev IsTotal : InstructionReadings F → F → Type 0
    IsTotal q t = (histogram_total q ≡ t) × (classification_total q ≡ t)

    count_line-IsTotal :
        (f : Text → Text → InstructionPair) (l : Line F) (p t : F) (q : InstructionReadings F)
        → IsTotal q t
        → IsTotal (count_line d f l p q) (add p t)
    unfolding count_line
    count_line-IsTotal f l p t q h =
        let optypes = operand_types l.operands in
        (
          histogram-total (l.assembly ++ codes "_" ++ optypes) p q.histogram ∙ ap (add p) (h.0),
          types-total (f l.assembly optypes) p q.classification ∙ ap (add p) (h.1),
        )

    -- A line is passed over or counted.
    line-cases :
        (thres : F) (f : Text → Text → InstructionPair) (l : Line F) (lines : List (Line F))
        (q : InstructionReadings F)
        → ((parse_line d thres (some f) l q ≡ q)
            × (counted thres (l ∷ lines) ≡ counted thres lines))
          ⊎ ((p : F) × (parse_line d thres (some f) l q ≡ count_line d f l p q)
              × (counted thres (l ∷ lines) ≡ p ∷ counted thres lines))
    unfolding parse_line
    line-cases thres f l lines q = elim (Option-cases l.percent) [
      | inl n ↦ inl (ground arith, ground arith)
      | inr (p, e) ↦ elim (Bool-cases (is_small d thres p)) [
        | inl b ↦ inl (ground arith, ground arith)
        | inr b ↦ inr (p, ground arith, ground arith)
      ]
    ]

    parse_lines-IsTotal :
        (thres : F) (f : Text → Text → InstructionPair) (lines : List (Line F)) (t : F)
        (q : InstructionReadings F)
        → IsTotal q t
        → IsTotal (parse_lines d thres (some f) lines q) (add (counted_total thres lines) t)
    unfolding parse_lines
    parse_lines-IsTotal thres f [] t q h = (h.0 ∙ sym (zero-add t), h.1 ∙ sym (zero-add t))
    parse_lines-IsTotal thres f (l ∷ lines) t q h = elim (line-cases thres f l lines q) [
      | inl (a, b) ↦
          subst
            (λ y.
              IsTotal (parse_lines d thres (some f) lines y)
                (add (counted_total thres (l ∷ lines)) t))
            (sym a)
            (subst (λ c. IsTotal (parse_lines d thres (some f) lines q) (add (sum_by (λ y. y) c) t))
              (sym b) (parse_lines-IsTotal thres f lines t q h))
      | inr (p, a, b) ↦
          let total = counted_total thres lines in
          let ih =
            parse_lines-IsTotal thres f lines (add p t) (count_line d f l p q)
              (count_line-IsTotal f l p t q h) in
          let moved : add total (add p t) ≡ add (add p total) t =
            swap p total t ∙ sym (add_assoc p total t) in
          subst
            (λ y.
              IsTotal (parse_lines d thres (some f) lines y)
                (add (counted_total thres (l ∷ lines)) t))
            (sym a)
            (subst
              (λ c.
                IsTotal (parse_lines d thres (some f) lines (count_line d f l p q))
                  (add (sum_by (λ y. y) c) t))
              (sym b)
              (subst (IsTotal (parse_lines d thres (some f) lines (count_line d f l p q))) moved
                ih))
    ]

  trigger-runs :
      (thres : F) (r : Recorder) (lines : List (Line F)) (o : Annotator F)
      → r.valid ≡ true
      → (trigger d thres r (some lines) o).0 ≡ record (reconstruct_path r o) {
        valid = true;
        readings =
            parse_lines d thres o.classifier lines
              (record o.readings { histogram = []; classification = [] });
      }
  unfolding trigger parse_results reconstruct_path
  trigger-runs thres r lines o v = ground arith

  -- Where sums are exact: after a trigger of a valid recording whose command runs, the histogram and
  -- the classification both add up to the shares of the lines over the threshold, whatever the
  -- readings held before.
  pub trigger-totals :
      (x : IsExact d) (thres : F) (r : Recorder) (lines : List (Line F)) (o : Annotator F)
      (f : Text → Text → InstructionPair)
      → r.valid ≡ true
      → o.classifier ≡ some f
      → let o' = (trigger d thres r (some lines) o).0 in
        (o'.valid ≡ true)
        × (histogram_total o'.readings ≡ counted_total thres lines)
        × (classification_total o'.readings ≡ counted_total thres lines)
  trigger-totals x thres r lines o f v c =
      let total = counted_total thres lines in
      let empty : InstructionReadings F = record o.readings {
        histogram = [];
        classification = [];
      } in
      let h = parse_lines-IsTotal x thres f lines (of_ℕ 0) empty (refl, refl) in
      let none_left : add total (of_ℕ 0) ≡ total = x.add_comm total (of_ℕ 0) ∙ x.zero-add total in
      let e = trigger-runs thres r lines o v in
      let k = ap (λ y. parse_lines d thres y lines empty) c in
      (
        ap (λ y. y.valid) e,
        ap (λ y. histogram_total y.readings) e ∙ (ap histogram_total k ∙ (h.0 ∙ none_left)),
        ap (λ y. classification_total y.readings) e
            ∙ (ap classification_total k ∙ (h.1 ∙ none_left)),
      )
