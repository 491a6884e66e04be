-- ===== src/Generator/Sound/Definitions.antt =====
-- internal/gen/ir.go: the definitions that collectDefs merges.
use herdr_client.Prelude.{
  ◌≡◌, refl, ◌∙◌, String, ◌==◌, eq_iff, not, Option, none, some, if_case, if◌then◌else◌, arith,
}
use herdr_client.Sorting.{text_before}
use herdr_client.Generator.Schema.{
  Node, NodeMap, no_entry, entry, definitions, find_node, Outcome, done, failed,
}
use herdr_client.Generator.Canonical.{canonical}
use herdr_client.Generator.Builder.{insert_node, collect_one, collect_section, collect_defs}
use herdr_client.Generator.Outcomes.{Ensures, chain-Ensures}

find_node-insert_node :
    (k : String) (n : Node) (m : NodeMap) (j : String)
    → find_node (insert_node k n m) j ≡ (if k == j then some n else find_node m j)
unfolding find_node insert_node
find_node-insert_node k n no_entry j = refl
find_node-insert_node k n (entry name p rest) j =
    if_case Good (k == name) (λ same. ground (arith, same, eq_iff k name))
      λ other.
        if_case Good (text_before k name) (λ before. refl)
          λ behind. ground (
            arith,
            other,
            find_node-insert_node k n rest j,
            eq_iff k name,
            eq_iff name j,
            eq_iff k j,
          )
  where
    Good : NodeMap → Type 0
    Good o =
        find_node o j
        ≡ (if k == j then some n else (if name == j then some p else find_node rest j))

module _ (quote : String → String) where
  -- a definition of this name and this canonical text
  abbrev pub Holds : NodeMap → String → String → Type 0
  Holds defs name text = (n : Node) × ((find_node defs name ≡ some n) × (canonical quote n ≡ text))

  abbrev pub Grows : NodeMap → NodeMap → Type 0
  Grows defs later = (name text : String) → Holds defs name text → Holds later name text

  abbrev pub HoldsAll : NodeMap → NodeMap → Type 0
  HoldsAll no_entry defs = Unit {0}
  HoldsAll (entry name n rest) defs = Holds defs name (canonical quote n) × HoldsAll rest defs

  HoldsAll-Grows : (m defs later : NodeMap) → Grows defs later → HoldsAll m defs → HoldsAll m later
  HoldsAll-Grows no_entry defs later g h = tt
  HoldsAll-Grows (entry name n rest) defs later g (h, hs) =
      (g name _ h, HoldsAll-Grows rest defs later g hs)

  abbrev After : NodeMap → NodeMap → NodeMap → Type 0
  After m defs later = Grows defs later × HoldsAll m later

  collect_one-Holds :
      (name : String) (n : Node) (defs : NodeMap) (o : Option Node)
      → find_node defs name ≡ o
      → Ensures
          (λ later. Grows defs later × Holds later name (canonical quote n))
          (collect_one quote name n defs o)
  collect_one-Holds name n defs none e = (
    grows,
    (n, (find_node-insert_node name n defs name ∙ ground (arith, eq_iff name name), refl)),
  )
    where
      grows : Grows defs (insert_node name n defs)
      grows k text (p, (f, c)) =
          (p, (find_node-insert_node name n defs k ∙ ground (arith, f, e, eq_iff name k), c))
  collect_one-Holds name n defs (some prev) e =
      if_case (Ensures (λ later. Grows defs later × Holds later name (canonical quote n)))
        (not (canonical quote prev == canonical quote n)) (λ differ. tt)
        (λ agree. (λ k text h. h, (prev, (e, (eq_iff _ _).0 (ground (arith, agree))))))

  collect_section-After : (m defs : NodeMap) → Ensures (After m defs) (collect_section quote m defs)
  unfolding collect_section
  collect_section-After no_entry defs = (λ k text h. h, tt)
  collect_section-After (entry name n rest) defs =
      chain-Ensures (λ later. Grows defs later × Holds later name (canonical quote n))
        (After (entry name n rest) defs) (collect_one quote name n defs (find_node defs name)) _
        (collect_one-Holds name n defs (find_node defs name) refl)
        λ more (g, h).
          chain_last more g h (collect_section quote rest more) (collect_section-After rest more)
    where
      chain_last :
          (more : NodeMap)
          → Grows defs more
          → Holds more name (canonical quote n)
          → (o : Outcome NodeMap) → Ensures (After rest more) o
          → Ensures (After (entry name n rest) defs) o
      chain_last more g h (done later) (g', hs) =
          (λ k text x. g' k text (g k text x), (g' name _ h, hs))
      chain_last more g h (failed e) w = tt

  -- the definitions of every section
  abbrev pub HoldsSections : NodeMap → NodeMap → Type 0
  HoldsSections no_entry defs = Unit {0}
  HoldsSections (entry section n rest) defs =
      HoldsAll (definitions n) defs × HoldsSections rest defs

  collect_defs-After :
      (sections defs : NodeMap)
      → Ensures
          (λ later. Grows defs later × HoldsSections sections later)
          (collect_defs quote sections defs)
  unfolding collect_defs
  collect_defs-After no_entry defs = (λ k text h. h, tt)
  collect_defs-After (entry section n rest) defs =
      chain-Ensures (After (definitions n) defs)
        (λ later. Grows defs later × HoldsSections (entry section n rest) later)
        (collect_section quote (definitions n) defs) _ (collect_section-After (definitions n) defs)
        λ more (g, h).
          chain_last more g h (collect_defs quote rest more) (collect_defs-After rest more)
    where
      chain_last :
          (more : NodeMap)
          → Grows defs more
          → HoldsAll (definitions n) more
          → (o : Outcome NodeMap) → Ensures (λ later. Grows more later × HoldsSections rest later) o
          → Ensures (λ later. Grows defs later × HoldsSections (entry section n rest) later) o
      chain_last more g h (done later) (g', hs) =
          (λ k text x. g' k text (g k text x), (HoldsAll-Grows (definitions n) more later g' h, hs))
      chain_last more g h (failed e) w = tt

  -- Where collectDefs succeeds, every definition of every section stands in what it returns under its name
  -- with its canonical text.
  pub collect_defs-HoldsSections :
      (sections : NodeMap) → Ensures (HoldsSections sections) (collect_defs quote sections no_entry)
  collect_defs-HoldsSections sections =
      go (collect_defs quote sections no_entry) (collect_defs-After sections no_entry)
    where
      go :
          (o : Outcome NodeMap)
          → Ensures (λ later. Grows no_entry later × HoldsSections sections later) o
          → Ensures (HoldsSections sections) o
      go (done later) w = w.1
      go (failed e) w = tt
