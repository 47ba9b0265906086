-- ===== src/Graphify/Filter.antt =====
-- internal/graphify/exclude.go: the merged graph without the excluded elements.
use sgt.Base.{
  String, Bool, true, false, ◌&&◌, not, List, [], ◌∷◌, str_eq, ltb, if◌then◌else◌, any, filterb,
  length, refl, ◌≡◌, arith, inl, inr, Bool-cases, All, ap, ◌≤◌,
}
use sgt.Graphify.{matches_any}

pub record Node : Type 0 where
  pub id : String
  pub source_file : String
  pub raw : String

pub record Link : Type 0 where
  pub source : String
  pub target : String
  pub source_file : String
  pub raw : String

pub record Hyperedge : Type 0 where
  pub nodes : List String
  pub source_file : String
  pub raw : String

pub record Graph : Type 0 where
  pub nodes : List Node
  pub links : List Link
  pub hyperedges : List Hyperedge

-- survivingIDs
abbrev pub survives : List Node → String → Bool
survives kept id = any (λ n. str_eq n.id id) kept

module _ (match_segment : String → String → Bool) (split : String → List String)
    (patterns : List String) where
  abbrev pub excluded : String → Bool
  excluded source_file = matches_any match_segment split patterns source_file

  unfoldable pub keeps_link : List Node → Link → Bool
  keeps_link kept l =
      if excluded l.source_file then false else survives kept l.source && survives kept l.target

  unfoldable pub keeps_hyperedge : List Node → Hyperedge → Bool
  keeps_hyperedge kept h =
      let remaining = length (filterb (survives kept) h.nodes) in
      if excluded h.source_file then false else not (ltb remaining 2)

  unfoldable pub filter_graph : Graph → Graph
  filter_graph g =
      let kept = filterb (λ n. not (excluded n.source_file)) g.nodes in
      record {
        nodes = kept;
        links = filterb (keeps_link kept) g.links;
        hyperedges = filterb (keeps_hyperedge kept) g.hyperedges;
      }

  All-filterb : {A : Type 0} (p : A → Bool) (xs : List A) → All (λ x. p x ≡ true) (filterb p xs)
  All-filterb p [] = tt
  All-filterb p (x ∷ xs) = elim (Bool-cases (p x)) [
    | inl e ↦ rw e (e, All-filterb p xs)
    | inr e ↦ rw e (All-filterb p xs)
  ]

  All-imp :
      {A : Type 0} {P Q : A → Type 0} (xs : List A) → ((x : A) → P x → Q x) → All P xs → All Q xs
  All-imp [] k h = tt
  All-imp (x ∷ xs) k h = (k x h.0, All-imp xs k h.1)

  filterb-All :
      {A : Type 0} (p : A → Bool) (xs : List A) → All (λ x. p x ≡ true) xs → filterb p xs ≡ xs
  filterb-All p [] h = refl
  filterb-All p (x ∷ xs) h = rw h.0 (ap (λ l. x ∷ l) (filterb-All p xs h.1))

  -- A graph whose links join nodes of it, whose hyperedges have two of its nodes at least, and
  -- none of whose elements stems from an excluded file.
  pub record Closed (g : Graph) : Type 0 where
    pub nodes_kept : All (λ n. excluded n.source_file ≡ false) g.nodes
    pub links_kept :
        All
          (λ l.
            (excluded l.source_file ≡ false)
            × (survives g.nodes l.source ≡ true)
            × (survives g.nodes l.target ≡ true))
          g.links
    pub hyperedges_kept :
        All
          (λ h.
            (excluded h.source_file ≡ false) × (2 ≤ length (filterb (survives g.nodes) h.nodes)))
          g.hyperedges

  keeps_link-Closed :
      (kept : List Node) (l : Link)
      → keeps_link kept l ≡ true
      → (excluded l.source_file ≡ false)
        × (survives kept l.source ≡ true)
        × (survives kept l.target ≡ true)
  unfolding keeps_link
  keeps_link-Closed kept l h = ground arith

  keeps_hyperedge-Closed :
      (kept : List Node) (h : Hyperedge)
      → keeps_hyperedge kept h ≡ true
      → (excluded h.source_file ≡ false) × (2 ≤ length (filterb (survives kept) h.nodes))
  unfolding keeps_hyperedge
  keeps_hyperedge-Closed kept h k = ground arith

  -- The filtered graph is closed: no element of an excluded file, no dangling link, and no
  -- hyperedge with fewer than two nodes of the graph is left.
  pub filter_graph-Closed : (g : Graph) → Closed (filter_graph g)
  unfolding filter_graph
  filter_graph-Closed g =
      let kept = filterb (λ n. not (excluded n.source_file)) g.nodes in
      record {
        nodes_kept =
            All-imp kept (λ n e. ground arith)
              (All-filterb (λ n. not (excluded n.source_file)) g.nodes);
        links_kept =
            All-imp (filterb (keeps_link kept) g.links) (keeps_link-Closed kept)
              (All-filterb (keeps_link kept) g.links);
        hyperedges_kept =
            All-imp (filterb (keeps_hyperedge kept) g.hyperedges) (keeps_hyperedge-Closed kept)
              (All-filterb (keeps_hyperedge kept) g.hyperedges);
      }

  -- A closed graph is left as it is: filtering a second time, or one that has nothing to
  -- exclude, drops nothing.
  pub filter_graph-Closed-id : (g : Graph) → Closed g → filter_graph g ≡ g
  unfolding filter_graph keeps_link keeps_hyperedge
  filter_graph-Closed-id g c =
      let n : filterb (λ n. not (excluded n.source_file)) g.nodes ≡ g.nodes =
        filterb-All (λ n. not (excluded n.source_file)) g.nodes
          (All-imp g.nodes (λ x e. ground arith) c.nodes_kept) in
      rw n (
        let l =
          filterb-All (keeps_link g.nodes) g.links
            (All-imp g.links (λ x e. ground arith) c.links_kept) in
        let h =
          filterb-All (keeps_hyperedge g.nodes) g.hyperedges
            (All-imp g.hyperedges (λ x e. ground arith) c.hyperedges_kept) in
        rw (l, h) refl)

  pub filter_graph-idempotent : (g : Graph) → filter_graph (filter_graph g) ≡ filter_graph g
  filter_graph-idempotent g = filter_graph-Closed-id (filter_graph g) (filter_graph-Closed g)
