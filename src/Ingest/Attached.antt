-- ===== src/Ingest/Attached.antt =====
-- A node of another kind attached to a package, as vulnerabilities and scorecards are: the graph
-- stays ready, and the packages that are visited later are stored as they were read.
use minefield.Prelude.{
  ℕ, suc, ◌+◌, ◌^◌, ◌<◌, String, ◌≡◌, refl, sym, ap, subst, ◌∙◌, ◌≢◌, inl, inr, Bool, true, false,
  Option-cases, none, some, All, All-map, Map, lookup, lookup-insert_at, lookup-insert_ne,
  lookup-insert_self, nat_eq, string_eq, Outcome, ok, arith,
}
use minefield.Bitmap.{Bitmap}
use minefield.Graph.Node.{Node}
use minefield.Graph.Mock.{mock_storage, name_to_id, get_node}
use minefield.Graph.Mock.State.{MockStorage, no_faults}
use minefield.Graph.Build.{add_node, set_dependency, add_child, add_parent}
use minefield.Graph.Build.AddNode.{added_fresh, next, next_id, with_next_and_cache, add_node_nodes}
use minefield.Graph.Build.Drawn.{
  Draws, Draws-none, Draws-both, Draws-iff, added-Draws, linked-Draws,
}
use minefield.Graph.Build.Linked.{linked}
use minefield.Graph.Build.SetDependency.{set_dependency_lem}
use minefield.Ingest.Purl.{has_prefix}
use minefield.Ingest.Ready.{IsReady, IsStored, add_node-IsReady, linked-IsReady}

module _ {B M : Type 0} ⦃bm : Bitmap B⦄ (matches : String → String → Outcome Bool)
    (before : MockStorage B M) where
  abbrev Ready : ℕ → MockStorage B M → Type 0
  Ready = IsReady matches before

  abbrev Stored : Node B M → MockStorage B M → Type 0
  Stored = IsStored matches before

  -- `AddNode` returns a node of the name as it is stored.
  pub record Added (k : ℕ) (type : String) (metadata : M) (name : String) (s : MockStorage B M)
      : Type 0 where
    pub node : Node B M
    pub state : MockStorage B M
    pub returns : add_node (mock_storage matches) type metadata name s ≡ (ok node, state)
    pub stored : Stored node state
    pub named : node.name ≡ name
    pub draws : Draws (λ a x. ⊥) s state

  known_node :
      (type : String) (metadata : M) (name : String) (s : MockStorage B M) (id : ℕ) (n : Node B M)
      → s.faults ≡ no_faults
      → lookup name s.name_ids ≡ some id
      → lookup id s.nodes ≡ some n
      → add_node (mock_storage matches) type metadata name s ≡ (ok n, s)
  unfolding add_node name_to_id get_node
  known_node type metadata name s id n quiet known there = ground (arith, quiet, known, there)

  pub add_node-Added :
      {k : ℕ} {s : MockStorage B M} (type : String) (metadata : M) (name : String)
      → Ready (suc k) s
      → Added k type metadata name s
  add_node-Added {k} {s} type metadata name r = elim (Option-cases (lookup name s.name_ids)) [
    | inl fresh ↦ record {
      node = next matches type metadata name s;
      state = with_next_and_cache matches type metadata name s;
      returns =
          added_fresh matches type metadata name s (rw r.quiet refl) (rw r.quiet refl)
            (rw r.quiet refl) fresh;
      stored = lookup-insert_at _ _ (next matches type metadata name s) s.nodes refl;
      named = refl;
      draws =
          added-Draws matches type metadata name s r.well_formed
            (next_id matches type metadata name s r.well_formed (omega (arith, r.room)));
    }
    | inr (id, known) ↦
        let (n, there, named) = r.well_formed.named name id known in
        let (same, _, _) = r.well_formed.keyed id n there in
        record {
          node = n;
          state = s;
          returns = known_node type metadata name s id n r.quiet known there;
          stored = ap (λ i. lookup i s.nodes) same ∙ there;
          named = named;
          draws = Draws-none s;
        }
  ]

  abbrev pub is_package : Node B M → Bool
  is_package n = has_prefix n.name "pkg:"

  -- A package of the map is stored as it is there.
  abbrev pub Waits : MockStorage B M → ℕ × Node B M → Type 0
  Waits s e = is_package e.1 ≡ true → IsStored matches before e.1 s

  -- The package `n` is visited, and those of `rest` are visited later.
  pub record Visits (k : ℕ) (n : Node B M) (rest : Map ℕ (Node B M)) (s : MockStorage B M)
      : Type 0 where
    pub ready : IsReady matches before k s
    pub is : is_package n ≡ true
    pub stored : IsStored matches before n s
    pub waiting : All (λ e. Waits s e × (n.id ≢ e.1.id)) rest

  pub record Attached (k : ℕ) (n : Node B M) (rest : Map ℕ (Node B M)) (type : String)
      (metadata : M) (name : String) (s : MockStorage B M) : Type 0 where
    pub node : Node B M
    pub made : MockStorage B M
    pub adds : add_node (mock_storage matches) type metadata name s ≡ (ok node, made)
    pub links :
        set_dependency (some n) (some (mock_storage matches)) (some node) made
        ≡ (ok (add_child node.id n, add_parent n.id node), linked n node made)
    pub visits : Visits k (add_child node.id n) rest (linked n node made)
    pub draws : Draws (λ a x. (n.id ≡ a) × (name ≡ x)) s (linked n node made)

  apart :
      (s : MockStorage B M) (n m : Node B M) (name : String)
      → m.name ≡ name
      → has_prefix name "pkg:" ≡ false
      → Stored m s
      → is_package n ≡ true
      → Stored n s
      → n.id ≢ m.id
  apart s n m name named other at_m is_pkg at_n same =
      let one : n ≡ m = ground (arith, same, at_n, at_m) in
      let clash : has_prefix n.name "pkg:" ≡ false =
        ap (λ (o : Node B M). has_prefix o.name "pkg:") one
        ∙ ap (λ x. has_prefix x "pkg:") named
        ∙ other in
      ground (arith, clash, is_pkg)

  pub attach :
      {k : ℕ} {s : MockStorage B M} (n : Node B M) (rest : Map ℕ (Node B M)) (type : String)
      (metadata : M) (name : String)
      → has_prefix name "pkg:" ≡ false
      → Visits (suc k) n rest s
      → Attached k n rest type metadata name s
  attach {k} {s} n rest type metadata name other v =
      let a = add_node-Added type metadata name v.ready in
      let up : s.faults.name_to_id_err ≡ none = rw v.ready.quiet refl in
      let room : s.id_counter + 1 < 2 ^ 32 = omega (arith, v.ready.room) in
      let after = ap (λ (r : Outcome (Node B M) × MockStorage B M). r.1) a.returns in
      let stays = λ (o : Node B M) (h : Stored o s).
        subst (Stored o) after
          (add_node_nodes matches type metadata name s v.ready.well_formed up room o.id o h) in
      let ready =
        subst (Ready k) after (add_node-IsReady matches before type metadata name v.ready) in
      let ne = apart a.state n a.node name a.named other a.stored v.is (stays n v.stored) in
      let up' : a.state.faults.save_node_err ≡ none = rw ready.quiet refl in
      record {
        node = a.node;
        made = a.state;
        adds = a.returns;
        draws =
            Draws-iff
              (Draws-both a.draws (linked-Draws n a.node a.state (stays n v.stored) a.stored ne))
              (λ b x. (
                λ d. elim d [ inl e ↦ absurd e | inr (from, to) ↦ (from, sym a.named ∙ to) ],
                λ (from, to). inr (from, a.named ∙ to),
              ));
        links = set_dependency_lem matches n a.node a.state up' ne;
        visits = record {
          ready = linked-IsReady matches before n a.node ready (stays n v.stored) a.stored ne;
          is = v.is;
          stored =
              lookup-insert_ne a.node.id n.id (add_parent n.id a.node) _ (λ e. ne (sym e))
              ∙ lookup-insert_self n.id (add_child a.node.id n) a.state.nodes;
          waiting =
              All-map
                (λ e (waits, later). (
                  λ is_pkg.
                      let there = stays e.1 (waits is_pkg) in
                      let ne' = apart a.state e.1 a.node name a.named other a.stored is_pkg there in
                      lookup-insert_ne a.node.id e.1.id (add_parent n.id a.node) _
                        (λ i. ne' (sym i))
                      ∙ lookup-insert_ne n.id e.1.id (add_child a.node.id n) a.state.nodes later
                      ∙ there,
                  later,
                ))
                rest v.waiting;
        };
      }
