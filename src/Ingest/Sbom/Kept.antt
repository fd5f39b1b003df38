-- ===== src/Ingest/Sbom/Kept.antt =====
-- `SBOM` keeps the invariant and the edges of the graph.
use minefield.Prelude.{
  attempt-keeps, continue-keeps, ℕ, ◌+◌, ◌^◌, ◌<◌, String, ◌≡◌, refl, sym, ap, ◌≢◌, ◌∙◌, ◌⊎◌, inl,
  inr, Bool, Option, none, some, List, [], ◌∷◌, nat_eq, string_eq, nat_beq_iff, Map, lookup, insert,
  lookup-insert_self, lookup-insert_ne, length, Option-cases, Bool-cases, errorf, Outcome, ok, err,
  arith,
}
use native.Mathlib.Decide.{ℕ_discrete}
use minefield.Bitmap.{Bitmap}
use minefield.Graph.Node.{Node}
use minefield.Graph.Storage.{Bytes}
use minefield.Graph.Mock.{mock_storage, get_node}
use minefield.Graph.Mock.State.{MockStorage, no_faults}
use minefield.Graph.Build.{add_node, add_child, add_parent}
use minefield.Graph.Build.Invariant.{IsWellFormed, Edge}
use minefield.Graph.Build.Linked.{linked, updated}
use minefield.Graph.Build.Drawn.{Draws, Draws-none, Draws-iff, linked-Draws}
use minefield.Graph.Build.SetDependency.{set_dependency_lem}
use minefield.Ingest.Ready
use minefield.Ingest.Ready.{IsStored, fewer_left, linked-IsReady}
use minefield.Ingest.Sbom.{
  SbomNode, SbomEdge, NodeList, purl_of, id_of, is_already_exists, add_nodes, add_edge, add_targets,
  add_edges, add_document, sbom,
}

-- The node with the id has the name.
abbrev pub NamedAt : {B M : Type 0} → MockStorage B M → ℕ → String → Type 0
NamedAt {B} {M} s i x = (m : Node B M) × (lookup i s.nodes ≡ some m) × (m.name ≡ x)

module _ {B M : Type 0} ⦃bm : Bitmap B⦄ (matches : String → String → Outcome Bool)
    (before : MockStorage B M) where
  abbrev pub IsReady : ℕ → MockStorage B M → Type 0
  IsReady = Ready.IsReady matches before

  pub add_nodes-IsReady :
      (ns : List (SbomNode M)) (s : MockStorage B M) (ids : Map String ℕ)
      → IsReady (length ns) s
      → IsReady 0 (add_nodes (mock_storage matches) ns ids s).1
  unfolding add_nodes
  add_nodes-IsReady [] s ids r = r
  add_nodes-IsReady (n ∷ ns) s ids r =
      attempt-keeps (IsReady (length ns)) (IsReady 0)
        (add_node (mock_storage matches) "library" n.metadata (purl_of n) s) _ _
        (Ready.add_node-IsReady matches before "library" n.metadata (purl_of n) r)
        (λ t. fewer_left matches before t (omega arith))
        (λ node t p. add_nodes-IsReady ns t (insert n.id node.id ids) p)
        (λ e t p. elim (Bool-cases (is_already_exists e)) [
          | inl h ↦ rw h (fewer_left matches before t (omega arith) p)
          | inr h ↦ rw h (fewer_left matches before t (omega arith) p)
        ])

  pub get_cases :
      {s : MockStorage B M} (id : ℕ)
      → IsReady 0 s
      → (get_node id s ≡ (err (errorf "node %v not found"), s))
        ⊎ ((n : Node B M) × (get_node id s ≡ (ok n, s)) × IsStored matches before n s)
  unfolding get_node
  get_cases {s} id r = elim (Option-cases (lookup id s.nodes)) [
    | inl missing ↦ inl (ground (arith, missing, r.quiet))
    | inr (n, found) ↦
        let e : n.id ≡ id = (r.well_formed.keyed id n found).0 in
        inr (n, ground (arith, found, r.quiet), ground (arith, e, found))
  ]

  -- Behind an edge the storage is ready, and the start is stored as it is returned. An edge is drawn
  -- where the names differ.
  pub record Joined (n m : Node B M) (s : MockStorage B M)
      (r : Outcome (Node B M) × MockStorage B M) : Type 0 where
    pub start : Node B M
    pub state : MockStorage B M
    pub returns : r ≡ (ok start, state)
    pub ready : IsReady 0 state
    pub stored : IsStored matches before start state
    pub same_id : start.id ≡ n.id
    pub same_name : start.name ≡ n.name
    pub names : (i : ℕ) (x : String) → NamedAt s i x → NamedAt state i x
    pub draws : Draws (λ a x. (n.id ≡ a) × ((m.name ≡ x) × (n.name ≢ x))) s state

  other_names :
      (n m : Node B M) (s : MockStorage B M)
      → IsReady 0 s
      → IsStored matches before n s
      → IsStored matches before m s
      → n.id ≢ m.id
      → n.name ≢ m.name
  other_names n m s r stored stored' ne e =
      let (_, _, index) = r.well_formed.keyed n.id n stored in
      let (_, _, index') = r.well_formed.keyed m.id m stored' in
      ne (ground (arith, index, index', e))

  pub add_edge-Joined :
      {s : MockStorage B M} (n m : Node B M)
      → IsReady 0 s
      → IsStored matches before n s
      → IsStored matches before m s
      → Joined n m s (add_edge (mock_storage matches) n m s)
  unfolding add_edge
  add_edge-Joined {s} n m r stored stored' = elim (ℕ_discrete n.id m.id) [
    | yes e ↦
        let same : n ≡ m = ground (arith, e, stored, stored') in
        record {
          start = n;
          state = s;
          returns = ground (arith, e, nat_beq_iff n.id m.id);
          ready = r;
          stored = stored;
          same_id = refl;
          same_name = refl;
          names = λ i x h. h;
          draws = Draws-iff (Draws-none s) (λ a x.
              (λ d. absurd d, λ (_, (p, apart)). apart (ap (λ (k : Node B M). k.name) same ∙ p)));
        }
    | no ne ↦
        let up : s.faults.save_node_err ≡ none = rw r.quiet refl in
        let made = set_dependency_lem matches n m s up ne in
        let apart = other_names n m s r stored stored' ne in
        record {
          start = add_child m.id n;
          state = linked n m s;
          returns = ground (arith, made, nat_beq_iff n.id m.id);
          ready = linked-IsReady matches before n m r stored stored' ne;
          stored =
              lookup-insert_ne m.id n.id (add_parent n.id m) _ (λ e. ne (sym e))
              ∙ lookup-insert_self n.id (add_child m.id n) s.nodes;
          same_id = refl;
          same_name = refl;
          names = λ i x (o, there, named).
              let (p, now, u) = updated n m s stored stored' ne i o there in
              (p, now, u.same_name ∙ named);
          draws =
              Draws-iff (linked-Draws n m s stored stored' ne)
                (λ a x. (λ (p, q). (p, (q, λ e. apart (e ∙ sym q))), λ (p, (q, _)). (p, q)));
        }
  ]

  pub add_targets-IsReady :
      (ids : Map String ℕ) (tos : List String) (s : MockStorage B M) (n : Node B M)
      → IsReady 0 s
      → IsStored matches before n s
      → IsReady 0 (add_targets (mock_storage matches) ids n tos s).1
  unfolding add_targets
  add_targets-IsReady ids [] s n r stored = r
  add_targets-IsReady ids (to ∷ tos) s n r stored = elim (get_cases (id_of ids to) r) [
    | inl e ↦ rw e r
    | inr (m, e, stored') ↦
        let j = add_edge-Joined n m r stored stored' in
        rw (e, j.returns) (add_targets-IsReady ids tos j.state j.start j.ready j.stored)
  ]

  add_edges-IsReady :
      (ids : Map String ℕ) (es : List SbomEdge) (s : MockStorage B M)
      → IsReady 0 s
      → IsReady 0 (add_edges (mock_storage matches) ids es s).1
  unfolding add_edges
  add_edges-IsReady ids [] s r = r
  add_edges-IsReady ids (e ∷ es) s r = elim (get_cases (id_of ids e.from) r) [
    | inl missing ↦ rw missing r
    | inr (n, found, stored) ↦ rw found (
        continue-keeps (IsReady 0) (add_targets (mock_storage matches) ids n e.to s)
          (λ _. add_edges (mock_storage matches) ids es) (add_targets-IsReady ids e.to s n r stored)
          (λ _ t r'. add_edges-IsReady ids es t r'))
  ]

  add_document-IsReady :
      (l : NodeList M) (s : MockStorage B M)
      → IsReady (length l.nodes) s
      → IsReady 0 (add_document (mock_storage matches) l s).1
  unfolding add_document
  add_document-IsReady l s r =
      continue-keeps (IsReady 0) (add_nodes (mock_storage matches) l.nodes [] s)
        (λ ids. add_edges (mock_storage matches) ids l.edges) (add_nodes-IsReady l.nodes s [] r)
        (λ ids t r'. add_edges-IsReady ids l.edges t r')

  pub sbom-IsReady :
      (parse : Bytes → Outcome (Option (NodeList M))) (bytes : Bytes) (l : NodeList M)
      (s : MockStorage B M)
      → parse bytes ≡ ok (some l)
      → IsReady (length l.nodes) s
      → IsReady 0 (sbom (mock_storage matches) parse bytes s).1
  unfolding sbom
  sbom-IsReady parse [] l s h r = fewer_left matches before s (omega arith) r
  sbom-IsReady parse (x ∷ bytes) l s h r = rw h (add_document-IsReady l s r)

-- A document is ingested into a well-formed storage in memory that injects no error and has an id
-- left for each of its nodes: the storage stays well-formed and keeps all of its edges, also where
-- the ingestion ends early.
pub sbom_lem :
    {B M : Type 0} ⦃bm : Bitmap B⦄ (matches : String → String → Outcome Bool)
    (parse : Bytes → Outcome (Option (NodeList M))) (bytes : Bytes) (l : NodeList M)
    (s : MockStorage B M)
    → parse bytes ≡ ok (some l)
    → IsWellFormed s
    → s.faults ≡ no_faults
    → s.id_counter + length l.nodes < 2 ^ 32
    → IsWellFormed (sbom (mock_storage matches) parse bytes s).1
      × ((a b : ℕ) → Edge s a b → Edge (sbom (mock_storage matches) parse bytes s).1 a b)
sbom_lem matches parse bytes l s h w quiet room =
    let r =
      sbom-IsReady matches s parse bytes l s h
        (record { well_formed = w; quiet = quiet; room = room; kept = λ a b e. e }) in
    (r.well_formed, r.kept)
