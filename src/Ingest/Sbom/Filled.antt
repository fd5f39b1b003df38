-- ===== src/Ingest/Sbom/Filled.antt =====
-- The loop of `SBOM` over the nodes: the ids of the document lead to nodes of their package URLs.
use minefield.Prelude.{
  ℕ, ◌+◌, ◌^◌, ◌<◌, String, ◌≡◌, refl, sym, ap, subst, inl, inr, Bool, Option, none, some, List, [],
  ◌∷◌, nat_eq, string_eq, Map, lookup, insert, lookup-insert_at, lookup-insert_ne,
  lookup-insert_cases, length, Outcome, ok, arith,
}
use minefield.Bitmap.{Bitmap}
use minefield.Graph.Node.{Node}
use minefield.Graph.Mock.{mock_storage}
use minefield.Graph.Mock.State.{MockStorage}
use minefield.Graph.Build.AddNode.{add_node_nodes}
use minefield.Graph.Build.Drawn.{Draws, Draws-none, Draws-both, Draws-iff}
use minefield.Ingest.Ready.{IsReady, add_node-IsReady}
use minefield.Ingest.Attached.{add_node-Added}
use minefield.Ingest.Sbom.{SbomNode, purl_of, id_of, add_nodes}
use minefield.Ingest.Sbom.Kept.{NamedAt}

-- The package URLs under the ids of a document; the last node with an id counts.
abbrev pub purls : {M : Type 0} → List (SbomNode M) → Map String String → Map String String
purls [] known = known
purls (n ∷ ns) known = purls ns (insert n.id (purl_of n) known)

module _ {B M : Type 0} ⦃bm : Bitmap B⦄ (matches : String → String → Outcome Bool)
    (before : MockStorage B M) where
  -- An id of the document leads to the stored node of its package URL.
  abbrev pub Leads : Map String ℕ → Map String String → MockStorage B M → Type 0
  Leads ids known s = (id p : String) → lookup id known ≡ some p → NamedAt s (id_of ids id) p

  pub record Filled (known : Map String String) (s : MockStorage B M)
      (r : Outcome (Map String ℕ) × MockStorage B M) : Type 0 where
    pub ids : Map String ℕ
    pub state : MockStorage B M
    pub returns : r ≡ (ok ids, state)
    pub ready : IsReady matches before 0 state
    pub leads : Leads ids known state
    pub draws : Draws (λ a x. ⊥) s state

  insert-Leads :
      (id p : String) (i : ℕ) (ids : Map String ℕ) (known : Map String String) (s : MockStorage B M)
      → NamedAt s i p
      → Leads ids known s
      → Leads (insert id i ids) (insert id p known) s
  insert-Leads id p i ids known s here leads other q h =
      elim (lookup-insert_cases id other p q known h) [
        | inl (e, same) ↦
            let at : i ≡ id_of (insert id i ids) other =
              ap (λ (o : Option ℕ). elim o [ none ↦ 0 | some k ↦ k ])
                (sym (lookup-insert_at id other i ids e)) in
            subst (λ k. NamedAt s k q) at (subst (NamedAt s i) same here)
        | inr (ne, old) ↦
            let at : id_of ids other ≡ id_of (insert id i ids) other =
              ap (λ (o : Option ℕ). elim o [ none ↦ 0 | some k ↦ k ])
                (sym (lookup-insert_ne id other i ids ne)) in
            subst (λ k. NamedAt s k q) at (leads other q old)
      ]

  pub add_nodes-Filled :
      (ns : List (SbomNode M)) (ids : Map String ℕ) (known : Map String String)
      (s : MockStorage B M)
      → IsReady matches before (length ns) s
      → Leads ids known s
      → Filled (purls ns known) s (add_nodes (mock_storage matches) ns ids s)
  unfolding add_nodes
  add_nodes-Filled [] ids known s r leads = record {
    ids = ids;
    state = s;
    returns = refl;
    ready = r;
    leads = leads;
    draws = Draws-none s;
  }
  add_nodes-Filled (n ∷ ns) ids known s r leads =
      let a = add_node-Added matches before {k = length ns} "library" n.metadata (purl_of n) r in
      let up : s.faults.name_to_id_err ≡ none = rw r.quiet refl in
      let room : s.id_counter + 1 < 2 ^ 32 = omega (arith, r.room) in
      let after = ap (λ (q : Outcome (Node B M) × MockStorage B M). q.1) a.returns in
      let stays = λ (i : ℕ) (o : Node B M) (h : lookup i s.nodes ≡ some o).
        subst (λ (t : MockStorage B M). lookup i t.nodes ≡ some o) after
          (add_node_nodes matches "library" n.metadata (purl_of n) s r.well_formed up room i o h) in
      let ready =
        subst (IsReady matches before (length ns)) after
          (add_node-IsReady matches before "library" n.metadata (purl_of n) r) in
      let leads' =
        insert-Leads n.id (purl_of n) a.node.id ids known a.state (a.node, a.stored, a.named)
          (λ id p h.
            let (o, there, named) = leads id p h in (o, stays (id_of ids id) o there, named)) in
      let f =
        add_nodes-Filled ns (insert n.id a.node.id ids) (insert n.id (purl_of n) known) a.state
          ready leads' in
      record {
        ids = f.ids;
        state = f.state;
        returns = rw a.returns f.returns;
        ready = f.ready;
        leads = f.leads;
        draws =
            Draws-iff (Draws-both a.draws f.draws)
              (λ a x. (λ d. elim d [ inl e ↦ e | inr e ↦ e ], inl));
      }
