-- ===== src/Ingest/Sbom/Exact.antt =====
-- Which dependencies `SBOM` adds to the graph.
use minefield.Prelude.{
  ℕ, ◌+◌, ◌^◌, ◌<◌, String, ◌≡◌, refl, sym, ap, subst, ◌∙◌, ◌↔◌, ◌⊎◌, inl, inr, Bool, Option, some,
  [], ◌∷◌, ◌∈◌, All, nat_eq, string_eq, Map, lookup, length, Outcome, ok, arith,
}
use minefield.Bitmap.{Bitmap}
use minefield.Graph.Node.{Node}
use minefield.Graph.Storage.{Bytes}
use minefield.Graph.Mock.{mock_storage}
use minefield.Graph.Mock.State.{MockStorage, no_faults}
use minefield.Graph.Build.Invariant.{IsWellFormed}
use minefield.Graph.Build.Drawn.{DependsOn, Draws-both}
use minefield.Ingest.Ready.{IsReady}
use minefield.Ingest.Sbom.{SbomEdge, NodeList, id_of, add_document, sbom}
use minefield.Ingest.Sbom.Kept.{NamedAt}
use minefield.Ingest.Sbom.Filled.{purls, Leads, add_nodes-Filled}
use minefield.Ingest.Sbom.Edged.{IsGiven, Targets, Starts, add_edges-Edged}

-- An edge of the document leads from the one package URL to the other.
abbrev pub IsStated : {M : Type 0} → NodeList M → String → String → Type 0
IsStated l y x =
    (e : SbomEdge) × (e ∈ l.edges)
    × ((lookup e.from (purls l.nodes []) ≡ some y) × Targets (purls l.nodes []) e.to y x)

module _ {B M : Type 0} ⦃bm : Bitmap B⦄ (matches : String → String → Outcome Bool)
    (before : MockStorage B M) where
  -- The edges that are drawn between ids, in terms of the names of the nodes.
  Starts-IsStated :
      (l : NodeList M) (ids : Map String ℕ) (t : MockStorage B M) (a : ℕ) (x : String)
      → IsReady matches before 0 t
      → Leads matches before ids (purls l.nodes []) t
      → ((e : SbomEdge) × (e ∈ l.edges) × Starts matches before ids (purls l.nodes []) e a x)
        ↔ ((n : Node B M) × (lookup a t.nodes ≡ some n) × IsStated l n.name x)
  Starts-IsStated l ids t a x r leads = (
    λ (e, there, (q, (y, at, ts))).
        let (n, found, named) = leads e.from y at in
        let stated : IsStated l n.name x = (
          e,
          there,
          (
            at ∙ ap some (sym named),
            subst (λ z. Targets (purls l.nodes []) e.to z x) (sym named) ts,
          ),
        ) in
        (n, ap (λ k. lookup k t.nodes) (sym q) ∙ found, stated),
    λ (n, here, (e, there, (at, ts))).
        let (m, found, named) = leads e.from n.name at in
        let (_, _, index) = r.well_formed.keyed (id_of ids e.from) m found in
        let (_, _, index') = r.well_formed.keyed a n here in
        let q : id_of ids e.from ≡ a = ground (arith, index, index', named) in
        (e, there, (q, (n.name, at, ts))),
  )

-- Where a document is read, each end of its edges is the id of one of its nodes, and an id is left for
-- each of its nodes, `SBOM` on a well-formed storage in memory that injects no error succeeds. The
-- package URL under each id of the document, that of the last node with the id, then names a stored
-- node. A node depends on a name exactly where it did before, or where an edge of the document leads
-- from its package URL to the name, which is another.
pub sbom-DependsOn :
    {B M : Type 0} ⦃bm : Bitmap B⦄ (matches : String → String → Outcome Bool)
    (parse : Bytes → Outcome (Option (NodeList M))) (b : ℕ) (bytes : Bytes) (l : NodeList M)
    (s : MockStorage B M)
    → parse (b ∷ bytes) ≡ ok (some l)
    → All (λ e. IsGiven (purls l.nodes []) e.from × All (IsGiven (purls l.nodes [])) e.to) l.edges
    → IsWellFormed s
    → s.faults ≡ no_faults
    → s.id_counter + length l.nodes < 2 ^ 32
    → let r = sbom (mock_storage matches) parse (b ∷ bytes) s in
      (r.0 ≡ ok tt)
      × ((id p : String) → lookup id (purls l.nodes []) ≡ some p → (a : ℕ) × NamedAt r.1 a p)
      × ((a : ℕ) (x : String)
          → DependsOn r.1 a x ↔ (
              DependsOn s a x
              ⊎ ((n : Node B M) × (lookup a r.1.nodes ≡ some n) × IsStated l n.name x)))
unfolding sbom add_document lookup
sbom-DependsOn matches parse b bytes l s h given w quiet room =
    let ready : IsReady matches s (length l.nodes) s = record {
      well_formed = w;
      quiet = quiet;
      room = room;
      kept = λ a b e. e;
    } in
    let f =
      add_nodes-Filled matches s l.nodes [] [] s ready
        (λ id p none_known. ground (arith, none_known)) in
    let d =
      add_edges-Edged matches s f.ids (purls l.nodes []) l.edges f.state f.ready f.leads given in
    let leads = λ (id p : String) (at : lookup id (purls l.nodes []) ≡ some p).
      d.names (id_of f.ids id) p (f.leads id p at) in
    let all = Draws-both f.draws d.draws in
    rw (h, f.returns, d.returns)
      (
        refl,
        (λ id p at. (id_of f.ids id, leads id p at)),
        (λ a x.
            let e = Starts-IsStated matches s l f.ids d.state a x d.ready leads in
            (
              λ there. elim ((all.exactly a x).0 there) [
                | inl old ↦ inl old
                | inr (inl none_new) ↦ absurd none_new
                | inr (inr new) ↦ inr (e.0 new)
              ],
              λ there. elim there [
                | inl old ↦ (all.exactly a x).1 (inl old)
                | inr new ↦ (all.exactly a x).1 (inr (inr (e.1 new)))
              ],
            )),
      )
