-- ===== src/Ingest/Sbom/Queried.antt =====
-- What `QueryDependencies` answers on the graph of a document that `SBOM` has ingested.
use minefield.Prelude.{
  ℕ, suc, ◌^◌, ◌<◌, ◌≤◌, String, ◌≡◌, refl, sym, ap, subst, ◌↔◌, ◌⊎◌, inl, inr, Bool, true, Option,
  some, [], ◌∷◌, All, nat_eq, string_eq, lookup, length, Outcome, ok, arith,
}
use minefield.Bitmap.{Bitmap}
use minefield.Graph.Node.{Node, children_direction}
use minefield.Graph.Storage.{Bytes}
use minefield.Graph.Mock.{mock_storage}
use minefield.Graph.Mock.State.{MockStorage, new_mock_storage}
use minefield.Graph.Build.Invariant.{IsWellFormed}
use minefield.Graph.Build.Drawn.{DependsOn}
use minefield.Graph.Build.Runs.{Run-IsWellFormed, new}
use minefield.Graph.Query.{query_bitmap}
use minefield.Graph.Query.Reach.{Reach, here, step, degree_sum}
use minefield.Graph.Query.Correct.{query_dependencies_correct}
use minefield.Ingest.Ready.{IsReady}
use minefield.Ingest.Sbom.{NodeList, sbom}
use minefield.Ingest.Sbom.Kept.{sbom-IsReady}
use minefield.Ingest.Sbom.Filled.{purls}
use minefield.Ingest.Sbom.Edged.{IsGiven}
use minefield.Ingest.Sbom.Exact.{IsStated, sbom-DependsOn}

-- Edges of the document lead from the one package URL to the other.
pub data Chain {M : Type 0} (l : NodeList M) (y : String) : String → Type 0 where
  start : Chain l y y
  further : {x z : String} → Chain l y x → IsStated l x z → Chain l y z

module _ {B M : Type 0} ⦃bm : Bitmap B⦄ (l : NodeList M) (t : MockStorage B M) (w : IsWellFormed t)
    (exact : (a : ℕ) (x : String)
      → DependsOn t a x ↔ (
          DependsOn {B = B} {M = M} new_mock_storage a x
          ⊎ ((n : Node B M) × (lookup a t.nodes ≡ some n) × IsStated l n.name x)))
    (n : Node B M) (stored : lookup n.id t.nodes ≡ some n) where
  abbrev Reached : ℕ → ℕ → Type 0
  Reached = Reach (λ (m : Node B M). m.children) t.nodes

  -- A node that is reached is stored under the name that the edges lead to.
  Chain-Reached :
      {v : ℕ}
      → Reached n.id v
      → (m : Node B M) × (lookup v t.nodes ≡ some m) × Chain l n.name m.name
  unfolding lookup
  Chain-Reached here = (n, stored, start)
  Chain-Reached {v} (step {u} r (p, there, has)) =
      let (q, at, chain) = Chain-Reached r in
      let same : q ≡ p = ground (arith, at, there) in
      let (m, found, _) = w.has_parent u v p there has in
      elim ((exact u m.name).0 (v, m, (p, there, has), found, refl)) [
        | inl (_, _, (_, empty, _), _, _) ↦ absurd (ground (arith, empty))
        | inr (o, at', stated) ↦
            let one : o ≡ q = ground (arith, at, at') in
            let e : o.name ≡ q.name = ap (λ (k : Node B M). k.name) one in
            (m, found, further chain (subst (λ y. IsStated l y m.name) e stated))
      ]

  Reached-Chain :
      {x : String}
      → Chain l n.name x
      → (v : ℕ) × (m : Node B M) × (lookup v t.nodes ≡ some m) × (m.name ≡ x) × Reached n.id v
  Reached-Chain start = (n.id, n, stored, refl, here)
  Reached-Chain (further {x} {z} c stated) =
      let (u, p, there, named, r) = Reached-Chain c in
      let (v, m, (o, at, has), found, name) =
        (exact u z).1 (inr (p, there, subst (λ y. IsStated l y z) (sym named) stated)) in
      (v, m, found, name, step r (o, at, has))

-- After a document whose edges join ids of its nodes is ingested into the empty storage in memory,
-- with an id for each of its nodes, and with fuel above the number of edges, the query of the
-- dependencies of a stored node returns the ids of the nodes whose package URL its edges lead to from
-- the node's, itself among them, and no others.
pub sbom-query_dependencies :
    {B M : Type 0} ⦃bm : Bitmap B⦄ (matches : String → String → Outcome Bool)
    (parse : Bytes → Outcome (Option (NodeList M))) (b : ℕ) (bytes : Bytes) (l : NodeList M)
    (t : MockStorage B M) (n : Node B M) (fuel : ℕ)
    → parse (b ∷ bytes) ≡ ok (some l)
    → All (λ e. IsGiven (purls l.nodes []) e.from × All (IsGiven (purls l.nodes [])) e.to) l.edges
    → length l.nodes < 2 ^ 32
    → (sbom (mock_storage matches) parse (b ∷ bytes) new_mock_storage).1 ≡ t
    → lookup n.id t.nodes ≡ some n
    → suc (degree_sum (λ (m : Node B M). m.children) t.nodes) ≤ fuel
    → (out : B) × (query_bitmap fuel (some n) (some (mock_storage matches)) children_direction t
        ≡ (ok out, t))
      × ((v : ℕ)
          → (bm.contains out v ≡ true)
            ↔ ((m : Node B M) × (lookup v t.nodes ≡ some m) × Chain l n.name m.name))
sbom-query_dependencies {B} {M} matches parse b bytes l t n fuel h given room made stored enough =
    let w : IsWellFormed {B = B} {M = M} new_mock_storage = Run-IsWellFormed matches new in
    let (_, _, exact) =
      sbom-DependsOn matches parse b bytes l new_mock_storage h given w refl
        (omega (arith, room)) in
    let ready = subst (IsReady matches new_mock_storage 0) made (
      sbom-IsReady matches new_mock_storage parse (b ∷ bytes) l new_mock_storage h (record {
        well_formed = w;
        quiet = refl;
        room = omega (arith, room);
        kept = λ a b e. e;
      })) in
    let exact' =
      subst
        (λ (u : MockStorage B M).
          (a : ℕ) (x : String)
          → DependsOn u a x ↔ (
              DependsOn {B = B} {M = M} new_mock_storage a x
              ⊎ ((n : Node B M) × (lookup a u.nodes ≡ some n) × IsStated l n.name x)))
        made exact in
    let q =
      query_dependencies_correct matches t n fuel ready.well_formed (rw ready.quiet refl) stored
        enough in
    (
      q.out,
      q.returns,
      λ v. (
        λ has. Chain-Reached l t ready.well_formed exact' n stored ((q.answer v).0 has),
        λ (m, found, chain).
            let (v', m', found', named, r) =
              Reached-Chain l t ready.well_formed exact' n stored chain in
            let (_, _, index) = ready.well_formed.keyed v m found in
            let (_, _, index') = ready.well_formed.keyed v' m' found' in
            let same : v' ≡ v = ground (arith, index, index', named) in
            (q.answer v).1
              (subst (λ k. Reach (λ (m : Node B M). m.children) t.nodes n.id k) same r),
      ),
    )
