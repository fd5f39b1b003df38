-- ===== src/Graph/Tests/Cycles.antt =====
-- A witness for the end of `findCycles`.
use minefield.Prelude.{ℕ, List, ◌≡◌, refl, arith, some, ◌∈◌, Map, lookup, nat_eq, ok, ◌≤◌}
use native.Mathlib.Decide.{ℕ_discrete}
use minefield.Bitmap.Listed.{listed}
use minefield.Graph.Node.{Node}
use minefield.Graph.Build.{add_child, add_parent}
use minefield.Graph.Cycles.{find_cycles}
use minefield.Graph.Cycles.Ends.{find_cycles_returns}
use minefield.Graph.Tests.Data.{Meta, node_a, node_b, chain}
use minefield.Graph.Tests.Build.{chain-IsWellFormed}

chain_closed :
    (id v : ℕ) (n : Node (List ℕ) Meta)
    → lookup id chain.nodes ≡ some n
    → v ∈ listed.to_array n.children
    → (m : Node (List ℕ) Meta) × (lookup v chain.nodes ≡ some m)
chain_closed id v n found child =
    let (m, there, _) =
      chain-IsWellFormed.has_parent id v n found ((listed.mem-to_array n.children v).0 child) in
    (m, there)

chain_stored : (v : ℕ) → 1 ≤ v → v ≤ 2 → (n : Node (List ℕ) Meta) × (lookup v chain.nodes ≡ some n)
unfolding lookup
chain_stored v low high = elim (ℕ_discrete v 1) [
  | yes e ↦ (add_child 2 node_a, rw e refl)
  | no ne ↦ let e : v ≡ 2 = omega (arith, ne) in (add_parent 1 node_b, rw e refl)
]

find_cycles_returns_example : (low_link : Map ℕ ℕ) × (find_cycles chain.nodes 2 2 ≡ ok low_link)
find_cycles_returns_example =
    find_cycles_returns chain.nodes chain_closed 2 2 (omega arith) chain_stored (omega arith)
