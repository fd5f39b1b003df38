-- ===== src/Graph/Cycles/Ends.antt =====
-- `findCycles` ends: the recursion is no deeper than the nodes that are not numbered yet.
use minefield.Prelude.{
  ℕ, zero, suc, ◌+◌, ◌%◌, ◌^◌, ◌≤◌, ◌<◌, ◌≡◌, ◌∙◌, refl, sym, subst, arith, Bool-cases, none, some,
  Option-cases, inl, inr, List, [], ◌∷◌, ◌∈◌, length, nat_eq, Map, lookup, ok,
}
use minefield.Bitmap.{Bitmap}
use minefield.Graph.Node.{Node}
use minefield.Graph.Cycles.{
  Tarjan, read, lower, enter, leave, visit_children, tarjan_dfs, visit_ids, find_cycles,
}
use minefield.Graph.Cycles.Numbered.{
  HasNumber, unnumbered, unnumbered-le, insert-grows, unnumbered-insert, unnumbered-start,
  leave-numbers, Returns,
}

module _ {B M : Type 0} ⦃bm : Bitmap B⦄ (all_nodes : Map ℕ (Node B M))
    (closed : (id v : ℕ) (n : Node B M)
      → lookup id all_nodes ≡ some n
      → v ∈ bm.to_array n.children
      → (m : Node B M) × (lookup v all_nodes ≡ some m)) where
  abbrev IsStored : ℕ → Type 0
  IsStored id = (n : Node B M) × (lookup id all_nodes ≡ some n)

  abbrev Descends : ℕ → Type 0
  Descends fuel =
      (id : ℕ) (t : Tarjan B)
      → IsStored id
      → lookup id t.node_to_tarjan_id ≡ none
      → unnumbered t.node_to_tarjan_id all_nodes ≤ fuel
      → Returns t (tarjan_dfs all_nodes fuel id t)

  visit_children-Returns :
      (fuel : ℕ)
      → Descends fuel
      → (node_id : ℕ) (l : List ℕ) (t : Tarjan B) → ((v : ℕ) → v ∈ l → IsStored v)
      → unnumbered t.node_to_tarjan_id all_nodes ≤ fuel
      → Returns t (visit_children (tarjan_dfs all_nodes fuel) node_id l t)
  unfolding visit_children
  visit_children-Returns fuel descend node_id [] t stored enough = record {
    after = t;
    returns = refl;
    grows = λ k h. h;
  }
  visit_children-Returns fuel descend node_id (next ∷ rest) t stored enough =
      elim (Option-cases (lookup next t.node_to_tarjan_id)) [
        | inl fresh ↦
            let down = descend next t (stored next (inl refl)) fresh enough in
            let further =
              visit_children-Returns fuel descend node_id rest
                (lower node_id (read down.after.low_link next) down.after) (λ v m. stored v (inr m))
                (omega (arith, enough, unnumbered-le _ _ all_nodes down.grows)) in
            record {
              after = further.after;
              returns = rw (fresh, down.returns) further.returns;
              grows = λ k h. further.grows k (down.grows k h);
            }
        | inr (index, old) ↦ elim (Bool-cases (bm.contains t.in_stack next)) [
          | inl inside ↦
              let further =
                visit_children-Returns fuel descend node_id rest (lower node_id index t)
                  (λ v m. stored v (inr m)) enough in
              record {
                after = further.after;
                returns = rw (old, inside) further.returns;
                grows = further.grows;
              }
          | inr outside ↦
              let further =
                visit_children-Returns fuel descend node_id rest t (λ v m. stored v (inr m))
                  enough in
              record {
                after = further.after;
                returns = rw (old, outside) further.returns;
                grows = further.grows;
              }
        ]
      ]

  tarjan_dfs-Returns : (fuel : ℕ) → Descends fuel
  unfolding tarjan_dfs
  tarjan_dfs-Returns zero id t (n, found) fresh enough =
      let no : ⊥ =
        omega (arith, enough, unnumbered-insert id 0 n t.node_to_tarjan_id all_nodes found fresh) in
      elim no [ ]
  tarjan_dfs-Returns (suc fuel) id t (n, found) fresh enough =
      let visited =
        visit_children-Returns fuel (tarjan_dfs-Returns fuel) id (bm.to_array n.children)
          (enter id t) (λ v m. closed id v n found m)
          (omega (
            arith,
            enough,
            unnumbered-insert id ((t.current_tarjan_id + 1) % 2 ^ 32) n t.node_to_tarjan_id
                all_nodes found fresh,
          )) in
      record {
        after = leave id visited.after;
        returns = rw (found, visited.returns) refl;
        grows = λ k h. subst (HasNumber k) (sym (leave-numbers id visited.after)) (
            visited.grows k
              (insert-grows id ((t.current_tarjan_id + 1) % 2 ^ 32) t.node_to_tarjan_id k h));
      }

  visit_ids-fresh :
      (fuel left id : ℕ) (t t' : Tarjan B)
      → id % 2 ^ 32 ≡ id
      → lookup id t.node_to_tarjan_id ≡ none
      → tarjan_dfs all_nodes fuel id t ≡ (ok tt, t')
      → visit_ids all_nodes fuel (suc left) id t ≡ visit_ids all_nodes fuel left (id + 1) t'
  unfolding visit_ids
  visit_ids-fresh fuel left id t t' same fresh down = rw (same, fresh, same, down) refl

  visit_ids-old :
      (fuel left id number : ℕ) (t : Tarjan B)
      → id % 2 ^ 32 ≡ id
      → lookup id t.node_to_tarjan_id ≡ some number
      → visit_ids all_nodes fuel (suc left) id t ≡ visit_ids all_nodes fuel left (id + 1) t
  unfolding visit_ids
  visit_ids-old fuel left id number t same old = rw (same, old) refl

  visit_ids-Returns :
      (fuel left id : ℕ) (t : Tarjan B)
      → id + left ≤ 2 ^ 32
      → ((v : ℕ) → id ≤ v → v < id + left → IsStored v)
      → unnumbered t.node_to_tarjan_id all_nodes ≤ fuel
      → Returns t (visit_ids all_nodes fuel left id t)
  unfolding visit_ids
  visit_ids-Returns fuel zero id t small stored enough = record {
    after = t;
    returns = refl;
    grows = λ k h. h;
  }
  visit_ids-Returns fuel (suc left) id t small stored enough =
      let same : id % 2 ^ 32 ≡ id = omega (arith, small) in
      elim (Option-cases (lookup id t.node_to_tarjan_id)) [
        | inl fresh ↦
            let down =
              tarjan_dfs-Returns fuel id t (stored id (omega arith) (omega arith)) fresh enough in
            let further =
              visit_ids-Returns fuel left (id + 1) down.after (omega (arith, small))
                (λ v low high. stored v (omega (arith, low)) (omega (arith, high)))
                (omega (arith, enough, unnumbered-le _ _ all_nodes down.grows)) in
            record {
              after = further.after;
              returns =
                  visit_ids-fresh fuel left id t down.after same fresh down.returns
                  ∙ further.returns;
              grows = λ k h. further.grows k (down.grows k h);
            }
        | inr (number, old) ↦
            let further =
              visit_ids-Returns fuel left (id + 1) t (omega (arith, small))
                (λ v low high. stored v (omega (arith, low)) (omega (arith, high))) enough in
            record {
              after = further.after;
              returns = visit_ids-old fuel left id number t same old ∙ further.returns;
              grows = further.grows;
            }
      ]

  -- Where the nodes are stored under the ids from 1 on and every child is stored, `findCycles` ends
  -- with a result, with no panic and with a depth of recursion that the number of nodes bounds.
  pub find_cycles_returns :
      (fuel num_of_nodes : ℕ)
      → num_of_nodes < 2 ^ 32
      → ((v : ℕ) → 1 ≤ v → v ≤ num_of_nodes → IsStored v)
      → length all_nodes ≤ fuel
      → (low_link : Map ℕ ℕ) × (find_cycles all_nodes fuel num_of_nodes ≡ ok low_link)
  unfolding find_cycles
  find_cycles_returns fuel num_of_nodes small stored enough =
      let ends =
        visit_ids-Returns fuel num_of_nodes 1
          (record {
            stack = [];
            current_tarjan_id = 0;
            node_to_tarjan_id = [];
            low_link = [];
            in_stack = bm.empty;
          })
          (omega (arith, small)) (λ v low high. stored v low (omega (arith, high)))
          (omega (arith, enough, unnumbered-start all_nodes)) in
      (ends.after.low_link, rw ends.returns refl)
