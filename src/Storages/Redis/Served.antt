-- ===== src/Storages/Redis/Served.antt =====
-- A service over Redis, from an empty server: requests that build the graph, one behind the other,
-- whether they succeed or fail; then queries.
use minefield.Prelude.{
  ℕ, ◌+◌, ◌^◌, ◌<◌, ◌≤◌, ◌≡◌, refl, ◌∙◌, ◌⊎◌, context, Error, errorf, ap, sym, subst, arith, String,
  Bool, some, Option-cases, inl, inr, List, [], ◌∷◌, lookup, nat_eq, Outcome, ok, err, panic,
  out_of_fuel, Action, continue, pure,
}
use native.Mathlib.Decide.{ℕ_discrete}
use minefield.Bitmap.{Bitmap}
use minefield.Graph.Node.{Node}
use minefield.Graph.Storage.{Storage, Bytes}
use minefield.Graph.Mock.{mock_storage}
use minefield.Graph.Mock.State.{MockStorage, Faults, no_faults}
use minefield.Graph.Mock.Quiet.{get_node-quiet}
use minefield.Graph.Build.{add_node as add_graph_node, set_dependency as set_graph_dependency}
use minefield.Graph.Build.Invariant.{IsWellFormed}
use minefield.Graph.Build.AddNode.{add_node-IsWellFormed, add_node_keeps}
use minefield.Graph.Build.SetDependency.{
  set_dependency-IsWellFormed, set_dependency_lem, set_dependency_self,
}
use minefield.Service.{ServiceNode, add_node, set_dependency}

pub data Request : Type 0 where
  adding : ServiceNode → Request
  depending : ℕ → ℕ → Request

module _ {S B M : Type 0} ⦃bm : Bitmap B⦄ (storage : Storage S B M) (marshal : M → Outcome Bytes)
    (unpack : Bytes → M) where
  -- the storage behind a request, whatever it answers
  unfoldable pub handle : Request → S → S
  handle (adding request) s = (add_node storage marshal unpack request s).1
  handle (depending node_id dependency_id) s =
      (set_dependency storage marshal node_id dependency_id s).1

  unfoldable pub serve : List Request → S → S
  unfolding handle
  serve [] s = s
  serve (request ∷ requests) s = serve requests (handle request s)

continue-state :
    {S A B : Type 0} (x : Outcome A × S) (f : A → Action S B)
    → ((a : A) (s : S) → (f a s).1 ≡ s)
    → (continue f x).1 ≡ x.1
continue-state (ok a, s) f keeps = keeps a s
continue-state (err e, s) f keeps = refl
continue-state (panic, s) f keeps = refl
continue-state (out_of_fuel, s) f keeps = refl

module _ {B M : Type 0} ⦃bm : Bitmap B⦄ (matches : String → String → Outcome Bool)
    (marshal : M → Outcome Bytes) (unpack : Bytes → M) (m : MockStorage B M)
    (quiet : m.faults ≡ no_faults) (w : IsWellFormed m) (room : m.id_counter + 1 < 2 ^ 32) where
  abbrev Keeps : MockStorage B M → Type 0
  Keeps m' = IsWellFormed m' × (m'.id_counter ≤ m.id_counter + 1)

  pub adding-Keeps :
      (request : ServiceNode)
      → Keeps (handle (mock_storage matches) marshal unpack (adding request) m)
  unfolding handle add_node
  adding-Keeps request =
      subst Keeps
        (sym (
          continue-state
            (context "failed to add node: %w"
              (add_graph_node (mock_storage matches) request.type (unpack request.metadata)
                request.name)
              m)
            _ (λ _ _. refl)))
        (
          add_node-IsWellFormed matches request.type (unpack request.metadata) request.name m w room
              (ap (λ (f : Faults). f.name_to_id_err) quiet),
          (add_node_keeps matches request.type (unpack request.metadata) request.name m
              (ap (λ (f : Faults). f.name_to_id_err) quiet) room).1,
        )

  linking-Keeps :
      (n k : Node B M)
      → lookup n.id m.nodes ≡ some n
      → lookup k.id m.nodes ≡ some k
      → Keeps (set_graph_dependency (some n) (some (mock_storage matches)) (some k) m).1
  linking-Keeps n k stored stored' =
      let up = ap (λ (f : Faults). f.save_node_err) quiet in
      (
        set_dependency-IsWellFormed matches n k m up stored stored' w,
        elim (ℕ_discrete n.id k.id) [
          | yes e ↦ rw (set_dependency_self matches n k m e) (omega arith)
          | no ne ↦ rw (set_dependency_lem matches n k m up ne) (omega arith)
        ],
      )

  abbrev link : Node B M → Node B M → Outcome (Node B M × Node B M) × MockStorage B M
  link n k = set_graph_dependency (some n) (some (mock_storage matches)) (some k) m

  abbrev dependent : ℕ → ℕ → Outcome (Unit {0}) × MockStorage B M
  dependent i j = set_dependency (mock_storage matches) marshal i j m

  -- A node is missing and nothing is written, or the two that are stored are linked.
  depending-cases :
      (i j : ℕ)
      → ((e : Error) × (dependent i j ≡ (err e, m)))
        ⊎ (n : Node B M) × (k : Node B M) × (lookup i m.nodes ≡ some n)
          × (lookup j m.nodes ≡ some k)
          × (dependent i j ≡ continue (λ _. pure tt) (link n k))
  unfolding set_dependency
  depending-cases i j = elim (Option-cases (lookup i m.nodes)) [
    | inl no_node ↦ inl (errorf "node %v not found", rw (get_node-quiet m quiet i, no_node) refl)
    | inr (n, found) ↦ elim (Option-cases (lookup j m.nodes)) [
      | inl no_node ↦ inl (
        errorf "node %v not found",
        rw (get_node-quiet m quiet i, found, get_node-quiet m quiet j, no_node) refl,
      )
      | inr (k, found') ↦ inr (
        n,
        k,
        found,
        found',
        rw (get_node-quiet m quiet i, found, get_node-quiet m quiet j, found') refl,
      )
    ]
  ]

  pub depending-Keeps :
      (i j : ℕ) → Keeps (handle (mock_storage matches) marshal unpack (depending i j) m)
  unfolding handle
  depending-Keeps i j = elim (depending-cases i j) [
    | inl (_, e) ↦ subst Keeps (sym (ap (λ x. x.1) e)) (w, omega arith)
    | inr (n, k, found, found', e) ↦
        subst Keeps (sym (ap (λ x. x.1) e ∙ continue-state (link n k) _ (λ _ _. refl))) (
          linking-Keeps n k (ap (λ id. lookup id m.nodes) (w.keyed i n found).0 ∙ found)
            (ap (λ id. lookup id m.nodes) (w.keyed j k found').0 ∙ found'))
  ]
