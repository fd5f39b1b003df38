-- ===== src/Service/HeapTests.antt =====
-- A heap as a list, of which each element may be the first, and a witness for the leaderboard.
use minefield.Prelude.{
  ℕ, suc, ◌≤◌, ◌≡◌, ◌↔◌, ◌⊎◌, refl, sym, subst, ap, inl, inr, ⊎_elim, false, true, Bool-cases,
  Option, none, some, String, ◌==◌, string_eq, nat_eq, List, [], ◌∷◌, ◌++◌, ◌∈◌, length, lookup,
  insert, if◌then◌else◌, arith, Outcome, ok, panic, Error, errorf,
}
use minefield.Bitmap.Listed.{listed}
use minefield.Graph.Storage.{Bytes}
use minefield.Graph.Node.{Node, new_node_cache}
use minefield.Graph.Build.{add_child, add_parent}
use minefield.Graph.Mock.{mock_storage, to_be_cached, get_all_keys, get_nodes, get_caches}
use minefield.Graph.Parser.{
  Expression, expression, nil_expression, query, parse_and_execute, index_names, resolve,
  collect_packages, collect_packages_from_expression, iterate_expression, iterate_query,
}
use minefield.Graph.Query.{batch_query_dependencies, batch_query_dependents}
use minefield.Graph.Tests.Data.{Meta, Store, all_match, node_a, node_b, chain}
use minefield.Service.{pointers}
use minefield.Service.QueryHeap.{Ranking, Heap, query_heap, shorter}
use minefield.Service.QueryHeap.Sequence.{KeepsHeaps}
use minefield.Service.Leaderboard.{ServiceRanking, named_nodes, custom_leaderboard}
use minefield.Service.Leaderboard.Ranked.{IsDescending, entry}
use minefield.Service.Leaderboard.Listed.{replied, custom_leaderboard_lem}

abbrev Entry : Type 0
Entry = Ranking (List ℕ) Meta

-- the element with the shortest output, and the others
abbrev extract : Entry → List Entry → Entry × List Entry
extract q [] = (q, [])
extract q (p ∷ l) =
    let (m, rest) = extract (if shorter p q then p else q) l in
    (m, (if shorter p q then q else p) ∷ rest)

length-extract : (q : Entry) (l : List Entry) → length (extract q l).1 ≡ length l
length-extract q [] = refl
length-extract q (p ∷ l) = ap suc (length-extract (if shorter p q then p else q) l)

extract-le : (q : Entry) (l : List Entry) → length (extract q l).0.output ≤ length q.output
extract-le q [] = omega arith
extract-le q (p ∷ l) = elim (Bool-cases (shorter p q)) [
  | inl t ↦ ground (arith, t, extract-le p l)
  | inr f ↦ ground (arith, f, extract-le q l)
]

mem-extract :
    (q : Entry) (l : List Entry) (x : Entry)
    → (x ∈ q ∷ l) ↔ ((x ≡ (extract q l).0) ⊎ (x ∈ (extract q l).1))
mem-extract q [] x = ground arith
mem-extract q (p ∷ l) x = elim (Bool-cases (shorter p q)) [
  | inl t ↦
      let ih = mem-extract p l x in
      rw t (
        ⊎_elim (λ e. inr (inl e)) (λ r. ⊎_elim inl (λ k. inr (inr k)) (ih.0 r)),
        ⊎_elim (λ e. inr (ih.1 (inl e))) (⊎_elim inl (λ k. inr (ih.1 (inr k)))),
      )
  | inr f ↦
      let ih = mem-extract q l x in
      let down = ⊎_elim inl (λ k. inr (inr k)) in
      let up = ⊎_elim inl (λ k. inr (inr k)) in
      rw f (
        ⊎_elim (λ e. down (ih.0 (inl e))) (⊎_elim (λ e. inr (inl e)) (λ k. down (ih.0 (inr k)))),
        ⊎_elim (λ e. up (ih.1 (inl e))) (⊎_elim (λ e. inr (inl e)) (λ k. up (ih.1 (inr k)))),
      )
]

extract-least :
    (q : Entry) (l : List Entry) (x : Entry)
    → x ∈ (extract q l).1
    → length (extract q l).0.output ≤ length x.output
extract-least q [] x m = elim m [ ]
extract-least q (p ∷ l) x m =
    ⊎_elim
      (λ e.
        let size : length x.output ≡ length (if shorter p q then q else p).output =
          ap (λ (y : Entry). length y.output) e in
        elim (Bool-cases (shorter p q)) [
          | inl t ↦ ground (arith, t, size, extract-le p l)
          | inr f ↦ ground (arith, f, size, extract-le q l)
        ])
      (λ k. extract-least (if shorter p q then p else q) l x k) m

abbrev take_least : List Entry → Outcome (Entry × List Entry)
take_least [] = panic
take_least (q ∷ l) = ok (extract q l)

abbrev list_heap : Heap Entry
list_heap = record {
  init = λ i h. ok h;
  push = λ i h q. ok (i.push h q);
  pop = λ i h. take_least h;
}

list_pop_lem :
    (h : List Entry) (n : ℕ)
    → length h ≡ suc n
    → (q : Entry) × (h' : List Entry) × (take_least h ≡ ok (q, h'))
      × Unit {0}
      × (length h' ≡ n)
      × ((x : Entry) → (x ∈ h) ↔ ((x ≡ q) ⊎ (x ∈ h')))
      × ((x : Entry) → x ∈ h' → shorter x q ≡ false)
list_pop_lem [] n e = ground (arith, e)
list_pop_lem (q ∷ l) n e = (
  (extract q l).0,
  (extract q l).1,
  refl,
  tt,
  omega (arith, e, length-extract q l),
  mem-extract q l,
  λ x m. ground (arith, extract-least q l x m),
)

length-push : (h : List Entry) (q : Entry) → length (h ++ q ∷ []) ≡ suc (length h)
length-push [] q = refl
length-push (x ∷ h) q = ap suc (length-push h q)

mem-push : (h : List Entry) (q x : Entry) → (x ∈ h ++ q ∷ []) ↔ ((x ≡ q) ⊎ (x ∈ h))
mem-push [] q x = ground arith
mem-push (y ∷ h) q x = ground (arith, mem-push h q x)

list_heap-KeepsHeaps : KeepsHeaps list_heap query_heap shorter
list_heap-KeepsHeaps = record {
  IsHeap = λ h. Unit;
  init_lem = λ i o. (refl, tt);
  push_lem = λ i o h q k. (h ++ q ∷ [], refl, tt, length-push h q, mem-push h q);
  pop_lem = λ i o h n k size. list_pop_lem h n size;
}

abbrev no_bytes : Meta → Bytes
no_bytes _ = []

-- `dependencies library`
abbrev own_dependencies : Expression
own_dependencies =
    expression
      (query (record { query_type = "dependencies"; node_type = "library"; node_name = none })) none
      nil_expression

abbrev own : String → Outcome Expression
own text = ok own_dependencies

abbrev stored_a : Node (List ℕ) Meta
stored_a = add_child 2 node_a

abbrev stored_b : Node (List ℕ) Meta
stored_b = add_parent 1 node_b

abbrev cached : Store
cached = record chain {
  cache =
      (1, new_node_cache 1 (1 ∷ []) (1 ∷ 2 ∷ []))
      ∷ (2, new_node_cache 2 (1 ∷ 2 ∷ []) (2 ∷ []))
      ∷ [];
  stack = [];
}

abbrev found : Node (List ℕ) Meta → Option (List ℕ)
found n = if n.name == "a" then some (2 ∷ 1 ∷ []) else some (2 ∷ [])

abbrev fails : Node (List ℕ) Meta → Error
fails n = errorf "no answer"

abbrev Replied : Node (List ℕ) Meta → Type 0
Replied n =
    parse_and_execute own 9 "" (some (mock_storage all_match)) n.name
      ((1, some stored_a) ∷ (2, some stored_b) ∷ []) (pointers cached.cache) true cached
    ≡ (replied found fails n, cached)

stored_a-Replied : Replied stored_a
unfolding lookup insert index_names parse_and_execute resolve collect_packages
    collect_packages_from_expression batch_query_dependencies batch_query_dependents
    iterate_expression iterate_query
stored_a-Replied = refl

stored_b-Replied : Replied stored_b
unfolding lookup insert index_names parse_and_execute resolve collect_packages
    collect_packages_from_expression batch_query_dependencies batch_query_dependents
    iterate_expression iterate_query
stored_b-Replied = refl

custom_leaderboard_lem_example :
    (out : List ServiceRanking) × (custom_leaderboard list_heap
        (λ m. ok (no_bytes m))
        (mock_storage all_match)
        own
        9
        (λ l. l)
        1
        ""
        cached
      ≡ (ok out, cached))
    × IsDescending out
    × (length out ≡ 2)
    × ((x : ServiceRanking)
        → (x ∈ out) ↔ (
            (n : Node (List ℕ) Meta) × (b : List ℕ) × (n ∈ stored_a ∷ stored_b ∷ [])
            × ((n.name == "") ≡ false)
            × (found n ≡ some b)
            × (x ≡ entry no_bytes (record { node = n; output = listed.to_array b }))))
unfolding named_nodes to_be_cached get_all_keys get_nodes get_caches lookup insert
custom_leaderboard_lem_example =
    custom_leaderboard_lem list_heap list_heap-KeepsHeaps (λ m. ok (no_bytes m)) no_bytes
      (λ _. refl) (mock_storage all_match) own 9 (λ l. l) (λ l n. (λ i. i, λ i. i)) 1 "" cached
      (1 ∷ 2 ∷ []) ((1, stored_a) ∷ (2, stored_b) ∷ []) cached.cache found fails refl refl refl refl
      (λ n. λ i.
        ⊎_elim (λ e. subst Replied (sym e) stored_a-Replied)
          (⊎_elim (λ e. subst Replied (sym e) stored_b-Replied) (λ no_more. elim no_more [ ])) i)
      (λ n. λ i.
        ⊎_elim (λ e. (2 ∷ 1 ∷ [], subst (λ x. found x ≡ some (2 ∷ 1 ∷ [])) (sym e) refl))
          (λ no_more. elim no_more [ ]) i)
