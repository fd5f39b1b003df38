-- ===== src/Graph/Query/Fetch.antt =====
-- The inner loop of `queryBitmap`: what it fetches.
use minefield.Prelude.{
  ℕ, suc, String, ◌≡◌, refl, ap, Bool, none, some, List, [], ◌∷◌, ◌++◌, All, length, lookup, nat_eq,
  Outcome, ok, arith,
}
use minefield.Bitmap.{Bitmap}
use minefield.Graph.Node.{Node}
use minefield.Graph.Mock.{mock_storage, get_node}
use minefield.Graph.Mock.State.{MockStorage}
use minefield.Graph.Query.{fetch}

abbrev pub ids : {B M : Type 0} → List (Node B M) → List ℕ
ids [] = []
ids (n ∷ ns) = n.id ∷ ids ns

pub ids-append : {B M : Type 0} (xs ys : List (Node B M)) → ids (xs ++ ys) ≡ ids xs ++ ids ys
ids-append [] ys = refl
ids-append (x ∷ xs) ys = ap (λ l. x.id ∷ l) (ids-append xs ys)

pub length-ids : {B M : Type 0} (ns : List (Node B M)) → length (ids ns) ≡ length ns
length-ids [] = refl
length-ids (n ∷ ns) = ap suc (length-ids ns)

module _ {B M : Type 0} ⦃bm : Bitmap B⦄ (matches : String → String → Outcome Bool)
    (s : MockStorage B M) (up : s.faults.get_node_err ≡ none)
    (keyed : (id : ℕ) (n : Node B M) → lookup id s.nodes ≡ some n → n.id ≡ id) where
  abbrev pub IsStored : Node B M → Type 0
  IsStored n = lookup n.id s.nodes ≡ some n

  pub record Fetched (l : List ℕ) : Type 0 where
    pub out : List (Node B M)
    pub returns : fetch (mock_storage matches) l s ≡ (ok out, s)
    pub listed : ids out ≡ l
    pub stored : All IsStored out

  pub fetch-Fetched :
      (l : List ℕ) → All (λ v. (m : Node B M) × (lookup v s.nodes ≡ some m)) l → Fetched l
  unfolding fetch get_node
  fetch-Fetched [] h = record { out = []; returns = refl; listed = refl; stored = tt }
  fetch-Fetched (v ∷ l) ((m, found), h) =
      let rest = fetch-Fetched l h in
      let i = keyed v m found in
      record {
        out = m ∷ rest.out;
        returns = ground (arith, rest.returns);
        listed = ground (arith, rest.listed);
        stored = (ground arith, rest.stored);
      }
