-- ===== src/Ingest/Drawn.antt =====
-- What `Vulnerabilities` and `Scorecards` share: which dependencies a call draws in the graph.
use minefield.Prelude.{
  ℕ, String, ◌≡◌, refl, ◌∷◌, sym, ap, ◌∙◌, subst, ◌↔◌, inl, inr, Bool, some, [], ◌∈◌, Map, lookup,
  mem_of_lookup, keys, nat_eq, string_eq, Outcome, Outcome-split, ok, err, panic, out_of_fuel,
}
use minefield.Bitmap.{Bitmap}
use minefield.Graph.Node.{Node}
use minefield.Graph.Mock.{pick}
use minefield.Graph.Mock.Picked.{stored_entry, picked_entry}
use minefield.Graph.Mock.State.{MockStorage}
use minefield.Graph.Build.Invariant.{IsWellFormed}
use minefield.Graph.Build.Drawn.{Draws, Draws-none, Draws-both, Draws-iff}
use minefield.Ingest.Purl.{PackageUrl, purl_to_package}
use minefield.Ingest.Visited.{Left}

-- neither a panic nor the end of the fuel
abbrev pub Settles : {A : Type 0} → Outcome A → Type 0
Settles (ok a) = Unit
Settles (err e) = Unit
Settles panic = ⊥
Settles out_of_fuel = ⊥

module _ {B M : Type 0} ⦃bm : Bitmap B⦄ (matches : String → String → Outcome Bool)
    (before : MockStorage B M) where
  -- A call returns, ids are left behind it, and it draws the dependencies of `R`.
  pub record Drawn {A : Type 0} (k : ℕ) (rest : Map ℕ (Node B M)) (R : ℕ → String → Type 0)
      (s : MockStorage B M) (r : Outcome A × MockStorage B M) : Type 0 where
    pub value : A
    pub state : MockStorage B M
    pub returns : r ≡ (ok value, state)
    pub left : Left matches before k rest state
    pub draws : Draws R s state

  pub idle-Drawn :
      {k : ℕ} {rest : Map ℕ (Node B M)} {R : ℕ → String → Type 0} (s : MockStorage B M)
      (r : Outcome (Unit {0}) × MockStorage B M)
      → r ≡ (ok tt, s)
      → ((a : ℕ) (x : String) → ¬ R a x)
      → Left matches before k rest s
      → Drawn k rest R s r
  idle-Drawn s r same never l = record {
    value = tt;
    state = s;
    returns = same;
    left = l;
    draws = Draws-iff (Draws-none s) (λ a x. (λ e. absurd e, never a x));
  }

pub purl_to_package-Settles :
    (from_string : String → Outcome PackageUrl) (name : String)
    → Settles (from_string name)
    → Settles (purl_to_package from_string name)
unfolding purl_to_package
purl_to_package-Settles from_string name h = elim (Outcome-split (from_string name)) [
  | inl (u, e) ↦ rw e tt
  | inr (inl (x, e)) ↦ rw e tt
  | inr (inr (inl e)) ↦ absurd (subst Settles e h)
  | inr (inr (inr e)) ↦ absurd (subst Settles e h)
]

module _ {B M : Type 0} ⦃bm : Bitmap B⦄ (Q : Node B M → String → Type 0) where
  -- One of the nodes, by its id, and a name that `Q` gives it.
  abbrev pub Among : Map ℕ (Node B M) → ℕ → String → Type 0
  Among nodes a x = (e : ℕ × Node B M) × (e ∈ nodes) × (e.1.id ≡ a) × Q e.1 x

  pub Draws-first :
      (id : ℕ) (n : Node B M) (nodes : Map ℕ (Node B M)) {s t u : MockStorage B M}
      → Draws (λ a x. (n.id ≡ a) × Q n x) s t
      → Draws (Among nodes) t u
      → Draws (Among ((id, n) ∷ nodes)) s u
  Draws-first id n nodes d e = Draws-iff (Draws-both d e) (λ a x. (
    λ h. elim h [
      | inl (p, q) ↦ ((id, n), inl refl, p, q)
      | inr (o, there, p, q) ↦ (o, inr there, p, q)
    ],
    λ (o, there, p, q). elim there [
      | inl same ↦ inl (subst (λ (f : ℕ × Node B M). (f.1.id ≡ a) × Q f.1 x) same (p, q))
      | inr there ↦ inr (o, there, p, q)
    ],
  ))

  -- The nodes that are read are those that are stored.
  pub Among-all :
      (s : MockStorage B M)
      → IsWellFormed s
      → (a : ℕ) (x : String)
      → Among (pick s.nodes (keys s.nodes) []) a x
        ↔ ((n : Node B M) × (lookup a s.nodes ≡ some n) × Q n x)
  Among-all s w a x = (
    λ ((id, n), there, same, q).
        let found = stored_entry s.nodes id n there in
        let at : id ≡ a = sym (w.keyed id n found).0 ∙ same in
        (n, ap (λ k. lookup k s.nodes) (sym at) ∙ found, q),
    λ (n, found, q).
        ((a, n), mem_of_lookup a n _ (picked_entry s.nodes a n found), (w.keyed a n found).0, q),
  )
