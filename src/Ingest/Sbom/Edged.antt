-- ===== src/Ingest/Sbom/Edged.antt =====
-- The loops of `SBOM` over the edges and their targets.
use minefield.Prelude.{
  ℕ, String, ◌≡◌, ◌≢◌, refl, sym, ap, subst, ◌∙◌, inl, inr, Bool, some, List, [], ◌∷◌, ◌∈◌, All,
  nat_eq, string_eq, Map, lookup, Outcome, ok, arith,
}
use minefield.Bitmap.{Bitmap}
use minefield.Graph.Node.{Node}
use minefield.Graph.Mock.{mock_storage, get_node}
use minefield.Graph.Mock.State.{MockStorage}
use minefield.Graph.Build.Drawn.{Draws, Draws-none, Draws-both, Draws-iff}
use minefield.Ingest.Ready.{IsReady, IsStored}
use minefield.Ingest.Sbom.{SbomEdge, id_of, add_targets, add_edges}
use minefield.Ingest.Sbom.Kept.{NamedAt, add_edge-Joined}
use minefield.Ingest.Sbom.Filled.{Leads}

module _ (known : Map String String) where
  -- A node of the document has the id.
  abbrev pub IsGiven : String → Type 0
  IsGiven id = (p : String) × (lookup id known ≡ some p)

  -- One of the targets has the package URL `x`, which is not that of the start.
  abbrev pub Targets : List String → String → String → Type 0
  Targets tos y x = (to : String) × (to ∈ tos) × ((lookup to known ≡ some x) × (y ≢ x))

module _ {B M : Type 0} ⦃bm : Bitmap B⦄ (matches : String → String → Outcome Bool)
    (before : MockStorage B M) where
  -- A call returns, the nodes keep their names, and it draws the dependencies of `R`.
  pub record Edged (R : ℕ → String → Type 0) (s : MockStorage B M)
      (r : Outcome (Unit {0}) × MockStorage B M) : Type 0 where
    pub state : MockStorage B M
    pub returns : r ≡ (ok tt, state)
    pub ready : IsReady matches before 0 state
    pub names : (i : ℕ) (x : String) → NamedAt s i x → NamedAt state i x
    pub draws : Draws R s state

  got :
      (i : ℕ) (n : Node B M) (s : MockStorage B M)
      → IsReady matches before 0 s
      → lookup i s.nodes ≡ some n
      → (get_node i s ≡ (ok n, s)) × IsStored matches before n s
  unfolding get_node
  got i n s r there =
      let same : n.id ≡ i = (r.well_formed.keyed i n there).0 in
      (ground (arith, there, r.quiet), ap (λ k. lookup k s.nodes) same ∙ there)

  module _ (ids : Map String ℕ) (known : Map String String) where
    add_targets-Edged :
        (tos : List String) (s : MockStorage B M) (n : Node B M)
        → IsReady matches before 0 s
        → IsStored matches before n s
        → Leads matches before ids known s
        → All (IsGiven known) tos
        → Edged
            (λ a x. (n.id ≡ a) × Targets known tos n.name x)
            s
            (add_targets (mock_storage matches) ids n tos s)
    unfolding add_targets
    add_targets-Edged [] s n r stored leads given = record {
      state = s;
      returns = refl;
      ready = r;
      names = λ i x h. h;
      draws = Draws-iff (Draws-none s) (λ a x. (λ e. absurd e, λ (_, (_, e, _)). absurd e));
    }
    add_targets-Edged (to ∷ tos) s n r stored leads ((p, at), given) =
        let (m, there, named) = leads to p at in
        let (found, stored') = got (id_of ids to) m s r there in
        let j = add_edge-Joined matches before n m r stored stored' in
        let leads' : Leads matches before ids known j.state =
          λ id q h. j.names (id_of ids id) q (leads id q h) in
        let t = add_targets-Edged tos j.state j.start j.ready j.stored leads' given in
        record {
          state = t.state;
          returns = rw (found, j.returns) t.returns;
          ready = t.ready;
          names = λ i x h. t.names i x (j.names i x h);
          draws = Draws-iff (Draws-both j.draws t.draws) (λ a x. (
            λ d. elim d [
              | inl (q, (e, ne)) ↦ (q, (to, inl refl, (at ∙ ap some (sym named ∙ e), ne)))
              | inr (q, (to', later, (at', ne))) ↦
                  (sym j.same_id ∙ q, (to', inr later, (at', λ f. ne (j.same_name ∙ f))))
            ],
            λ (q, (to', there, (at', ne))). elim there [
              | inl same ↦
                  let e : p ≡ x = ground (arith, at, at', ap (λ k. lookup k known) same) in
                  inl (q, (named ∙ e, ne))
              | inr later ↦ inr (j.same_id ∙ q, (to', later, (at', λ f. ne (sym j.same_name ∙ f))))
            ],
          ));
        }

    -- The edge starts at the node with the id and has a target of the package URL.
    abbrev pub Starts : SbomEdge → ℕ → String → Type 0
    Starts e a x =
        (id_of ids e.from ≡ a)
        × ((y : String) × (lookup e.from known ≡ some y) × Targets known e.to y x)

    start-Targets :
        (a : ℕ) (x : String) (e : SbomEdge) (y : String) (n : Node B M)
        → n.id ≡ id_of ids e.from
        → n.name ≡ y
        → lookup e.from known ≡ some y
        → Starts e a x
        → (n.id ≡ a) × Targets known e.to n.name x
    start-Targets a x e y n same_id named at (q, (z, at', ts)) =
        let same : z ≡ n.name = ground (arith, at, at', named) in
        (same_id ∙ q, subst (λ k. Targets known e.to k x) same ts)

    pub add_edges-Edged :
        (es : List SbomEdge) (s : MockStorage B M)
        → IsReady matches before 0 s
        → Leads matches before ids known s
        → All (λ e. IsGiven known e.from × All (IsGiven known) e.to) es
        → Edged
            (λ a x. (e : SbomEdge) × (e ∈ es) × Starts e a x)
            s
            (add_edges (mock_storage matches) ids es s)
    unfolding add_edges
    add_edges-Edged [] s r leads given = record {
      state = s;
      returns = refl;
      ready = r;
      names = λ i x h. h;
      draws = Draws-iff (Draws-none s) (λ a x. (λ e. absurd e, λ (_, e, _). absurd e));
    }
    add_edges-Edged (e ∷ es) s r leads (((y, at), tos), given) =
        let (n, there, named) = leads e.from y at in
        let (found, stored) = got (id_of ids e.from) n s r there in
        let same_id : n.id ≡ id_of ids e.from =
          (r.well_formed.keyed (id_of ids e.from) n there).0 in
        let j = add_targets-Edged e.to s n r stored leads tos in
        let leads' : Leads matches before ids known j.state =
          λ id q h. j.names (id_of ids id) q (leads id q h) in
        let t = add_edges-Edged es j.state j.ready leads' given in
        record {
          state = t.state;
          returns = rw (found, j.returns) t.returns;
          ready = t.ready;
          names = λ i x h. t.names i x (j.names i x h);
          draws = Draws-iff (Draws-both j.draws t.draws) (λ a x. (
            λ d. elim d [
              | inl (q, ts) ↦ (
                e,
                inl refl,
                (sym same_id ∙ q, (y, at, subst (λ z. Targets known e.to z x) named ts)),
              )
              | inr (e', later, h) ↦ (e', inr later, h)
            ],
            λ (e', there, h). elim there [
              | inl same ↦ inl (
                  start-Targets a x e y n same_id named at
                    (subst (λ (f : SbomEdge). Starts f a x) same h))
              | inr later ↦ inr (e', later, h)
            ],
          ));
        }
