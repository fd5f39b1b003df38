-- ===== src/Ingest/Vuln/Listed.antt =====
-- What the first loop of `Vulnerabilities` lists under a name is never empty.
use minefield.Prelude.{
  String, ◌≡◌, refl, sym, ap, ◌∙◌, subst, inl, inr, Bool-cases, ◌==◌, some, List, [], ◌∷◌, ◌++◌,
  ◌∈◌, Map, lookup, insert, lookup-insert, lookup-insert_at, string_eq, arith,
}
use minefield.Ingest.Visited.{listed}
use minefield.Ingest.Vuln.{Vulnerability, Affected}
use minefield.Ingest.Vuln.Add.{index_vulns}

-- A vulnerability is listed under the name.
abbrev pub IsListed : String → Map String (List Vulnerability) → Type 0
IsListed name m = (w : Vulnerability) × (ws : List Vulnerability) × (lookup name m ≡ some (w ∷ ws))

cons_of_snoc :
    (l : List Vulnerability) (v : Vulnerability)
    → (w : Vulnerability) × (ws : List Vulnerability) × (l ++ v ∷ [] ≡ w ∷ ws)
cons_of_snoc [] v = (v, [], refl)
cons_of_snoc (w ∷ l) v = (w, l ++ v ∷ [], refl)

module _ (v : Vulnerability) where
  abbrev list_under : String → Map String (List Vulnerability) → Map String (List Vulnerability)
  list_under key m = insert key (listed (lookup key m) ++ v ∷ []) m

  list_under-IsListed :
      (key : String) (m : Map String (List Vulnerability)) → IsListed key (list_under key m)
  list_under-IsListed key m =
      let (w, ws, e) = cons_of_snoc (listed (lookup key m)) v in
      (w, ws, lookup-insert_at key key _ m refl ∙ ap some e)

  still-IsListed :
      (name key : String) (m : Map String (List Vulnerability))
      → IsListed name m
      → IsListed name (list_under key m)
  still-IsListed name key m (w, ws, e) = elim (Bool-cases (key == name)) [
    | inl same ↦
        subst (λ k. IsListed k (list_under key m)) ((string_eq.beq_iff key name).0 same)
          (list_under-IsListed key m)
    | inr other ↦ (
      w,
      ws,
      ground (arith, lookup-insert key name (listed (lookup key m) ++ v ∷ []) m, other, e),
    )
  ]

  index_vulns-keeps :
      (affected : List Affected) (name : String) (m : Map String (List Vulnerability))
      → IsListed name m
      → IsListed name (index_vulns v affected m)
  unfolding index_vulns
  index_vulns-keeps [] name m h = h
  index_vulns-keeps (a ∷ affected) name m h =
      index_vulns-keeps affected name (list_under a.name m) (still-IsListed name a.name m h)

  pub index_vulns-IsListed :
      (affected : List Affected) (a : Affected) (m : Map String (List Vulnerability))
      → a ∈ affected
      → IsListed a.name (index_vulns v affected m)
  unfolding index_vulns
  index_vulns-IsListed [] a m h = elim h [ ]
  index_vulns-IsListed (b ∷ affected) a m (inl same) =
      index_vulns-keeps affected a.name (list_under b.name m) (
        subst (λ (c : Affected). IsListed c.name (list_under b.name m)) (sym same)
          (list_under-IsListed b.name m))
  index_vulns-IsListed (b ∷ affected) a m (inr h) =
      index_vulns-IsListed affected a (list_under b.name m) h
