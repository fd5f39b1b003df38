-- ===== src/Ingest/Scorecard/Listed.antt =====
-- Which results the first loop of `Scorecards` lists under a name.
use minefield.Prelude.{
  String, ◌≡◌, refl, sym, ap, ◌∙◌, subst, inl, inr, ◌⊎◌, ◌↔◌, true, false, Bool-cases, ◌==◌, List,
  [], ◌∷◌, ◌++◌, ◌∈◌, mem-append, Map, lookup, insert, lookup-insert_at, lookup-insert_ne,
  string_eq, Outcome, Outcome-split, ok, arith,
}
use minefield.Ingest.Purl.{PackageUrl}
use minefield.Ingest.Drawn.{Settles}
use minefield.Ingest.Visited.{listed}
use minefield.Ingest.Scorecard.{ScorecardResult, index_results}

abbrev pub under :
    {M : Type 0} → String → Map String (List (ScorecardResult M)) → List (ScorecardResult M)
under name m = listed (lookup name m)

module _ {M : Type 0} (from_string : String → Outcome PackageUrl) where
  -- A successful result, whose package URL parses to the name, which is not empty.
  abbrev pub IsNamed : String → ScorecardResult M → Type 0
  IsNamed name r =
      (r.success ≡ true)
      × ((u : PackageUrl) × (from_string r.purl ≡ ok u)
          × (u.name ≡ name)
          × ((u.name == "") ≡ false))

  -- From `m` to `m'` exactly the results of `rs` are listed, each under its name.
  abbrev pub Lists :
      List (ScorecardResult M)
      → Map String (List (ScorecardResult M))
      → Map String (List (ScorecardResult M))
      → Type 0
  Lists rs m m' =
      (name : String) (r : ScorecardResult M)
      → (r ∈ under name m') ↔ ((r ∈ under name m) ⊎ ((r ∈ rs) × IsNamed name r))

  Lists-skip :
      (r : ScorecardResult M) (rs : List (ScorecardResult M))
      (m out : Map String (List (ScorecardResult M)))
      → ((name : String) → ¬ IsNamed name r)
      → Lists rs m out
      → Lists (r ∷ rs) m out
  Lists-skip r rs m out never h name q = (
    λ there. elim ((h name q).0 there) [ inl old ↦ inl old | inr (new, n) ↦ inr (inr new, n) ],
    λ e. elim e [
      | inl old ↦ (h name q).1 (inl old)
      | inr (inl same, n) ↦ absurd (never name (subst (IsNamed name) same n))
      | inr (inr new, n) ↦ (h name q).1 (inr (new, n))
    ],
  )

  under-insert :
      (key name : String) (r q : ScorecardResult M) (m : Map String (List (ScorecardResult M)))
      → (q ∈ under name (insert key (under key m ++ r ∷ []) m))
        ↔ ((q ∈ under name m) ⊎ ((q ≡ r) × (key ≡ name)))
  under-insert key name r q m = elim (Bool-cases (key == name)) [
    | inl same ↦
        let e : key ≡ name = (string_eq.beq_iff key name).0 same in
        let old : under key m ≡ under name m = ap (λ k. under k m) e in
        let both = mem-append q (under key m) (r ∷ []) in
        rw (lookup-insert_at key name (under key m ++ r ∷ []) m e) (
          λ there. elim (both.0 there) [
            | inl there ↦ inl (subst (λ l. q ∈ l) old there)
            | inr (inl new) ↦ inr (new, e)
            | inr (inr none_new) ↦ absurd none_new
          ],
          λ h. elim h [
            | inl there ↦ both.1 (inl (subst (λ l. q ∈ l) (sym old) there))
            | inr (new, _) ↦ both.1 (inr (inl new))
          ],
        )
    | inr other ↦
        let ne : ¬ (key ≡ name) = λ e. ground (arith, other, (string_eq.beq_iff key name).1 e) in
        rw (lookup-insert_ne key name (under key m ++ r ∷ []) m ne)
          (inl, λ h. elim h [ inl there ↦ there | inr (_, e) ↦ absurd (ne e) ])
  ]

  one_name :
      (key name : String) (r : ScorecardResult M) → IsNamed key r → IsNamed name r → key ≡ name
  one_name key name r (_, (u, read, named, _)) (_, (u', read', named', _)) =
      let same : u ≡ u' = ground (arith, read, read') in
      sym named ∙ ap (λ (w : PackageUrl). w.name) same ∙ named'

  Lists-keep :
      (r : ScorecardResult M) (rs : List (ScorecardResult M))
      (m out : Map String (List (ScorecardResult M))) (key : String)
      → IsNamed key r
      → Lists rs (insert key (under key m ++ r ∷ []) m) out
      → Lists (r ∷ rs) m out
  Lists-keep r rs m out key is h name q =
      let step = under-insert key name r q m in
      (
        λ there. elim ((h name q).0 there) [
          | inl before ↦ elim (step.0 before) [
            | inl old ↦ inl old
            | inr (same, e) ↦
                inr (inl same, subst (IsNamed name) (sym same) (subst (λ k. IsNamed k r) e is))
          ]
          | inr (new, n) ↦ inr (inr new, n)
        ],
        λ e. elim e [
          | inl old ↦ (h name q).1 (inl (step.1 (inl old)))
          | inr (inl same, n) ↦
              let key_is = one_name key name r is (subst (IsNamed name) same n) in
              (h name q).1 (inl (step.1 (inr (same, key_is))))
          | inr (inr new, n) ↦ (h name q).1 (inr (new, n))
        ],
      )

  pub index_results-Lists :
      (rs : List (ScorecardResult M)) (m out : Map String (List (ScorecardResult M)))
      → index_results from_string rs m ≡ ok out
      → Lists rs m out
  unfolding index_results
  index_results-Lists [] m out h =
      let same : m ≡ out = ground (arith, h) in
      subst (Lists [] m) same
        (λ name r. (inl, λ e. elim e [ inl there ↦ there | inr (none_new, _) ↦ absurd none_new ]))
  index_results-Lists (r ∷ rs) m out h = elim (Bool-cases r.success) [
    | inr failed ↦
        Lists-skip r rs m out (λ name (passed, _). ground (arith, passed, failed))
          (index_results-Lists rs m out (rw failed at h))
    | inl passed ↦ elim (Outcome-split (from_string r.purl)) [
      | inl (u, read) ↦ elim (Bool-cases (u.name == "")) [
        | inl empty ↦
            Lists-skip r rs m out
              (λ name (_, (u', read', _, full)).
                let same : u ≡ u' = ground (arith, read, read') in
                ground (arith, empty, full, ap (λ (w : PackageUrl). w.name == "") same))
              (index_results-Lists rs m out (rw (passed, read, empty) at h))
        | inr named ↦
            Lists-keep r rs m out u.name (passed, (u, read, refl, named))
              (index_results-Lists rs _ out (rw (passed, read, named) at h))
      ]
      | inr (inl (e, bad)) ↦
          Lists-skip r rs m out (λ name (_, (u', read', _, _)). ground (arith, bad, read'))
            (index_results-Lists rs m out (rw (passed, bad) at h))
      | inr (inr (inl bad)) ↦ absurd (ground (arith, h, passed, bad))
      | inr (inr (inr bad)) ↦ absurd (ground (arith, h, passed, bad))
    ]
  ]

  pub index_results_returns :
      ((name : String) → Settles (from_string name))
      → (rs : List (ScorecardResult M)) (m : Map String (List (ScorecardResult M)))
      → (out : Map String (List (ScorecardResult M))) × (index_results from_string rs m ≡ ok out)
  unfolding index_results
  index_results_returns settles [] m = (m, refl)
  index_results_returns settles (r ∷ rs) m = elim (Bool-cases r.success) [
    | inr failed ↦ rw failed (index_results_returns settles rs m)
    | inl passed ↦ elim (Outcome-split (from_string r.purl)) [
      | inl (u, read) ↦ elim (Bool-cases (u.name == "")) [
        | inl empty ↦ rw (passed, read, empty) (index_results_returns settles rs m)
        | inr named ↦ rw (passed, read, named) (index_results_returns settles rs _)
      ]
      | inr (inl (e, bad)) ↦ rw (passed, bad) (index_results_returns settles rs m)
      | inr (inr (inl bad)) ↦ absurd (subst Settles bad (settles r.purl))
      | inr (inr (inr bad)) ↦ absurd (subst Settles bad (settles r.purl))
    ]
  ]
