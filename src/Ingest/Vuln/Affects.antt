-- ===== src/Ingest/Vuln/Affects.antt =====
-- Which packages `isPackageAffected` finds affected.
use Prim.Native.String.{String}
use minefield.Prelude.{
  ℕ, ◌≡◌, refl, subst, ◌↔◌, ◌⊎◌, inl, inr, Bool, true, Option, List, [], ◌∷◌, ◌∈◌, ◌==◌, string_eq,
  Bool-cases, arith,
}
use minefield.Ingest.Purl.{PackageInfo}
use minefield.Ingest.Vuln.{
  Event, Range, Affected, Order, is_version_included, is_version_in_range, is_version_in_ranges,
  is_affected_by, Vulnerability, is_package_affected,
}
use minefield.Ingest.Vuln.Within.{IsIn, IsInRange, IsIn-IsInRange}

included_iff :
    (version : String) (vs : List String) → (is_version_included version vs ≡ true) ↔ (version ∈ vs)
unfolding is_version_included
included_iff version [] = ground arith
included_iff version (v ∷ vs) = ground (arith, string_eq.beq_iff v version, included_iff version vs)

module _ {V : Type 0} (new_version : String → Option V) (compare_semver : V → V → Order)
    (sort_slice : (ℕ → ℕ → Bool) → List Event → List Event) where
  found_range :
      (version : String) (rs : List Range) (ecosystem : String)
      → is_version_in_ranges new_version compare_semver sort_slice version rs ecosystem ≡ true
      → (r : Range) × (r ∈ rs) × IsIn new_version compare_semver sort_slice version ecosystem r
  unfolding is_version_in_ranges
  found_range version [] ecosystem h = ground arith
  found_range version (r ∷ rs) ecosystem h =
      elim (Bool-cases
        (is_version_in_range new_version compare_semver sort_slice version r ecosystem)) [
          | inl here ↦ (r, inl refl, here)
          | inr out ↦
              let (q, m, there) = found_range version rs ecosystem (ground arith) in
              (q, inr m, there)
        ]

  in_ranges :
      (version : String) (rs : List Range) (ecosystem : String) (q : Range)
      → q ∈ rs
      → IsIn new_version compare_semver sort_slice version ecosystem q
      → is_version_in_ranges new_version compare_semver sort_slice version rs ecosystem ≡ true
  unfolding is_version_in_ranges
  in_ranges version [] ecosystem q m h = elim m [ ]
  in_ranges version (r ∷ rs) ecosystem q (inl e) h =
      let here : IsIn new_version compare_semver sort_slice version ecosystem r =
        subst (IsIn new_version compare_semver sort_slice version ecosystem) e h in
      ground (arith, here)
  in_ranges version (r ∷ rs) ecosystem q (inr m) h =
      ground (arith, in_ranges version rs ecosystem q m h)

  -- The entry names the package and its ecosystem, and lists its version or has a range with it.
  abbrev pub Covers : Affected → PackageInfo → Type 0
  Covers a info =
      (a.name ≡ info.name)
      × (a.ecosystem ≡ info.ecosystem)
      × ((info.version ∈ a.versions)
          ⊎ ((r : Range) × (r ∈ a.ranges)
              × IsInRange new_version compare_semver sort_slice info.version a.ecosystem r))

  abbrev IsHit : List Affected → PackageInfo → Type 0
  IsHit others info = is_affected_by new_version compare_semver sort_slice others info ≡ true

  head_cases :
      (a : Affected) (others : List Affected) (info : PackageInfo)
      → IsHit (a ∷ others) info
      → Covers a info ⊎ IsHit others info
  unfolding is_affected_by
  head_cases a others info h = elim (Bool-cases (a.name == info.name)) [
    | inr e ↦ inr (ground (arith, e))
    | inl named ↦ elim (Bool-cases (a.ecosystem == info.ecosystem)) [
      | inr e ↦ inr (ground (arith, e))
      | inl system ↦
          let same = (string_eq.beq_iff a.name info.name).0 named in
          let same' = (string_eq.beq_iff a.ecosystem info.ecosystem).0 system in
          elim (Bool-cases (is_version_included info.version a.versions)) [
            | inl listed ↦ inl (same, same', inl ((included_iff info.version a.versions).0 listed))
            | inr e ↦
                elim (Bool-cases (
                  is_version_in_ranges new_version compare_semver sort_slice info.version a.ranges
                    a.ecosystem)) [
                      | inl ranged ↦ inl (
                        same,
                        same',
                        inr (
                            let (r, m, here) =
                              found_range info.version a.ranges a.ecosystem ranged in
                            (
                              r,
                              m,
                              (IsIn-IsInRange new_version compare_semver sort_slice info.version
                                    a.ecosystem r).0
                                  here,
                            )),
                      )
                      | inr e' ↦ inr (ground (arith, e, e'))
                    ]
          ]
    ]
  ]

  covered :
      (others : List Affected) (info : PackageInfo)
      → IsHit others info
      → (a : Affected) × (a ∈ others) × Covers a info
  unfolding is_affected_by
  covered [] info h = ground arith
  covered (a ∷ others) info h = elim (head_cases a others info h) [
    | inl c ↦ (a, inl refl, c)
    | inr rest ↦ let (o, m, c) = covered others info rest in (o, inr m, c)
  ]

  hit :
      (others : List Affected) (info : PackageInfo) (a : Affected)
      → a ∈ others
      → Covers a info
      → IsHit others info
  unfolding is_affected_by
  hit [] info a m c = elim m [ ]
  hit (o ∷ others) info a (inl e) c =
      let (named, system, how) = subst (λ x. Covers x info) e c in
      elim how [
        | inl listed ↦ ground (
          arith,
          string_eq.beq_iff o.name info.name,
          string_eq.beq_iff o.ecosystem info.ecosystem,
          (included_iff info.version o.versions).1 listed,
        )
        | inr (r, m, h) ↦ ground (
          arith,
          string_eq.beq_iff o.name info.name,
          string_eq.beq_iff o.ecosystem info.ecosystem,
          in_ranges info.version o.ranges o.ecosystem r m (
              (IsIn-IsInRange new_version compare_semver sort_slice info.version o.ecosystem r).1
                h),
        )
      ]
  hit (o ∷ others) info a (inr m) c = ground (arith, hit others info a m c)

  -- A package is found affected just where an entry names it and its ecosystem, and lists its version
  -- or has a range with it: in the order that `sort.Slice` leaves the events in, there is an event
  -- that introduces the vulnerability at the version or before it, and each event behind it that
  -- fixes it there or before, or was last affected before it, introduces it as well.
  pub is_package_affected_iff :
      (vuln : Vulnerability) (info : PackageInfo)
      → (is_package_affected new_version compare_semver sort_slice vuln info ≡ true)
        ↔ ((a : Affected) × (a ∈ vuln.affected) × Covers a info)
  is_package_affected_iff vuln info =
      (covered vuln.affected info, λ (a, m, c). hit vuln.affected info a m c)
