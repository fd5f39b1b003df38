-- ===== src/Ingest/Vuln/Within.antt =====
-- When a version is within the events of a range.
use Prim.Native.String.{String}
use minefield.Prelude.{
  ◌≢◌, false, All, ℕ, ◌≡◌, ◌↔◌, ◌⊎◌, inl, inr, Bool, true, Option, List, [], ◌∷◌, string_eq, arith,
  sym, ◌∙◌,
}
use minefield.Ingest.Vuln.{
  is_less, is_more, compare_versions, apply_event, apply_events, sort_range_events, Event, Range,
  Order, is_version_in_range,
}

module _ {V : Type 0} (new_version : String → Option V) (compare_semver : V → V → Order)
    (sort_slice : (ℕ → ℕ → Bool) → List Event → List Event) where
  abbrev pub IsIn : String → String → Range → Type 0
  IsIn version ecosystem r =
      is_version_in_range new_version compare_semver sort_slice version r ecosystem ≡ true

  module _ (version type ecosystem : String) where
    -- an event that the version is not before
    abbrev pub Introduces : Event → Type 0
    Introduces evt =
        (evt.introduced ≢ "")
        × (is_less (
              compare_versions new_version compare_semver sort_slice version evt.introduced type
                ecosystem)
            ≡ false)

    -- The version is not before the fix, or is behind the last that is affected.
    abbrev pub Stops : Event → Type 0
    Stops evt =
        ((evt.fixed ≢ "")
          × (is_less (
                compare_versions new_version compare_semver sort_slice version evt.fixed type
                  ecosystem)
              ≡ false))
        ⊎ ((evt.last_affected ≢ "")
            × (is_more (
                  compare_versions new_version compare_semver sort_slice version evt.last_affected
                    type ecosystem)
                ≡ true))

    -- An event introduces the vulnerability, and none behind it stops it without introducing it.
    abbrev pub IsWithin : List Event → Type 0
    IsWithin [] = ⊥
    IsWithin (evt ∷ evts) =
        (Introduces evt × All (λ e. Stops e → Introduces e) evts) ⊎ IsWithin evts

    abbrev applied : Event → Bool → Bool
    applied evt was =
        apply_event new_version compare_semver sort_slice version type ecosystem evt was

    event_cases :
        (evt : Event) (was : Bool)
        → (Introduces evt × (applied evt was ≡ true))
          ⊎ ((¬ Introduces evt) × Stops evt × (applied evt was ≡ false))
          ⊎ ((¬ Introduces evt) × (¬ Stops evt) × (applied evt was ≡ was))
    unfolding apply_event
    event_cases evt was =
        let i =
          compare_versions new_version compare_semver sort_slice version evt.introduced type
            ecosystem in
        let f =
          compare_versions new_version compare_semver sort_slice version evt.fixed type ecosystem in
        let l =
          compare_versions new_version compare_semver sort_slice version evt.last_affected type
            ecosystem in
        let bi = string_eq.beq_iff evt.introduced "" in
        let bf = string_eq.beq_iff evt.fixed "" in
        let bl = string_eq.beq_iff evt.last_affected "" in ground (arith, bi, bf, bl)

    abbrev IsKept : List Event → Type 0
    IsKept evts = All (λ e. Stops e → Introduces e) evts

    abbrev IsFound : List Event → Bool → Type 0
    IsFound evts was = IsWithin evts ⊎ ((was ≡ true) × IsKept evts)

    IsFound-cons :
        (evt : Event) (evts : List Event) (was : Bool)
        → IsFound evts (applied evt was) ↔ IsFound (evt ∷ evts) was
    IsFound-cons evt evts was = elim (event_cases evt was) [
      | inl (introduced, now) ↦ (
        λ h. elim h [
          | inl within ↦ inl (inr within)
          | inr (_, kept) ↦ inl (inl (introduced, kept))
        ],
        λ h. elim h [
          | inl (inl (_, kept)) ↦ inr (now, kept)
          | inl (inr within) ↦ inl within
          | inr (_, kept) ↦ inr (now, kept.1)
        ],
      )
      | inr (inl (new, stopped, now)) ↦ (
        λ h. elim h [ inl within ↦ inl (inr within) | inr (held, _) ↦ ground (arith, now, held) ],
        λ h. elim h [
          | inl (inl (introduced, _)) ↦ elim (new introduced) [ ]
          | inl (inr within) ↦ inl within
          | inr (_, stays) ↦ elim (new (stays.0 stopped)) [ ]
        ],
      )
      | inr (inr (new, going, now)) ↦ (
        λ h. elim h [
          | inl within ↦ inl (inr within)
          | inr (held, kept) ↦ inr (sym now ∙ held, (λ stopped. elim (going stopped) [ ], kept))
        ],
        λ h. elim h [
          | inl (inl (introduced, _)) ↦ elim (new introduced) [ ]
          | inl (inr within) ↦ inl within
          | inr (held, kept) ↦ inr (now ∙ held, kept.1)
        ],
      )
    ]

    events_iff :
        (evts : List Event) (was : Bool)
        → (apply_events new_version compare_semver sort_slice version type ecosystem evts was
            ≡ true)
          ↔ IsFound evts was
    unfolding apply_events
    events_iff [] was =
        (λ h. inr (h, tt), λ h. elim h [ inl within ↦ elim within [ ] | inr (h, _) ↦ h ])
    events_iff (evt ∷ evts) was =
        let rest = events_iff evts (applied evt was) in
        let next = IsFound-cons evt evts was in (λ h. next.0 (rest.0 h), λ h. rest.1 (next.1 h))

  -- The version is within the events of the range, in the order that they are sorted in.
  abbrev pub IsInRange : String → String → Range → Type 0
  IsInRange version ecosystem r =
      IsWithin version r.type ecosystem
        (sort_range_events new_version compare_semver sort_slice r.events r.type ecosystem)

  pub IsIn-IsInRange :
      (version ecosystem : String) (r : Range)
      → IsIn version ecosystem r ↔ IsInRange version ecosystem r
  unfolding is_version_in_range
  IsIn-IsInRange version ecosystem r =
      let loop =
        events_iff version r.type ecosystem
          (sort_range_events new_version compare_semver sort_slice r.events r.type ecosystem)
          false in
      (
        λ h. elim (loop.0 h) [ inl within ↦ within | inr (f, _) ↦ ground arith ],
        λ h. loop.1 (inl h),
      )
