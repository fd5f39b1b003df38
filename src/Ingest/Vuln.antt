-- ===== src/Ingest/Vuln.antt =====
-- pkg/tools/ingest/vuln.go: whether a vulnerability affects a package. The package semver is the
-- pair of parameters `new_version`, `compare_semver`; `sort.Slice`, which is given a test of two
-- indices, is `sort_slice`. Only the fields that are read are modelled.
pub mod Within
pub mod Affects
pub mod Kept
pub mod Exact
pub mod Hits
pub mod Listed
pub mod Add
use Prim.Native.String.{String, compare}
use minefield.Prelude.{
  ℕ, zero, suc, Bool, true, false, not, ◌&&◌, ◌||◌, Option, none, some, List, [], ◌∷◌, ◌==◌,
  string_eq, if◌then◌else◌,
}
use Prim.Native.Nat.{lt, eq, gt}
use minefield.Ingest.Purl.{PackageInfo}

pub record Event : Type 0 where
  pub introduced : String
  pub fixed : String
  pub last_affected : String

pub record Range : Type 0 where
  pub type : String
  pub events : List Event

pub record Affected : Type 0 where
  pub name : String
  pub ecosystem : String
  pub ranges : List Range
  pub versions : List String

pub record Vulnerability : Type 0 where
  pub id : String
  pub affected : List Affected

-- `strings.Compare(a, b)` and `Version.Compare`
pub data Order : Type 0 where
  less same more : Order

abbrev compare_strings : String → String → Order
compare_strings a b = elim (compare a b) [ lt ↦ less | eq ↦ same | gt ↦ more ]

abbrev is_less : Order → Bool
is_less less = true
is_less same = false
is_less more = false

abbrev is_more : Order → Bool
is_more more = true
is_more less = false
is_more same = false

abbrev get_version_from_event : Event → String
get_version_from_event e =
    if not (e.introduced == "")
    then e.introduced
    else if not (e.fixed == "")
    then e.fixed
    else e.last_affected

unfoldable pub is_version_included : String → List String → Bool
is_version_included version [] = false
is_version_included version (v ∷ vs) = v == version || is_version_included version vs

-- `l[i]`, where there is an `i`th event
abbrev event_at : List Event → ℕ → Event
event_at [] i = record { introduced = ""; fixed = ""; last_affected = "" }
event_at (e ∷ es) zero = e
event_at (e ∷ es) (suc i) = event_at es i

abbrev compare_ecosystem_versions : String → String → String → Order
compare_ecosystem_versions v1 v2 _ = compare_strings v1 v2

module _ {V : Type 0} (new_version : String → Option V) (compare_semver : V → V → Order)
    (sort_slice : (ℕ → ℕ → Bool) → List Event → List Event) where
  unfoldable pub compare_versions : String → String → String → String → Order
  compare_versions v1 v2 event_type ecosystem =
      if event_type == "SEMVER"
      then elim (new_version v1) [
        | none ↦ compare_strings v1 v2
        | some ver1 ↦ elim (new_version v2) [
          | none ↦ compare_strings v1 v2
          | some ver2 ↦ compare_semver ver1 ver2
        ]
      ]
      else if event_type == "ECOSYSTEM"
      then compare_ecosystem_versions v1 v2 ecosystem
      else compare_strings v1 v2

  -- The test compares the events as they were at the two indices, not as they are sorted so far.
  unfoldable sort_range_events : List Event → String → String → List Event
  sort_range_events events event_type ecosystem =
      sort_slice
        (λ i j. is_less (
          compare_versions (get_version_from_event (event_at events i))
            (get_version_from_event (event_at events j)) event_type ecosystem))
        events

  module _ (version : String) where
    -- the cases of the `switch`
    unfoldable apply_event : String → String → Event → Bool → Bool
    apply_event type ecosystem evt vulnerable =
        if not (evt.introduced == "")
          && not (is_less (compare_versions version evt.introduced type ecosystem))
        then true
        else if not (evt.fixed == "")
            && not (is_less (compare_versions version evt.fixed type ecosystem))
        then false
        else if not (evt.last_affected == "")
            && is_more (compare_versions version evt.last_affected type ecosystem)
        then false
        else vulnerable

    unfoldable apply_events : String → String → List Event → Bool → Bool
    unfolding apply_event
    apply_events type ecosystem [] vulnerable = vulnerable
    apply_events type ecosystem (evt ∷ evts) vulnerable =
        apply_events type ecosystem evts (apply_event type ecosystem evt vulnerable)

    -- the loop body of `isVersionInRanges`
    unfoldable pub is_version_in_range : Range → String → Bool
    unfolding apply_events sort_range_events
    is_version_in_range r ecosystem =
        apply_events r.type ecosystem (sort_range_events r.events r.type ecosystem) false

    unfoldable pub is_version_in_ranges : List Range → String → Bool
    is_version_in_ranges [] ecosystem = false
    is_version_in_ranges (r ∷ rs) ecosystem =
        is_version_in_range r ecosystem || is_version_in_ranges rs ecosystem

  -- the loop of `isPackageAffected`
  unfoldable pub is_affected_by : List Affected → PackageInfo → Bool
  unfolding is_version_included is_version_in_ranges
  is_affected_by [] info = false
  is_affected_by (a ∷ others) info =
      let rest = is_affected_by others info in
      if not (a.name == info.name) || not (a.ecosystem == info.ecosystem)
      then rest
      else if is_version_included info.version a.versions
      then true
      else if is_version_in_ranges info.version a.ranges a.ecosystem
      then true
      else rest

  abbrev pub is_package_affected : Vulnerability → PackageInfo → Bool
  is_package_affected vuln info = is_affected_by vuln.affected info
