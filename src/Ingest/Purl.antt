-- ===== src/Ingest/Purl.antt =====
-- pkg/tools/ingest/helpers.go: from package URLs to packages. `packageurl.FromString` is the
-- parameter `from_string`.
use Prim.Native.Char.{code}
use Prim.Native.String.{String}
use minefield.Prelude.{
  ◌+++◌, Bool, true, false, ◌&&◌, ◌||◌, none, some, [], ◌∷◌, ◌==◌, nat_eq, string_eq, if◌then◌else◌,
  Map, lookup, Outcome, ok, bind, wrapping,
}

-- `packageurl.PackageURL`, as far as it is read
pub record PackageUrl : Type 0 where
  pub type : String
  pub namespace : String
  pub name : String
  pub version : String

-- `Commit` is never set, and is left out.
pub record PackageInfo : Type 0 where
  pub name : String
  pub version : String
  pub ecosystem : String

-- `strings.HasPrefix`
unfoldable pub has_prefix : String → String → Bool
has_prefix s String.[] = true
has_prefix String.[] (String.◌∷◌ d p) = false
has_prefix (String.◌∷◌ c s) (String.◌∷◌ d p) = code c == code d && has_prefix s p

abbrev any : String → Map String String
any ecosystem = ("*", ecosystem) ∷ []

abbrev purl_ecosystems : Map String (Map String String)
purl_ecosystems =
    ("apk", ("alpine", "Alpine") ∷ [])
    ∷ ("cargo", any "crates.io")
    ∷ ("deb", ("debian", "Debian") ∷ [])
    ∷ ("hex", any "Hex")
    ∷ ("golang", any "Go")
    ∷ ("maven", any "Maven")
    ∷ ("nuget", any "NuGet")
    ∷ ("npm", any "npm")
    ∷ ("composer", any "Packagist")
    ∷ ("generic", any "OSS-Fuzz")
    ∷ ("pypi", any "PyPI")
    ∷ ("gem", any "RubyGems")
    ∷ []

unfoldable get_purl_ecosystem : PackageUrl → String
get_purl_ecosystem u =
    let unknown = u.type +++ ":" +++ u.namespace in
    elim (lookup u.type purl_ecosystems) [
      | none ↦ unknown
      | some eco_map ↦ elim (lookup "*" eco_map) [
        | some wildcard ↦ wildcard
        | none ↦ elim (lookup u.namespace eco_map) [ none ↦ unknown | some ecosystem ↦ ecosystem ]
      ]
    ]

-- the name that `PURLToPackage` gives a package
unfoldable pub package_name : String → PackageUrl → String
package_name ecosystem u =
    if u.namespace == ""
    then u.name
    else if ecosystem == "Maven"
    then u.namespace +++ ":" +++ u.name
    else if ecosystem == "Debian" || ecosystem == "Alpine"
    then u.name
    else u.namespace +++ "/" +++ u.name

unfoldable pub purl_to_package : (String → Outcome PackageUrl) → String → Outcome PackageInfo
unfolding get_purl_ecosystem package_name
purl_to_package from_string purl =
    bind (wrapping "failed to parse purl: %w" (from_string purl)) λ u.
      let ecosystem = get_purl_ecosystem u in
      ok (record { name = package_name ecosystem u; version = u.version; ecosystem = ecosystem })
