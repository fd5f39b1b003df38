-- ===== src/Cmd/Loader/Listing.antt =====
-- What is loaded from a tree of directories and files with no archive in it.
use mathlib.Core.List.{append_assoc, append-nil}
use minefield.Prelude.{
  ℕ, zero, suc, ◌≤◌, ◌+◌, true, false, Bool-cases, inl, inr, Option, none, some, List, [], ◌∷◌,
  ◌++◌, ◌≡◌, refl, arith, if◌then◌else◌, ◌==◌, text_eq, Text, text_of, Outcome, ok, err, Action,
  Error, errorf, wrap, continue,
}
use minefield.Graph.Storage.{Bytes}
use minefield.Cmd.Loader.{
  Files, Document, unless_failed, load_entries, load_file, load_path, load_data_from_path,
}

mutual
  -- a file with its content, where it can be read, or a directory
  pub data Tree : Type 0 where
    file : Option Bytes → Tree
    dir : Entries → Tree

  pub data Entries : Type 0 where
    end : Entries
    entry : Text → Tree → Entries → Entries

abbrev pub names : Entries → List Text
names end = []
names (entry name _ es) = name ∷ names es

-- the files and the directories
unfoldable mutual
  pub count : Tree → ℕ
  count (file content) = 1
  count (dir es) = suc (count_entries es)

  pub count_entries : Entries → ℕ
  count_entries end = 0
  count_entries (entry _ t es) = count t + count_entries es

abbrev pub both : Option (List Document) → Option (List Document) → Option (List Document)
both (some d) (some ds) = some (d ++ ds)
both (some d) none = none
both none o = none

module _ {W H R Z : Type 0} (files : Files W H R Z) where
  -- The JSON files of a tree in the order of the directories, where all of them can be read.
  unfoldable mutual
    pub documents : Text → Tree → Option (List Document)
    documents path (file none) = if files.ext path == text_of ".json" then none else some []
    documents path (file (some content)) =
        if files.ext path == text_of ".json"
        then some (record { path = path; content = content } ∷ [])
        else some []
    documents path (dir es) = documents_of path es

    pub documents_of : Text → Entries → Option (List Document)
    documents_of path end = some []
    documents_of path (entry name t es) =
        both (documents (files.join path name) t) (documents_of path es)

  module _ (s : W) where
    -- The file system holds the tree under the path.
    unfoldable mutual
      pub Holds : Text → Tree → Type 0
      Holds path (file none) =
          (files.stat path s ≡ (ok false, s))
          × ((files.ext path == text_of ".zip") ≡ false)
          × ((e : Error) × (files.read_file path s ≡ (err e, s)))
      Holds path (file (some content)) =
          (files.stat path s ≡ (ok false, s))
          × ((files.ext path == text_of ".zip") ≡ false)
          × (files.read_file path s ≡ (ok content, s))
      Holds path (dir es) =
          (files.stat path s ≡ (ok true, s))
          × (files.read_dir path s ≡ (ok (names es), s))
          × HoldsAll path es

      pub HoldsAll : Text → Entries → Type 0
      HoldsAll path end = Unit
      HoldsAll path (entry name t es) = Holds (files.join path name) t × HoldsAll path es

    -- The documents are returned, or an error where some cannot be read; nothing changes.
    abbrev pub Loads : Option (List Document) → Outcome (List Document) × W → Type 0
    Loads (some ds) r = r ≡ (ok ds, s)
    Loads none r = (e : Error) × (r ≡ (err e, s))

    abbrev Collects :
        Option (List Document)
        → List Document
        → List Error
        → Outcome (List Document × List Error) × W
        → Type 0
    Collects (some ds) result errors r = r ≡ (ok (result ++ ds, errors), s)
    Collects none result errors r =
        (out : List Document) × (e : Error) × (more : List Error) × (r
          ≡ (ok (out, errors ++ e ∷ more), s))

    load_entries-cons :
        (o o' : Option (List Document)) (load : Text → Action W (List Document)) (path name : Text)
        (rest : List Text) (result : List Document) (errors : List Error)
        → Loads o (load (files.join path name) s)
        → ((result : List Document) (errors : List Error)
            → Collects o' result errors (load_entries files load path rest result errors s))
        → Collects
            (both o o')
            result
            errors
            (load_entries files load path (name ∷ rest) result errors s)
    unfolding load_entries
    load_entries-cons (some d) (some ds) load path name rest result errors h t =
        rw h (rw append_assoc at (t (result ++ d) errors))
    load_entries-cons (some d) none load path name rest result errors h t =
        rw h (t (result ++ d) errors)
    load_entries-cons none (some ds) load path name rest result errors (e, h) t = (
      result ++ ds,
      wrap "failed to load data from path %s: %w" e,
      wrap "failed to ingest data from path %s: %w" e ∷ [],
      rw h (t result _),
    )
    load_entries-cons none none load path name rest result errors (e, h) t =
        let (out, e', more, r) = t result (
          errors
          ++ wrap "failed to load data from path %s: %w" e
            ∷ wrap "failed to ingest data from path %s: %w" e
            ∷ []) in
        (
          out,
          wrap "failed to load data from path %s: %w" e,
          wrap "failed to ingest data from path %s: %w" e ∷ e' ∷ more,
          rw (h, r, append_assoc) refl,
        )

    unless_failed-Loads :
        (o : Option (List Document)) (r : Outcome (List Document × List Error) × W)
        → Collects o [] [] r
        → Loads o (continue (λ (result, errors). unless_failed result errors) r)
    unless_failed-Loads (some ds) r h = rw h refl
    unless_failed-Loads none r (out, e, more, h) =
        (errorf "errors occurred during data ingestion: %v", rw h refl)

    mutual
      unfolding load_data_from_path load_path load_entries load_file documents Holds count

      load-Loads :
          (t : Tree) (fuel : ℕ) (path : Text)
          → count t ≤ fuel
          → Holds path t
          → Loads (documents path t) (load_data_from_path files fuel path s)
      load-Loads (file none) (suc fuel) path enough (stat, zip, (e, read)) =
          elim (Bool-cases (files.ext path == text_of ".json")) [
            | inl json ↦ rw (stat, zip, json, read) (wrap "failed to read JSON file %s: %w" e, refl)
            | inr other ↦ rw (stat, zip, other) refl
          ]
      load-Loads (file (some content)) (suc fuel) path enough (stat, zip, read) =
          elim (Bool-cases (files.ext path == text_of ".json")) [
            | inl json ↦ rw (stat, zip, json, read) refl
            | inr other ↦ rw (stat, zip, other) refl
          ]
      load-Loads (dir es) (suc fuel) path enough (stat, read, inside) =
          rw (stat, read)
            (unless_failed-Loads (documents_of path es) _
              (entries-Collects es fuel path (omega (arith, enough)) inside [] []))
      load-Loads (file c) zero path enough h = absurd (omega (arith, enough))
      load-Loads (dir es) zero path enough h = absurd (omega (arith, enough))

      entries-Collects :
          (es : Entries) (fuel : ℕ) (path : Text)
          → count_entries es ≤ fuel
          → HoldsAll path es
          → (result : List Document) (errors : List Error)
          → Collects
              (documents_of path es)
              result
              errors
              (load_entries files (load_data_from_path files fuel) path (names es) result errors s)
      entries-Collects end fuel path enough h result errors = rw append-nil refl
      entries-Collects (entry name t es) fuel path enough (h, hs) result errors =
          load_entries-cons (documents (files.join path name) t) (documents_of path es)
            (load_data_from_path files fuel) path name (names es) result errors
            (load-Loads t fuel (files.join path name) (omega (arith, enough)) h)
            (entries-Collects es fuel path (omega (arith, enough)) hs)

    -- On a file system that holds a tree with no archive in it, `LoadDataFromPath` with fuel for the
    -- files and directories of the tree returns its JSON files in the order of the directories, or
    -- an error where one of them cannot be read, and changes nothing.
    pub load_data_from_path-Loads :
        (t : Tree) (fuel : ℕ) (path : Text)
        → count t ≤ fuel
        → Holds path t
        → Loads (documents path t) (load_data_from_path files fuel path s)
    load_data_from_path-Loads t fuel path enough held = load-Loads t fuel path enough held
