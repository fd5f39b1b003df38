-- ===== src/Cmd/Ingest/Sent.antt =====
-- What the commands send.
use minefield.Prelude.{
  ℕ, ◌≤◌, ◌≡◌, refl, none, some, Option, List, ◌∷◌, [], ◌++◌, length, String, Text, Outcome, err,
  Error, wrap,
}
use minefield.Graph.Storage.{Bytes}
use minefield.Cmd.Loader.{Files, Document, load_data_from_path}
use minefield.Cmd.Loader.Listing.{Tree, count, documents, Holds, Loads, load_data_from_path-Loads}
use minefield.Cmd.Ingest.{IngestServiceClient, run_osv, run_sbom, run_scorecard}
use minefield.Cmd.Ingest.Recorded.{
  Request, vulnerability_request, sbom_request, scorecard_request, Records, requested, refused,
  answer, finished-IsSent,
}
use minefield.Cmd.Terminal.{Terminal}

module _ {W H R Z : Type 0} (files : Files W H R Z) (terminal : Terminal W)
    (client : IngestServiceClient W) (sent : W → List Request)
    (refuses : List Request → Request → Option Error)
    (records : Records terminal client sent refuses) (s : W) where
  -- The documents are requested up to the first that is refused, which is the error; where they
  -- could not be read, there is an error and nothing else.
  abbrev pub Delivers :
      (Bytes → Request) → String → Option (List Document) → Outcome (Unit {0}) × W → Type 0
  Delivers kind failed (some documents) r =
      (sent r.1 ≡ sent s ++ requested refuses kind (sent s) documents)
      × (r.0 ≡ answer failed (refused refuses kind (sent s) documents))
  Delivers kind failed none r = (e : Error) × (r ≡ (err e, s))

  abbrev pub DeliversOsv : Option (List Document) → Outcome (Unit {0}) × W → Type 0
  DeliversOsv = Delivers vulnerability_request "failed to ingest vulnerabilities: %w"

  abbrev pub DeliversSbom : Option (List Document) → Outcome (Unit {0}) × W → Type 0
  DeliversSbom = Delivers sbom_request "failed to ingest SBOM: %w"

  abbrev pub DeliversScorecard : Option (List Document) → Outcome (Unit {0}) × W → Type 0
  DeliversScorecard = Delivers scorecard_request "failed to ingest Scorecard: %w"

  run_osv-Delivers :
      (fuel : ℕ) (path : Text) (o : Option (List Document))
      → Loads files s o (load_data_from_path files fuel path s)
      → DeliversOsv o (run_osv files terminal client fuel (path ∷ []) s)
  unfolding run_osv
  run_osv-Delivers fuel path (some ds) h = rw h (
      finished-IsSent refuses vulnerability_request terminal sent client.ingest_vulnerability
        records.vulnerabilities records.prints _ _ _ ds 0 (length ds) s)
  run_osv-Delivers fuel path none (e, h) = (wrap "failed to load vulnerabilities: %w" e, rw h refl)

  run_sbom-Delivers :
      (fuel : ℕ) (path : Text) (o : Option (List Document))
      → Loads files s o (load_data_from_path files fuel path s)
      → DeliversSbom o (run_sbom files terminal client fuel (path ∷ []) s)
  unfolding run_sbom
  run_sbom-Delivers fuel path (some ds) h = rw h (
      finished-IsSent refuses sbom_request terminal sent client.ingest_sbom records.sboms
        records.prints _ _ _ ds 0 (length ds) s)
  run_sbom-Delivers fuel path none (e, h) = (wrap "failed to ingest SBOM: %w" e, rw h refl)

  run_scorecard-Delivers :
      (fuel : ℕ) (path : Text) (o : Option (List Document))
      → Loads files s o (load_data_from_path files fuel path s)
      → DeliversScorecard o (run_scorecard files terminal client fuel (path ∷ []) s)
  unfolding run_scorecard
  run_scorecard-Delivers fuel path (some ds) h = rw h (
      finished-IsSent refuses scorecard_request terminal sent client.ingest_scorecard
        records.scorecards records.prints _ _ _ ds 0 (length ds) s)
  run_scorecard-Delivers fuel path none (e, h) = (wrap "failed to ingest SBOM: %w" e, rw h refl)

  -- On a file system that holds a tree with no archive in it, with fuel for its files and
  -- directories, and with a server that records each request and refuses some, each of the commands
  -- osv, sbom and scorecard makes the server record one request of its kind for each JSON file of
  -- the tree, with its content and in the order of the directories, up to the first that is refused;
  -- it fails just where one is refused, with the error of that one. Where a JSON file cannot be
  -- read, the command fails and nothing is sent.
  pub ingest_commands-Deliver :
      (t : Tree) (fuel : ℕ) (path : Text)
      → count t ≤ fuel
      → Holds files s path t
      → DeliversOsv (documents files path t) (run_osv files terminal client fuel (path ∷ []) s)
        × DeliversSbom (documents files path t) (run_sbom files terminal client fuel (path ∷ []) s)
        × DeliversScorecard
            (documents files path t)
            (run_scorecard files terminal client fuel (path ∷ []) s)
  ingest_commands-Deliver t fuel path enough held =
      let loads = load_data_from_path-Loads files s t fuel path enough held in
      let o = documents files path t in
      (
        run_osv-Delivers fuel path o loads,
        run_sbom-Delivers fuel path o loads,
        run_scorecard-Delivers fuel path o loads,
      )
