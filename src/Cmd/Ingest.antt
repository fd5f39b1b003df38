-- ===== src/Cmd/Ingest.antt =====
-- cmd/ingest: the commands osv, sbom and scorecard. Their client is a parameter; the addresses and
-- the construction of a client are left out.
pub mod Recorded
pub mod Sent
use minefield.Prelude.{
  ℕ, suc, ◌+◌, String, List, [], ◌∷◌, length, Text, pos, Outcome, ok, panic, Action, ◌>>=◌, ◌>>◌,
  pure, lift, modify, context,
}
use minefield.Graph.Storage.{Bytes}
use minefield.Utils.{uint32_to_str}
use minefield.Cmd.Loader.{Files, Document, load_data_from_path}
use minefield.Cmd.Helpers.{truncate_string, argument}
use minefield.Cmd.Terminal.{Terminal}

-- `IngestServiceClient`
pub record IngestServiceClient (W : Type 0) : Type 0 where
  pub ingest_sbom : Bytes → Action W (Unit {0})
  pub ingest_vulnerability : Bytes → Action W (Unit {0})
  pub ingest_scorecard : Bytes → Action W (Unit {0})

module _ {W : Type 0} (terminal : Terminal W) where
  -- The loops of the three commands, which differ in the request and in the texts: one request for
  -- each document, and the progress.
  unfoldable pub send_documents :
      (Bytes → Action W (Unit {0}))
      → String
      → (ℕ → ℕ → Text → W → W)
      → ℕ
      → ℕ
      → List Document
      → Action W (Unit {0})
  send_documents send failed progress index total [] = pure tt
  send_documents send failed progress index total (document ∷ documents) = do
    context failed (send document.content)
    modify (progress (index + 1) total (truncate_string document.path (pos 50)))
    send_documents send failed progress (index + 1) total documents

  -- the line is cleared, and written
  abbrev pub show_progress : String → ℕ → ℕ → Text → W → W
  show_progress format index total path w =
      terminal.printf format (uint32_to_str index ∷ uint32_to_str total ∷ path ∷ [])
        (terminal.printf "\r\u{1b}[1;36m%-80s\u{1b}[0m" ((b' ' ∷ []) ∷ []) w)

module _ {W H R Z : Type 0} (files : Files W H R Z) (terminal : Terminal W)
    (client : IngestServiceClient W) (fuel : ℕ) where
  -- `fuel` bounds the depth of the directories and archives.
  unfoldable pub run_osv : List Text → Action W (Unit {0})
  unfolding send_documents
  run_osv args = do
    vulns_path ← lift (argument args)
    result ←
        context "failed to load vulnerabilities: %w" (load_data_from_path files fuel vulns_path)
    send_documents terminal client.ingest_vulnerability "failed to ingest vulnerabilities: %w"
        (show_progress terminal
          "\r\u{1b}[K\u{1b}[1;36mIngested %d/%d vulnerabilities\u{1b}[0m | \u{1b}[1;34mCurrent: %s\u{1b}[0m")
        0 (length result) result
    modify (terminal.printf "\nVulnerabilities ingested successfully\n" [])

  unfoldable pub run_sbom : List Text → Action W (Unit {0})
  unfolding send_documents
  run_sbom args = do
    sbom_path ← lift (argument args)
    result ← context "failed to ingest SBOM: %w" (load_data_from_path files fuel sbom_path)
    send_documents terminal client.ingest_sbom "failed to ingest SBOM: %w"
        (show_progress terminal
          "\r\u{1b}[1;36mIngested %d/%d SBOMs\u{1b}[0m | \u{1b}[1;34m%s\u{1b}[0m")
        0 (length result) result
    modify (terminal.printf "\nSBOMs ingested successfully\n" [])

  unfoldable pub run_scorecard : List Text → Action W (Unit {0})
  unfolding send_documents
  run_scorecard args = do
    scorecard_path ← lift (argument args)
    result ← context "failed to ingest SBOM: %w" (load_data_from_path files fuel scorecard_path)
    send_documents terminal client.ingest_scorecard "failed to ingest Scorecard: %w"
        (show_progress terminal
          "\r\u{1b}[1;36mIngested %d/%d Scorecards\u{1b}[0m | \u{1b}[1;34m%s\u{1b}[0m")
        0 (length result) result
    modify (terminal.printf "\nScorecards ingested successfully\n" [])
