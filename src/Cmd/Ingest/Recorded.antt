-- ===== src/Cmd/Ingest/Recorded.antt =====
-- A server that records the requests, and what a list of documents makes it record.
use mathlib.Core.List.{append_assoc, append-nil}
use minefield.Prelude.{
  ℕ, ◌+◌, ◌≡◌, refl, sym, ap, ◌∙◌, none, some, Option, List, [], ◌∷◌, ◌++◌, String, Text, pos,
  Outcome, ok, err, panic, out_of_fuel, Error, Action, continue, modify, wrap,
}
use minefield.Graph.Storage.{Bytes}
use minefield.Cmd.Helpers.{truncate_string}
use minefield.Cmd.Loader.{Document}
use minefield.Cmd.Ingest.{IngestServiceClient, send_documents, show_progress}
use minefield.Cmd.Terminal.{Terminal}

-- a request to the server
pub data Request : Type 0 where
  vulnerability_request sbom_request scorecard_request : Bytes → Request

abbrev pub answer : String → Option Error → Outcome (Unit {0})
answer failed none = ok tt
answer failed (some e) = err (wrap failed e)

-- The server records a request, and refuses it or not by the requests before.
abbrev pub Sends :
    {W : Type 0}
    → (W → List Request)
    → (List Request → Request → Option Error)
    → (Bytes → Request)
    → (Bytes → Action W (Unit {0}))
    → Type 0
Sends {W} sent refuses kind send =
    (content : Bytes) (w : W)
    → ((e : Error) → refuses (sent w) (kind content) ≡ some e → (send content w).0 ≡ err e)
      × (refuses (sent w) (kind content) ≡ none → (send content w).0 ≡ ok tt)
      × (sent (send content w).1 ≡ sent w ++ kind content ∷ [])

-- The calls of the client are recorded, and what is printed is not.
pub record Records {W : Type 0} (terminal : Terminal W) (client : IngestServiceClient W)
    (sent : W → List Request) (refuses : List Request → Request → Option Error) : Type 0 where
  pub prints :
      (format : String) (args : List Text) (w : W) → sent (terminal.printf format args w) ≡ sent w
  pub vulnerabilities : Sends sent refuses vulnerability_request client.ingest_vulnerability
  pub sboms : Sends sent refuses sbom_request client.ingest_sbom
  pub scorecards : Sends sent refuses scorecard_request client.ingest_scorecard

module _ (refuses : List Request → Request → Option Error) (kind : Bytes → Request) where
  -- The contents are requested in their order, up to the first that is refused.
  unfoldable pub requested : List Request → List Document → List Request
  requested log [] = []
  requested log (d ∷ ds) = kind d.content ∷ elim (refuses log (kind d.content)) [
    | none ↦ requested (log ++ kind d.content ∷ []) ds
    | some _ ↦ []
  ]

  -- the error of the first that is refused
  unfoldable pub refused : List Request → List Document → Option Error
  refused log [] = none
  refused log (d ∷ ds) = elim (refuses log (kind d.content)) [
    | none ↦ refused (log ++ kind d.content ∷ []) ds
    | some e ↦ some e
  ]

  module _ {W : Type 0} (terminal : Terminal W) (sent : W → List Request)
      (send : Bytes → Action W (Unit {0})) (sends : Sends sent refuses kind send)
      (prints : (format : String) (args : List Text) (w : W)
        → sent (terminal.printf format args w) ≡ sent w)
      (failed format : String) where
    abbrev IsSent : List Document → W → Outcome (Unit {0}) × W → Type 0
    IsSent ds w r =
        (sent r.1 ≡ sent w ++ requested (sent w) ds) × (r.0 ≡ answer failed (refused (sent w) ds))

    abbrev run : ℕ → ℕ → List Document → Action W (Unit {0})
    run index total ds =
        send_documents terminal send failed (show_progress terminal format) index total ds

    step :
        (d : Document) (ds : List Document) (index total : ℕ) (w : W) (o : Option Error)
        → refuses (sent w) (kind d.content) ≡ o
        → ((w' : W) → IsSent ds w' (run (index + 1) total ds w'))
        → IsSent (d ∷ ds) w (run index total (d ∷ ds) w)
    unfolding send_documents requested refused
    step d ds index total w (some e) refusing rest =
        let (fails, _, grows) = sends d.content w in
        let ended : (run index total (d ∷ ds) w).0 ≡ err (wrap failed e) =
          rw (fails e refusing) refl in
        let stays : sent (run index total (d ∷ ds) w).1 ≡ sent (send d.content w).1 =
          rw (fails e refusing) refl in
        let asked : requested (sent w) (d ∷ ds) ≡ kind d.content ∷ [] = rw refusing refl in
        let error : refused (sent w) (d ∷ ds) ≡ some e = rw (refusing, refused) refl in
        (stays ∙ grows ∙ ap (λ l. sent w ++ l) (sym asked), ended ∙ ap (answer failed) (sym error))
    step d ds index total w none refusing rest =
        let (_, works, grows) = sends d.content w in
        let w' =
          show_progress terminal format (index + 1) total (truncate_string d.path (pos 50))
            (send d.content w).1 in
        let same : sent w' ≡ sent w ++ kind d.content ∷ [] = prints _ _ _ ∙ prints _ _ _ ∙ grows in
        let (more, ended) = rest w' in
        let next : run index total (d ∷ ds) w ≡ run (index + 1) total ds w' =
          rw (works refusing) refl in
        let log = sent w ++ kind d.content ∷ [] in
        let asked : requested (sent w) (d ∷ ds) ≡ kind d.content ∷ requested log ds =
          rw refusing refl in
        let error : refused (sent w) (d ∷ ds) ≡ refused log ds = rw (refusing, refused) refl in
        (
          ap (λ r. sent r.1) next
              ∙ more
              ∙ ap (λ l. l ++ requested l ds) same
              ∙ append_assoc (sent w) (kind d.content ∷ []) (requested log ds)
              ∙ ap (λ l. sent w ++ l) (sym asked),
          ap (λ r. r.0) next
              ∙ ended
              ∙ ap (λ l. answer failed (refused l ds)) same
              ∙ ap (answer failed) (sym error),
        )

    send_documents-IsSent :
        (ds : List Document) (index total : ℕ) (w : W) → IsSent ds w (run index total ds w)
    unfolding send_documents requested refused
    send_documents-IsSent [] index total w = (sym (append-nil (sent w)), refl)
    send_documents-IsSent (d ∷ ds) index total w =
        step d ds index total w (refuses (sent w) (kind d.content)) refl
          (λ w'. send_documents-IsSent ds (index + 1) total w')

    finished :
        (text : String) (ds : List Document) (w : W) (r : Outcome (Unit {0}) × W)
        → IsSent ds w r
        → IsSent ds w (continue (λ _. modify (terminal.printf text [])) r)
    finished text ds w (ok tt, s) (grows, ends) = (prints text [] s ∙ grows, ends)
    finished text ds w (err e, s) h = h
    finished text ds w (panic, s) h = h
    finished text ds w (out_of_fuel, s) h = h

    pub finished-IsSent :
        (text : String) (ds : List Document) (index total : ℕ) (w : W)
        → IsSent ds w (continue (λ _. modify (terminal.printf text [])) (run index total ds w))
    finished-IsSent text ds index total w =
        finished text ds w (run index total ds w) (send_documents-IsSent ds index total w)
