-- ===== src/Cmd/Llm/Answered.antt =====
-- The answer to a script is a text, whatever the script is, where the services answer or fail.
use minefield.Prelude.{
  ℕ, ◌+◌, ◌≡◌, refl, ◌⊎◌, inl, inr, String, true, false, Bool-cases, Option, some, List, [], ◌∷◌,
  ◌++◌, All, ◌==◌, string_eq, text_eq, Text, text_of, trim_prefix, ℤ, Error, Outcome, ok, err,
  panic, out_of_fuel, is_ok, Action,
}
use minefield.Graph.Storage.{Bytes}
use minefield.Service.{ServiceNode}
use minefield.Cmd.Loader.{starts_with}
use minefield.Cmd.Helpers.{Json, QueryMessage, nodes_json, queries_json}
use minefield.Cmd.Terminal.{Terminal, rows_up_to, is_full}
use minefield.Cmd.Query.{items, is_empty}
use minefield.Cmd.Leaderboard.Custom.{info_header}
use minefield.Cmd.Query.{columns, cells, row_of, header}
use minefield.Cmd.Llm.{Session, Message}
use minefield.Cmd.Llm.Answer.{
  Clients, Options, answer, answer_trimmed, results, format_table, format_leaderboard_table,
  format_table_glob_search, leaderboard_row,
}

rows_up_to-ok :
    {A : Type 0} (row : A → Outcome (List Text)) (max_output : ℤ) (count : ℕ) (l : List A)
    → All (λ a. (cells : List Text) × (row a ≡ ok cells)) l
    → (rows : List (List Text)) × (rows_up_to row max_output count l ≡ ok rows)
unfolding rows_up_to
rows_up_to-ok row max_output count [] h = ([], refl)
rows_up_to-ok row max_output count (a ∷ l) ((cells, cell), h) =
    let (rows, rest) = rows_up_to-ok row max_output (count + 1) l h in
    elim (Bool-cases (is_full count max_output)) [
      | inl full ↦ ([], rw full refl)
      | inr more ↦ (cells ∷ rows, rw (more, cell, rest) refl)
    ]

is_ok-total : {A : Type 0} (o : Outcome A) → is_ok o ≡ true → (a : A) × (o ≡ ok a)
is_ok-total (ok a) h = (a, refl)
is_ok-total (err e) h = cc
is_ok-total panic h = cc
is_ok-total out_of_fuel h = cc

pub first_choice :
    (choices : List Text)
    → is_empty choices ≡ false
    → (script : Text) × (more : List Text) × (choices ≡ script ∷ more)
first_choice [] h = cc
first_choice (script ∷ more) h = (script, more, refl)

All-total :
    {A : Type 0} (f : A → List Text) (l : List A)
    → All (λ a. (cells : List Text) × (Outcome.ok (f a) ≡ ok cells)) l
All-total f [] = tt
All-total f (a ∷ l) = ((f a, refl), All-total f l)

abbrev HasNode : QueryMessage → Type 0
HasNode q = (node : ServiceNode) × (q.node ≡ some node)

module _ {W D C J F : Type 0} (json : Json J F) (terminal : Terminal W) (clients : Clients W)
    (session : Session W D C) (o : Options) where
  -- `Pending s lines`: in the state `s` the lines wait on the standard input. A call leaves them
  -- there, and returns a value or, where it may, an error.
  module _ (Pending : W → List Text → Type 0) where
    abbrev pub Answers : {A : Type 0} → (A → Type 0) → Action W A → Type 0
    Answers {A} Q m =
        (s : W) (lines : List Text)
        → Pending s lines
        → (a : A) × (s' : W) × (m s ≡ (ok a, s')) × Q a × Pending s' lines

    abbrev AnswersOrFails : {A : Type 0} → (A → Type 0) → Action W A → Type 0
    AnswersOrFails {A} Q m =
        (s : W) (lines : List Text)
        → Pending s lines
        → ((a : A) × (s' : W) × (m s ≡ (ok a, s')) × Q a × Pending s' lines)
          ⊎ ((e : Error) × (s' : W) × (m s ≡ (err e, s')) × Pending s' lines)

    pub record Available : Type 0 where
      pub read_string :
          (s : W) (line : Text) (lines : List Text)
          → Pending s (line ∷ lines)
          → (s' : W) × (session.read_string s ≡ (ok line, s')) × Pending s' lines
      pub printf :
          (format : String) (args : List Text) (s : W) (lines : List Text)
          → Pending s lines
          → Pending (terminal.printf format args s) lines
      pub query : (c : C) (text : Text) → Answers (λ _. Unit {0}) (session.query c text)
      pub complete :
          (messages : List Message)
          → Answers (λ choices. is_empty choices ≡ false) (session.create_chat_completion messages)
      pub scripts : (script : Text) → AnswersOrFails (λ _. Unit {0}) (clients.query.query script)
      pub globs :
          (glob : Text) → AnswersOrFails (λ _. Unit {0}) (clients.graph.get_nodes_by_glob glob)
      pub leaderboards :
          (script : Text)
          → AnswersOrFails
              (λ queries. All HasNode (items queries))
              (clients.leaderboard.custom_leaderboard script)

    module _ (a : Available) (no_json : (o.output == "json") ≡ false) where
      -- The request is answered by a text, if the table can be rendered.
      results-Answers :
          {A : Type 0} (Q : Option (List A) → Type 0) (failed : String)
          (request : Action W (Option (List A))) (to_json : Option (List A) → Outcome Bytes)
          (to_table : List A → Action W Text)
          → AnswersOrFails Q request
          → ((found : Option (List A)) (s : W)
              → Q found
              → (text : Text) × (to_table (items found) s ≡ (ok text, s)))
          → Answers
              (λ _. Unit {0})
              (results json terminal clients o failed request to_json to_table)
      results-Answers Q failed request to_json to_table answers table s lines p =
          elim (answers s lines p) [
            | inr (e, s', r, p') ↦ (text_of failed ++ clients.error_text e, s', rw r refl, tt, p')
            | inl (found, s', r, q, p') ↦ elim (Bool-cases (is_empty (items found))) [
              | inl nothing ↦ (text_of "No results found", s', rw (r, nothing) refl, tt, p')
              | inr something ↦ elim (Bool-cases (o.output == "table")) [
                | inl as_table ↦
                    let (text, shown) = table found s' q in
                    (text, s', rw (r, something, no_json, as_table) shown, tt, p')
                | inr unknown ↦ ([], s', rw (r, something, no_json, unknown) refl, tt, p')
              ]
            ]
          ]

      leaderboard_rows :
          (queries : List QueryMessage)
          → All HasNode queries
          → All
              (λ q. (cells : List Text) × (leaderboard_row json terminal clients o q ≡ ok cells))
              queries
      unfolding leaderboard_row
      leaderboard_rows [] h = tt
      leaderboard_rows (q ∷ queries) ((node, has), h) = (
        is_ok-total (leaderboard_row json terminal clients o q) (rw has refl),
        leaderboard_rows queries h,
      )

      format_leaderboard_table-ok :
          (queries : List QueryMessage) (s : W)
          → All HasNode queries
          → (text : Text) × (format_leaderboard_table json terminal clients o queries s
              ≡ (ok text, s))
      unfolding format_leaderboard_table
      format_leaderboard_table-ok queries s h =
          let (rows, e) =
            rows_up_to-ok (leaderboard_row json terminal clients o) o.max_output 0 queries
              (leaderboard_rows queries h) in
          (
            terminal.render
                (record { header = info_header json terminal o.show_info; rows = rows }),
            rw e refl,
          )

      format_table-ok :
          (nodes : List ServiceNode) (s : W)
          → (text : Text) × (format_table json terminal clients o nodes s ≡ (ok text, s))
      unfolding format_table
      format_table-ok nodes s =
          let (rows, e) =
            rows_up_to-ok (λ n. ok (row_of json terminal o.show_info n)) o.max_output 0 nodes
              (All-total (row_of json terminal o.show_info) nodes) in
          (
            terminal.render (record { header = header json terminal o.show_info; rows = rows }),
            rw e refl,
          )

      format_table_glob_search-ok :
          (nodes : List ServiceNode) (s : W)
          → (text : Text) × (format_table_glob_search json terminal clients o nodes s
              ≡ (ok text, s))
      unfolding format_table_glob_search
      format_table_glob_search-ok nodes s =
          let (rows, e) =
            rows_up_to-ok (λ n. ok (cells n)) o.max_output 0 nodes (All-total cells nodes) in
          (terminal.render (record { header = columns; rows = rows }), rw e refl)

      answer_trimmed-Answers :
          (script : Text) → Answers (λ _. Unit {0}) (answer_trimmed json terminal clients o script)
      unfolding answer_trimmed
      answer_trimmed-Answers script s lines p =
          elim (Bool-cases (starts_with script (text_of "leaderboard:"))) [
            | inl is ↦ rw is (
                results-Answers (λ queries. All HasNode (items queries))
                  "Leaderboard query failed: " _ (queries_json json)
                  (format_leaderboard_table json terminal clients o)
                  (a.leaderboards (trim_prefix script (text_of "leaderboard:")))
                  (λ found s q. format_leaderboard_table-ok (items found) s q) _ lines
                  (a.printf _ _ s lines p))
            | inr not_leaderboard ↦ elim (Bool-cases (starts_with script (text_of "query:"))) [
              | inl is ↦
                  rw (not_leaderboard, is)
                    (results-Answers (λ _. Unit {0}) "Query failed: " _ (nodes_json json)
                      (format_table json terminal clients o)
                      (a.scripts (trim_prefix script (text_of "query:")))
                      (λ found s q. format_table-ok (items found) s) _ lines
                      (a.printf _ _ s lines p))
              | inr not_query ↦ elim (Bool-cases (starts_with script (text_of "globsearch:"))) [
                | inl is ↦
                    rw (not_leaderboard, not_query, is)
                      (results-Answers (λ _. Unit {0}) "Query failed: " _ (nodes_json json)
                        (format_table_glob_search json terminal clients o)
                        (a.globs (trim_prefix script (text_of "globsearch:")))
                        (λ found s q. format_table_glob_search-ok (items found) s) _ lines
                        (a.printf _ _ s lines p))
                | inr other ↦
                    rw (not_leaderboard, not_query, other)
                      (text_of "Sorry the query failed, please try again.", s, refl, tt, p)
              ]
            ]
          ]

      pub answer-Answers :
          (script : Text)
          → Answers (λ _. Unit {0}) (answer json terminal clients o session.trim_space script)
      unfolding answer
      answer-Answers script s lines p = elim (Bool-cases (is_empty (session.trim_space script))) [
        | inl blank ↦ rw blank ([], s, refl, tt, p)
        | inr some_script ↦
            rw some_script (answer_trimmed-Answers (session.trim_space script) s lines p)
      ]
