-- ===== src/Cmd/Llm/Ended.antt =====
-- A session ends where the user types `exit`.
use minefield.Prelude.{
  ℕ, zero, suc, ◌<◌, ◌≡◌, refl, inl, inr, arith, true, false, Bool-cases, some, List, [], ◌∷◌, ◌++◌,
  length, take, ◌==◌, string_eq, text_eq, Text, text_of, ok,
}
use minefield.Cmd.Helpers.{Json}
use minefield.Cmd.Terminal.{Terminal}
use minefield.Cmd.Llm.Prompt.{prompt}
use minefield.Cmd.Llm.{Session, user, assistant, Message, feedback, chat, ask, context_text}
use minefield.Cmd.Llm.Answer.{Clients, Options}
use minefield.Cmd.Llm.Answered.{Answers, Available, first_choice, answer-Answers}

module _ {W D C J F : Type 0} (json : Json J F) (terminal : Terminal W) (clients : Clients W)
    (session : Session W D C) (o : Options) (Pending : W → List Text → Type 0)
    (a : Available json terminal clients session o Pending)
    (no_json : (o.output == "json") ≡ false) where
  ask-Answers :
      (c : C) (messages : List Message) (input : Text)
      → Answers json terminal clients session o Pending
          (λ _. Unit {0})
          (ask json terminal clients session o (some c) messages input)
  unfolding ask
  ask-Answers c messages input s lines p =
      let (contents, s₁, found, _, p₁) = a.query c input s lines p in
      let question = prompt (context_text (take 13 contents)) input in
      let asked = messages ++ record { role = user; content = question } ∷ [] in
      let (choices, s₂, completed, some_choice, p₂) = a.complete asked s₁ lines p₁ in
      let (script, more, e) = first_choice choices some_choice in
      let (text, s₃, answered, _, p₃) =
        answer-Answers json terminal clients session o Pending a no_json script s₂ lines p₂ in
      (
        asked ++ record { role = assistant; content = feedback text } ∷ [],
        terminal.printf "%s\n" (feedback text ∷ []) s₃,
        rw (found, completed, e, answered) refl,
        tt,
        a.printf "%s\n" (feedback text ∷ []) s₃ lines p₃,
      )

  -- Where `exit` is among the lines that the user types, results are shown as a table, the model
  -- and its collection answer, and the services answer or fail, with a node in each query of a
  -- leaderboard, the session ends without an error, whatever the model answers.
  pub chat_ends :
      (lines : List Text) (last : Text) (more : List Text) (fuel : ℕ) (c : C)
      (messages : List Message) (s : W)
      → Pending s (lines ++ last ∷ more)
      → (session.to_lower (session.trim_space last) == text_of "exit") ≡ true
      → length lines < fuel
      → (s' : W) × (chat json terminal clients session o fuel (some c) messages s ≡ (ok tt, s'))
  unfolding chat
  chat_ends lines last more zero c messages s p exit enough = absurd (omega (arith, enough))
  chat_ends [] last more (suc fuel) c messages s p exit enough =
      let (s₁, read, p₁) = a.read_string _ last more (a.printf "\nYou: " [] s _ p) in
      (terminal.printf "Ending chat session. Goodbye!\n" [] s₁, rw (read, exit) refl)
  chat_ends (line ∷ lines) last more (suc fuel) c messages s p exit enough =
      let (s₁, read, p₁) =
        a.read_string _ line (lines ++ last ∷ more) (a.printf "\nYou: " [] s _ p) in
      elim (Bool-cases (session.to_lower (session.trim_space line) == text_of "exit")) [
        | inl ends ↦ (terminal.printf "Ending chat session. Goodbye!\n" [] s₁, rw (read, ends) refl)
        | inr goes_on ↦
            let (asked, s₂, asking, _, p₂) =
              ask-Answers c messages (session.trim_space line) s₁ (lines ++ last ∷ more) p₁ in
            let (s₃, rest) =
              chat_ends lines last more fuel c asked s₂ p₂ exit (omega (arith, enough)) in
            (s₃, rw (read, goes_on, asking) rest)
      ]
