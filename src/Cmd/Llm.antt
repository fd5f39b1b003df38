-- ===== src/Cmd/Llm.antt =====
-- cmd/llm/llm.go: the chat session. The environment, the standard input, the packages chromem-go and
-- go-openai and the clients are parameters, and so are `strings.TrimSpace`, `strings.ToLower` and the
-- text of an error. A method of a nil collection is taken to panic.
pub mod Prompt
pub mod Answer
pub mod Answered
pub mod Ended
use minefield.Prelude.{
  ℕ, zero, suc, String, true, false, Option, some, List, [], ◌∷◌, ◌++◌, take, if◌then◌else◌, ◌==◌,
  text_eq, Text, text_of, errorf, Outcome, panic, out_of_fuel, ok, Action, ◌>>=◌, ◌>>◌, pure, throw,
  lift, guard, modify, context, deref, not,
}
use minefield.Cmd.Helpers.{Json, argument}
use minefield.Cmd.Terminal.{Terminal}
use minefield.Cmd.Query.{is_empty}
use Answer.{Clients, answer, Options}
use Prompt.{prompt_template, prompt}

pub data Role : Type 0 where
  system user assistant : Role

-- `openai.ChatCompletionMessage`
pub record Message : Type 0 where
  pub role : Role
  pub content : Text

pub record Session (W D C : Type 0) : Type 0 where
  -- `os.Getenv("OPENAI_API_KEY")`
  pub api_key : Text
  -- `chromadb.NewPersistentDB`
  pub new_persistent_db : Action W D
  -- `GetCollection`, which is nil where there is none
  pub get_collection : D → Option C
  -- `reader.ReadString('\n')`
  pub read_string : Action W Text
  -- the contents of the results of `Query`
  pub query : C → Text → Action W (List Text)
  -- the contents of the choices of `CreateChatCompletion`
  pub create_chat_completion : List Message → Action W (List Text)
  pub trim_space : Text → Text
  pub to_lower : Text → Text

-- the loop that builds the context
unfoldable pub context_text : List Text → Text
context_text [] = []
context_text (content ∷ contents) = content ++ 10 ∷ 10 ∷ context_text contents

abbrev pub feedback : Text → Text
feedback query_result =
    text_of "Here are the results of the query:\n"
    ++ query_result
    ++ text_of "\nWhat else would you like to know?"

module _ {W D C J F : Type 0} (json : Json J F) (terminal : Terminal W) (clients : Clients W)
    (session : Session W D C) (o : Options) where
  -- a question, with what is answered added to the messages
  unfoldable pub ask : Option C → List Message → Text → Action W (List Message)
  unfolding context_text
  ask collection messages input = do
    c ← deref collection
    result_embeddings ← context "failed to query ChromaDB: %w" (session.query c input)
    let question = prompt (context_text (take 13 result_embeddings)) input
    let asked = messages ++ record { role = user; content = question } ∷ []
    choices ← context "failed to create chat completion: %w" (session.create_chat_completion asked)
    script ← lift (argument choices)
    query_result ← answer json terminal clients o session.trim_space script
    modify (terminal.printf "%s\n" (feedback query_result ∷ []))
    pure (asked ++ record { role = assistant; content = feedback query_result } ∷ [])

  -- The loop; `fuel` bounds the lines.
  unfoldable pub chat : ℕ → Option C → List Message → Action W (Unit {0})
  unfolding ask
  chat zero collection messages = lift out_of_fuel
  chat (suc fuel) collection messages = do
    modify (terminal.printf "\nYou: " [])
    line ← context "error reading input: %w" session.read_string
    let input = session.trim_space line
    (if session.to_lower input == text_of "exit"
        then modify (terminal.printf "Ending chat session. Goodbye!\n" [])
        else (do more ← ask collection messages input; chat fuel collection more))

  -- `options.Run`
  unfoldable pub run : ℕ → Action W (Unit {0})
  unfolding chat
  run fuel = do
    guard (not (is_empty session.api_key)) (errorf "OPENAI_API_KEY environment variable is not set")
    db ← context "failed to initialize ChromaDB: %w" session.new_persistent_db
    modify (terminal.printf "Starting chat session. Type 'exit' to end.\n" [])
    chat fuel (session.get_collection db) (record { role = system; content = prompt_template } ∷ [])
