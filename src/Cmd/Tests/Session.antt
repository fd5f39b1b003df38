-- ===== src/Cmd/Tests/Session.antt =====
-- A session over the lines that wait on the standard input, with a witness.
use minefield.Prelude.{
  ◌≡◌, refl, inl, arith, true, none, some, List, [], ◌∷◌, string_eq, Text, text_of, pos, errorf,
  Outcome, ok, err,
}
use minefield.Cmd.Terminal.{Terminal}
use minefield.Cmd.Llm.{Session, chat}
use minefield.Cmd.Llm.Answer.{Clients, Options}
use minefield.Cmd.Llm.Answered.{Available}
use minefield.Cmd.Llm.Ended.{chat_ends}
use minefield.Cmd.Tests.Screen.{screen, json}

-- the lines that wait
abbrev Input : Type 0
Input = List Text

abbrev silent : Terminal Input
silent = record screen {
  printf = λ format args w. w;
  println = λ bytes w. w;
  write = λ bytes w. (ok tt, w);
  show = λ text w. w;
}

abbrev next_line : Input → Outcome Text × Input
next_line [] = (err (errorf "EOF"), [])
next_line (line ∷ lines) = (ok line, lines)

abbrev session : Session Input (Unit {0}) (Unit {0})
session = record {
  api_key = text_of "key";
  new_persistent_db = λ w. (ok tt, w);
  get_collection = λ db. some tt;
  read_string = next_line;
  query = λ c text w. (ok (text ∷ []), w);
  create_chat_completion = λ messages w. (ok (text_of "query:dependencies library a" ∷ []), w);
  trim_space = λ text. text;
  to_lower = λ text. text;
}

abbrev clients : Clients Input
clients = record {
  query = record { query = λ script w. (ok none, w) };
  leaderboard = record {
    all_keys = λ w. (ok none, w);
    custom_leaderboard = λ script w. (ok none, w);
  };
  graph = record {
    get_node_by_name = λ name w. (ok none, w);
    get_nodes_by_glob = λ glob w. (ok none, w);
  };
  error_text = λ e. [];
}

abbrev as_table : Options
as_table = record { max_output = pos 10; show_info = true; output = "table" }

abbrev Waits : Input → List Text → Type 0
Waits w lines = w ≡ lines

available : Available json silent clients session as_table Waits
available = record {
  read_string = λ s line lines p. (lines, rw p refl, refl);
  printf = λ format args s lines p. p;
  query = λ c text s lines p. (text ∷ [], s, refl, tt, p);
  complete = λ messages s lines p. (text_of "query:dependencies library a" ∷ [], s, refl, refl, p);
  scripts = λ script s lines p. inl (none, s, refl, tt, p);
  globs = λ glob s lines p. inl (none, s, refl, tt, p);
  leaderboards = λ script s lines p. inl (none, s, refl, tt, p);
}

chat_ends_example :
    (s : Input) × (chat json silent clients session as_table 2
        (some tt)
        []
        (text_of "what" ∷ text_of "exit" ∷ [])
      ≡ (ok tt, s))
unfolding text_of
chat_ends_example =
    chat_ends json silent clients session as_table Waits available refl (text_of "what" ∷ [])
      (text_of "exit") [] 2 tt [] (text_of "what" ∷ text_of "exit" ∷ []) refl refl (omega arith)
