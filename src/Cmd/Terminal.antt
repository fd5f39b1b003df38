-- ===== src/Cmd/Terminal.antt =====
-- Where a command writes: the standard output, as changes of a state `W`, and tables, which the
-- package tablewriter renders; its settings of lines and wrapping are left out.
use minefield.Prelude.{
  ℕ, ◌+◌, String, List, [], ◌∷◌, if◌then◌else◌, leb, Bool, true, Text, ℤ, pos, negsuc, Outcome, ok,
  bind, Action,
}
use minefield.Graph.Storage.{Bytes}

pub record Table : Type 0 where
  pub header : List Text
  pub rows : List (List Text)

pub record Terminal (W : Type 0) : Type 0 where
  -- `fmt.Printf` and the like, with the format and the arguments
  pub printf : String → List Text → W → W
  -- `cmd.Println`
  pub println : Bytes → W → W
  -- `Write`
  pub write : Bytes → Action W (Unit {0})
  -- the text that `Render` of a table writes
  pub render : Table → Text
  -- that text, written
  pub show : Text → W → W

-- `count >= maxOutput`, of integers
abbrev pub is_full : ℕ → ℤ → Bool
is_full count (negsuc _) = true
is_full count (pos max_output) = leb max_output count

-- The loop that appends rows to a table: no more than `max_output`.
unfoldable pub rows_up_to :
    {A : Type 0} → (A → Outcome (List Text)) → ℤ → ℕ → List A → Outcome (List (List Text))
rows_up_to row max_output count [] = ok []
rows_up_to row max_output count (a ∷ l) =
    let rest = rows_up_to row max_output (count + 1) l in
    if is_full count max_output then ok [] else bind (row a) λ r. bind rest λ rs. ok (r ∷ rs)
