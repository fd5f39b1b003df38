-- ===== src/Cmd/Query/Shown.antt =====
-- The tables of nodes.
use minefield.Prelude.{
  ℕ, zero, suc, ◌+◌, ◌-◌, ◌≡◌, refl, arith, Bool, Bool-cases, inl, inr, some, List, [], ◌∷◌, map,
  take, Text, ℤ, pos, negsuc, Outcome, ok, leb,
}
use minefield.Service.{ServiceNode}
use minefield.Cmd.Helpers.{Json}
use minefield.Cmd.Terminal.{Terminal, rows_up_to}
use minefield.Cmd.Query.{columns, cells, row_of, header}
use minefield.Cmd.Query.Custom
use minefield.Cmd.Query.Globsearch
use minefield.Cmd.Leaderboard.Keys

-- the number of nodes that are shown; a negative limit shows none
abbrev pub limit : ℤ → ℕ
limit (pos n) = n
limit (negsuc n) = 0

take-nil : {A : Type 0} (n : ℕ) → take {A = A} n [] ≡ []
take-nil zero = refl
take-nil (suc n) = refl

module _ {A : Type 0} (f : A → List Text) where
  rows_up_to-pos :
      (n count : ℕ) (l : List A)
      → rows_up_to (λ a. ok (f a)) (pos n) count l ≡ ok (map f (take (n - count) l))
  unfolding rows_up_to
  rows_up_to-pos n count [] = rw (take-nil (n - count)) refl
  rows_up_to-pos n count (a ∷ l) = elim (Bool-cases (leb n count)) [
    | inl full ↦ let none_left : n - count ≡ 0 = ground (arith, full) in rw (full, none_left) refl
    | inr more ↦
        let one_left : n - count ≡ suc (n - (count + 1)) = ground (arith, more) in
        rw (more, one_left, rows_up_to-pos n (count + 1) l) refl
  ]

  rows_up_to-take :
      (max_output : ℤ) (l : List A)
      → rows_up_to (λ a. ok (f a)) max_output 0 l ≡ ok (map f (take (limit max_output) l))
  unfolding rows_up_to
  rows_up_to-take (pos n) l =
      let all_left : n - 0 ≡ n = omega arith in rw (rows_up_to-pos n 0 l, all_left) refl
  rows_up_to-take (negsuc n) [] = refl
  rows_up_to-take (negsuc n) (a ∷ l) = refl

module _ {W J F : Type 0} (json : Json J F) (terminal : Terminal W) where
  -- what is written for a table of the first nodes
  abbrev pub shows_first :
      ℤ → List Text → (ServiceNode → List Text) → List ServiceNode → W → Outcome (Unit {0}) × W
  shows_first max_output titles row nodes s = (
    ok tt,
    terminal.show
        (terminal.render
          (record { header = titles; rows = map row (take (limit max_output) nodes) }))
        s,
  )

  -- The tables of custom, globsearch and keys show the first nodes of the response in their order, as
  -- many as the limit says and none below zero, with the information where it is asked for.
  pub tables_show_first :
      (nodes : List ServiceNode) (max_output : ℤ) (show_info : Bool) (s : W)
      → (Custom.format_table json terminal nodes max_output show_info s
          ≡ shows_first max_output
              (header json terminal show_info)
              (row_of json terminal show_info)
              nodes
              s)
        × (Globsearch.format_table json terminal nodes max_output s
            ≡ shows_first max_output columns cells nodes s)
        × (Keys.render_table json terminal (some nodes) show_info max_output s
            ≡ shows_first max_output
                (header json terminal show_info)
                (row_of json terminal show_info)
                nodes
                s)
  unfolding Custom.format_table Globsearch.format_table Keys.render_table
  tables_show_first nodes max_output show_info s = (
    rw (rows_up_to-take (row_of json terminal show_info) max_output nodes) refl,
    rw (rows_up_to-take cells max_output nodes) refl,
    rw (rows_up_to-take (row_of json terminal show_info) max_output nodes) refl,
  )
