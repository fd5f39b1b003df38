-- ===== src/Cmd/Loader/Confined.antt =====
-- What is kept by loading: archives are extracted inside of the directories that are made for them.
use minefield.Prelude.{
  ℕ, zero, suc, Bool, true, false, Bool-cases, inl, inr, List, [], ◌∷◌, ◌==◌, text_eq, Text,
  text_of, Action, Error, context, continue-keeps, continue-keeps_ok, attempt-keeps, wrapping-ok,
}
use minefield.Cmd.Loader.{
  Files, Document, unless_failed, extract_all, process_zip_file, load_entries, load_file, load_path,
  load_data_from_path,
}
use minefield.Cmd.Loader.Extracted.{Confines, extract_all-keeps}

module _ {W H R Z : Type 0} (files : Files W H R Z) (P : W → Type 0) (c : Confines files P) where
  abbrev Keeps : (Text → Action W (List Document)) → Type 0
  Keeps load = (path : Text) (s : W) → P s → P (load path s).1

  process_zip_file-Keeps :
      (load : Text → Action W (List Document)) → Keeps load → Keeps (process_zip_file files load)
  unfolding process_zip_file
  process_zip_file-Keeps load keeps path s p =
      continue-keeps P (context "failed to open zip file %s: %w" (files.open_reader path) s) _
        (c.open_reader path s p)
        λ zipped s₁ p₁.
          continue-keeps_ok P (context "failed to create temp directory: %w" files.mkdir_temp s₁) _
            (c.mkdir_temp s₁ p₁)
            λ temp_dir s₂ made p₂.
              let temp =
                c.mkdir_temp-IsTemp temp_dir s₁ s₂
                  (wrapping-ok "failed to create temp directory: %w" _ temp_dir s₂ made) in
              continue-keeps P (extract_all files temp_dir zipped s₂) _
                (extract_all-keeps files P c temp_dir zipped s₂ temp p₂)
                λ _ s₃ p₃. keeps temp_dir s₃ p₃

  unless_failed-keeps :
      (result : List Document) (errors : List Error) (s : W)
      → P s
      → P (unless_failed result errors s).1
  unless_failed-keeps result [] s p = p
  unless_failed-keeps result (_ ∷ _) s p = p

  load_entries-keeps :
      (load : Text → Action W (List Document))
      → Keeps load
      → (path : Text) (names : List Text) (result : List Document) (errors : List Error) (s : W)
      → P s
      → P (load_entries files load path names result errors s).1
  unfolding load_entries
  load_entries-keeps load keeps path [] result errors s p = p
  load_entries-keeps load keeps path (name ∷ names) result errors s p =
      attempt-keeps P P (load (files.join path name) s) _ _ (keeps (files.join path name) s p)
        (λ s p. p) (λ sub s p. load_entries-keeps load keeps path names _ _ s p)
        (λ e s p. load_entries-keeps load keeps path names _ _ s p)

  load_file-Keeps :
      (load : Text → Action W (List Document)) → Keeps load → Keeps (load_file files load)
  unfolding load_file
  load_file-Keeps load keeps path s p = elim (Bool-cases (files.ext path == text_of ".zip")) [
    | inl zip ↦ rw zip (
        attempt-keeps P P (process_zip_file files load path s) _ _
          (process_zip_file-Keeps load keeps path s p) (λ s p. p) (λ sub s p. p) (λ e s p. p))
    | inr other ↦ elim (Bool-cases (files.ext path == text_of ".json")) [
      | inl json ↦
          rw (other, json)
            (continue-keeps P (context "failed to read JSON file %s: %w" (files.read_file path) s) _
              (c.read_file path s p) (λ content s p. p))
      | inr neither ↦ rw (other, neither) p
    ]
  ]

  entered :
      (fuel : ℕ)
      → Keeps (load_data_from_path files fuel)
      → (path : Text) (is_dir : Bool) (s : W) → P s
      → P (load_path files (load_data_from_path files fuel) path is_dir s).1
  unfolding load_path
  entered fuel keeps path true s p =
      continue-keeps P (context "failed to read directory %s: %w" (files.read_dir path) s) _
        (c.read_dir path s p)
        λ entries s₁ p₁.
          continue-keeps P
            (load_entries files (load_data_from_path files fuel) path entries [] [] s₁) _
            (load_entries-keeps (load_data_from_path files fuel) keeps path entries [] [] s₁ p₁)
            λ (result, errors) s₂ p₂. unless_failed-keeps result errors s₂ p₂
  entered fuel keeps path false s p =
      load_file-Keeps (load_data_from_path files fuel) keeps path s p

  -- Whatever is so of the file system and stays so when it is read, and when directories and files
  -- are made and written below a directory that `os.MkdirTemp` made, at paths with no element `..`,
  -- is so after `LoadDataFromPath`, with whatever names the files of an archive have.
  pub load_data_from_path-keeps :
      (fuel : ℕ) (path : Text) (s : W) → P s → P (load_data_from_path files fuel path s).1
  unfolding load_data_from_path
  load_data_from_path-keeps zero path s p = p
  load_data_from_path-keeps (suc fuel) path s p =
      continue-keeps P (context "error accessing path %s: %w" (files.stat path) s) _
        (c.stat path s p)
        λ is_dir s₁ p₁. entered fuel (load_data_from_path-keeps fuel) path is_dir s₁ p₁
