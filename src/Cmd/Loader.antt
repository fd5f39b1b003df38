-- ===== src/Cmd/Loader.antt =====
-- cmd/helpers/fileLoader.go: what `minefield ingest` reads. The packages os, path/filepath and
-- archive/zip are the parameter `Files`, over a state `W` of the file system; `H` is a file
-- that is written, `Z` one in an archive, and `R` such a one that is read. Closing is left out.
pub mod Extracted
pub mod Confined
pub mod Listing
use minefield.Prelude.{
  ℕ, zero, suc, String, Bool, true, false, not, Option, none, some, List, [], ◌∷◌, ◌++◌,
  if◌then◌else◌, ◌==◌, text_eq, Text, text_of, text_beq, nat_beq, ◌&&◌, Error, errorf, wrap,
  Outcome, ok, err, out_of_fuel, Action, ◌>>=◌, ◌>>◌, pure, throw, lift, guard, context, wrapping,
  attempt,
}
use minefield.Graph.Storage.{Bytes}

-- `zip.File`: its name, `FileInfo().IsDir()`, and the entry that is opened
pub record ZipFile (Z : Type 0) : Type 0 where
  pub name : Text
  pub is_dir : Bool
  pub entry : Z

pub record Files (W H R Z : Type 0) : Type 0 where
  -- `IsDir()` of `os.Stat`
  pub stat : Text → Action W Bool
  -- the names of the entries of `os.ReadDir`
  pub read_dir : Text → Action W (List Text)
  pub read_file : Text → Action W Bytes
  -- the files of `zip.OpenReader`
  pub open_reader : Text → Action W (List (ZipFile Z))
  -- `Open` of a file in an archive
  pub open_file : Z → Action W R
  -- `os.MkdirTemp("", "unzipped")`
  pub mkdir_temp : Action W Text
  pub mkdir_all : Text → Action W (Unit {0})
  pub create : Text → Action W H
  pub copy : H → R → Action W (Unit {0})
  -- filepath
  pub join : Text → Text → Text
  pub clean : Text → Text
  pub is_abs : Text → Bool
  pub abs : Text → Outcome Text
  pub dir : Text → Text
  pub ext : Text → Text

-- `Data`
pub record Document : Type 0 where
  pub path : Text
  pub content : Bytes

-- `strings.HasPrefix`
abbrev pub starts_with : Text → Text → Bool
starts_with s [] = true
starts_with [] (d ∷ p) = false
starts_with (c ∷ s) (d ∷ p) = nat_beq c d && starts_with s p

-- `absTempDir + string(os.PathSeparator)`
abbrev pub below : Text → Text
below t = t ++ b'/' ∷ []

-- the last test of `LoadDataFromPath`
abbrev pub unless_failed : {W : Type 0} → List Document → List Error → Action W (List Document)
unless_failed result [] = pure result
unless_failed result (_ ∷ _) = throw (errorf "errors occurred during data ingestion: %v")

module _ {W H R Z : Type 0} (files : Files W H R Z) where
  -- where a file of an archive is put: nowhere but inside the directory
  unfoldable pub resolve : Text → Text → Action W Text
  resolve temp_dir name = do
    let clean_name = files.clean name
    guard (not (files.is_abs clean_name))
        (errorf "invalid file path %s: absolute paths are not allowed")
    abs_extracted_path ←
        context "failed to get absolute path for %s: %w"
          (lift (files.abs (files.join temp_dir clean_name)))
    abs_temp_dir ←
        context "failed to get absolute path for temp directory: %w" (lift (files.abs temp_dir))
    guard (starts_with abs_extracted_path (below abs_temp_dir))
        (errorf "invalid file path %s: outside of the extraction directory")
    pure abs_extracted_path

  -- the part of the loop body for a file
  unfoldable pub write_entry : Text → Z → Action W (Unit {0})
  write_entry path entry = do
    context "failed to create directory for file %s: %w" (files.mkdir_all (files.dir path))
    rc ← context "failed to open file %s in zip: %w" (files.open_file entry)
    out_file ← context "failed to create file %s: %w" (files.create path)
    context "failed to copy file %s: %w" (files.copy out_file rc)

  -- the body of the loop over the files of the archive
  unfoldable pub extract_file : Text → ZipFile Z → Action W (Unit {0})
  unfolding resolve write_entry
  extract_file temp_dir f = do
    path ← resolve temp_dir f.name
    (if f.is_dir
        then context "failed to create directory %s: %w" (files.mkdir_all path)
        else write_entry path f.entry)

  unfoldable pub extract_all : Text → List (ZipFile Z) → Action W (Unit {0})
  extract_all temp_dir [] = pure tt
  extract_all temp_dir (f ∷ fs) = do extract_file temp_dir f; extract_all temp_dir fs

  -- `processZipFile`, where `load` is `LoadDataFromPath`. The deferred call that removes the
  -- directory is never made: it tests a variable that the later errors are not assigned to.
  unfoldable pub process_zip_file :
      (Text → Action W (List Document)) → Text → Action W (List Document)
  unfolding extract_all
  process_zip_file load path = do
    zipped ← context "failed to open zip file %s: %w" (files.open_reader path)
    temp_dir ← context "failed to create temp directory: %w" files.mkdir_temp
    extract_all temp_dir zipped
    load temp_dir

  -- The loop over the entries of a directory, which notes each error twice and goes on.
  unfoldable pub load_entries :
      (Text → Action W (List Document))
      → Text
      → List Text
      → List Document
      → List Error
      → Action W (List Document × List Error)
  load_entries load path [] result errors s = (ok (result, errors), s)
  load_entries load path (name ∷ names) result errors s =
      attempt (load (files.join path name) s)
        (λ sub_result. load_entries load path names (result ++ sub_result) errors)
        (λ e. load_entries load path names result (
          errors
          ++ wrap "failed to load data from path %s: %w" e
            ∷ wrap "failed to ingest data from path %s: %w" e
            ∷ []))

  -- the part of `LoadDataFromPath` for a path that is no directory
  unfoldable pub load_file : (Text → Action W (List Document)) → Text → Action W (List Document)
  unfolding process_zip_file
  load_file load path =
      if files.ext path == text_of ".zip"
      then (λ s.
          attempt (process_zip_file load path s) (λ sub_result. unless_failed sub_result [])
            (λ e. unless_failed [] (wrap "failed to process zip file %s: %w" e ∷ [])))
      else if files.ext path == text_of ".json"
      then (do
        content ← context "failed to read JSON file %s: %w" (files.read_file path)
        unless_failed (record { path = path; content = content } ∷ []) [])
      else unless_failed [] []

  -- the part of `LoadDataFromPath` behind the call of `os.Stat`
  unfoldable pub load_path :
      (Text → Action W (List Document)) → Text → Bool → Action W (List Document)
  unfolding load_entries load_file
  load_path load path true = do
    entries ← context "failed to read directory %s: %w" (files.read_dir path)
    (result, errors) ← load_entries load path entries [] []
    unless_failed result errors
  load_path load path false = load_file load path

  -- `fuel` bounds the depth of the directories and archives.
  unfoldable pub load_data_from_path : ℕ → Text → Action W (List Document)
  unfolding load_path
  load_data_from_path zero path = lift out_of_fuel
  load_data_from_path (suc fuel) path = do
    is_dir ← context "error accessing path %s: %w" (files.stat path)
    load_path (load_data_from_path fuel) path is_dir
