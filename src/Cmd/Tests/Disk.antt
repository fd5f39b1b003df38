-- ===== src/Cmd/Tests/Disk.antt =====
-- A file system whose state is the list of the paths that were made or written.
use minefield.Prelude.{
  ℕ, ◌≡◌, refl, arith, inl, inr, Bool-cases, subst, Bool, true, false, ◌||◌, List, [], ◌∷◌, ◌++◌,
  All, if◌then◌else◌, ◌==◌, text_eq, nat_beq, Text, text_of, errorf, Outcome, ok, err,
}
use minefield.Graph.Storage.{Bytes}
use minefield.Cmd.Loader.{Files, ZipFile, starts_with, below, extract_file, load_data_from_path}
use minefield.Cmd.Loader.Extracted.{Inside, IsBelow, is_parent, climbs, Confines}
use minefield.Cmd.Loader.Confined.{load_data_from_path-keeps}

abbrev Disk : Type 0
Disk = List Text

-- up to the last slash
abbrev has_slash : Text → Bool
has_slash [] = false
has_slash (c ∷ p) = nat_beq c b'/' || has_slash p

abbrev parent : Text → Text
parent [] = []
parent (c ∷ p) = if has_slash p then c ∷ parent p else []

-- the text `.json` or `.zip` at the end
abbrev extension : Text → Text
extension [] = []
extension (c ∷ p) =
    let rest = extension p in
    if (c ∷ p) == text_of ".zip" then c ∷ p else if (c ∷ p) == text_of ".json" then c ∷ p else rest

abbrev absent : {A : Type 0} → Outcome A
absent = err (errorf "no such file")

abbrev zipped : List (ZipFile Bytes)
zipped =
    record { name = text_of "d"; is_dir = true; entry = [] }
    ∷ record { name = text_of "d/c.json"; is_dir = false; entry = b'c' ∷ [] }
    ∷ []

abbrev hostile : List (ZipFile Bytes)
hostile =
    record { name = text_of "d/c.json"; is_dir = false; entry = b'c' ∷ [] }
    ∷ record { name = text_of "d/../../etc/passwd"; is_dir = false; entry = b'p' ∷ [] }
    ∷ []

abbrev extend : ℕ → List Text → List Text
extend c [] = (c ∷ []) ∷ []
extend c (word ∷ words) = (c ∷ word) ∷ words

-- what is between the slashes
abbrev elements : Text → List Text
elements [] = [] ∷ []
elements (c ∷ p) = let words = elements p in if nat_beq c b'/' then [] ∷ words else extend c words

abbrev up : List Text → List Text
up [] = []
up (_ ∷ words) = words

abbrev enter : Text → List Text → List Text
enter word words =
    if word == [] || word == text_of "."
    then words
    else if word == text_of ".."
    then up words
    else word ∷ words

-- the elements from the last to the first, each `..` resolved
abbrev walk : List Text → List Text → List Text
walk words [] = words
walk words (word ∷ more) = walk (enter word words) more

abbrev absolute : List Text → Text → Text
absolute [] p = p
absolute (word ∷ words) p = absolute words (b'/' ∷ word ++ p)

-- `/` and the elements of the path, each `..` resolved
abbrev cleaned : Text → Outcome Text
cleaned p = let q = absolute (walk [] (elements p)) [] in if climbs q then absent else ok q

-- /bad has the archive y.zip, with a name that leads out of the directory that it is extracted to.
-- /in has the archive x.zip, which is extracted to /tmp, and the file a.json.
abbrev pub disk : Files Disk Text Bytes Bytes
disk = record {
  stat = λ p s. (
    ok (
        p == text_of "/in"
        || p == text_of "/bad"
        || p == text_of "/tmp"
        || p == text_of "/tmp/d"
        || p == text_of "/plain"),
    s,
  );
  read_dir = λ p s. (
    if p == text_of "/in"
        then ok (text_of "x.zip" ∷ text_of "a.json" ∷ [])
        else if p == text_of "/bad"
        then ok (text_of "y.zip" ∷ [])
        else if p == text_of "/tmp"
        then ok (text_of "d" ∷ [])
        else if p == text_of "/tmp/d"
        then ok (text_of "c.json" ∷ [])
        else if p == text_of "/plain"
        then ok (text_of "b.json" ∷ text_of "notes" ∷ [])
        else absent,
    s,
  );
  read_file = λ p s. (ok (b'{' ∷ []), s);
  open_reader = λ p s. (ok (if p == text_of "/bad/y.zip" then hostile else zipped), s);
  open_file = λ z s. (ok z, s);
  mkdir_temp = λ s. (ok (text_of "/tmp"), s);
  mkdir_all = λ p s. (ok tt, p ∷ s);
  create = λ p s. (ok p, p ∷ s);
  copy = λ h r s. (ok tt, h ∷ s);
  join = λ p q. p ++ b'/' ∷ q;
  clean = λ p. p;
  is_abs = λ p. starts_with p (text_of "/");
  abs = cleaned;
  dir = parent;
  ext = extension;
}

has_slash-below : (top p : Text) → starts_with p (below top) ≡ true → has_slash p ≡ true
has_slash-below [] [] h = cc h
has_slash-below [] (c ∷ p) h = ground (arith, h)
has_slash-below (t ∷ top) [] h = cc h
has_slash-below (t ∷ top) (c ∷ p) h = ground (arith, h, has_slash-below top p)

parent-Inside : (top p : Text) → starts_with p (below top) ≡ true → Inside top (parent p)
parent-Inside [] [] h = cc h
parent-Inside [] (c ∷ p) h = elim (Bool-cases (has_slash p)) [
  | inl more ↦ inr (ground (arith, h, more))
  | inr last ↦ inl (ground (arith, last))
]
parent-Inside (t ∷ top) [] h = cc h
parent-Inside (t ∷ top) (c ∷ p) h =
    let slash = has_slash-below top p (ground (arith, h)) in
    elim (parent-Inside top p (ground (arith, h))) [
      | inl same ↦ inl (ground (arith, h, slash, same))
      | inr below ↦ inr (ground (arith, h, slash, below))
    ]

abbrev IsConfined : Disk → Type 0
IsConfined written = All (λ p. IsBelow (text_of "/tmp") p) written

confined :
    (t top p : Text)
    → t ≡ text_of "/tmp"
    → disk.abs t ≡ ok top
    → IsBelow top p
    → IsBelow (text_of "/tmp") p
unfolding text_of
confined t top p temp same inside =
    let at_tmp : disk.abs (text_of "/tmp") ≡ ok top = subst (λ x. disk.abs x ≡ ok top) temp same in
    let is_tmp : top ≡ text_of "/tmp" = ground (arith, at_tmp) in
    subst (λ x. IsBelow x p) is_tmp inside

checked-climbs : (q p : Text) → (if climbs q then absent else ok q) ≡ ok p → climbs p ≡ false
checked-climbs q p h = elim (Bool-cases (climbs q)) [
  | inl up ↦ ground (arith, h, up)
  | inr not_up ↦
      let same : q ≡ p = ground (arith, h, not_up) in subst (λ x. climbs x ≡ false) same not_up
]

cleaned-climbs : (q p : Text) → cleaned q ≡ ok p → climbs p ≡ false
cleaned-climbs q p h = checked-climbs (absolute (walk [] (elements q)) []) p h

is_parent-parent :
    (p : Text) → has_slash p ≡ true → is_parent (parent p) ≡ true → is_parent p ≡ true
is_parent-parent [] slash h = ground arith
is_parent-parent (a ∷ []) slash h = ground arith
is_parent-parent (a ∷ b ∷ []) slash h = ground arith
is_parent-parent (a ∷ b ∷ c ∷ p) slash h = ground arith

parent-climbs : (p : Text) → climbs p ≡ false → climbs (parent p) ≡ false
parent-climbs [] h = refl
parent-climbs (c ∷ p) h = elim (Bool-cases (has_slash p)) [
  | inl slash ↦
      ground (arith, slash, h, parent-climbs p (ground (arith, h)), is_parent-parent p slash)
  | inr last ↦ ground (arith, last)
]

disk-Confines : Confines disk IsConfined
disk-Confines = record {
  IsTemp = λ t. t ≡ text_of "/tmp";
  opened = λ h. h;
  mkdir_temp-IsTemp = λ t s s' h. ground (arith, h);
  opened-create = λ p h s s' made. ground (arith, made);
  abs_cleans = cleaned-climbs;
  dir-IsBelow =
      λ top q p h inside. (parent-Inside top p inside, parent-climbs p (cleaned-climbs q p h));
  stat = λ p s h. h;
  read_dir = λ p s h. h;
  read_file = λ p s h. h;
  open_reader = λ p s h. h;
  open_file = λ z s h. h;
  mkdir_temp = λ s h. h;
  mkdir_all = λ t top p s temp is_top inside h. (confined t top p temp is_top inside, h);
  create = λ t top p s temp is_top inside h. (confined t top p temp is_top inside, h);
  copy = λ t top p r s temp is_top inside h. (confined t top p temp is_top inside, h);
}

load_data_from_path-keeps_example : IsConfined (load_data_from_path disk 5 (text_of "/bad") []).1
load_data_from_path-keeps_example =
    load_data_from_path-keeps disk IsConfined disk-Confines 5 (text_of "/bad") [] tt

-- The first file of the archive is written, the second is refused.
refused :
    (load_data_from_path disk 5 (text_of "/bad") []).1
    ≡ text_of "/tmp/d/c.json" ∷ text_of "/tmp/d/c.json" ∷ text_of "/tmp/d" ∷ []
unfolding load_data_from_path extract_file text_of
refused = refl

-- The directory, the archive and what is in it are read, and only the archive's files are written.
loaded : load_data_from_path disk 5 (text_of "/in") [] ≡ (
  ok (
      record { path = text_of "/tmp/d/c.json"; content = b'{' ∷ [] }
      ∷ record { path = text_of "/in/a.json"; content = b'{' ∷ [] }
      ∷ []),
  text_of "/tmp/d/c.json" ∷ text_of "/tmp/d/c.json" ∷ text_of "/tmp/d" ∷ text_of "/tmp/d" ∷ [],
)
unfolding load_data_from_path extract_file text_of
loaded = refl
