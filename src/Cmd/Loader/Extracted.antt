-- ===== src/Cmd/Loader/Extracted.antt =====
-- What the extraction of an archive writes: nothing but inside of the directory that is made for it.
use minefield.Prelude.{
  Bool, true, false, ◌&&◌, ◌||◌, nat_beq, Bool-cases, inl, inr, List, [], ◌∷◌, ◌≡◌, ◌⊎◌, arith,
  text_eq, Text, ok, context, continue-keeps, continue-keeps_ok, wrapping-ok, Outcome-cases, subst,
  sym,
}
use minefield.Cmd.Loader.{
  Files, ZipFile, starts_with, below, resolve, write_entry, extract_file, extract_all,
}

-- The directory, or what lies below it.
abbrev pub Inside : Text → Text → Type 0
Inside top path = (path ≡ top) ⊎ (starts_with path (below top) ≡ true)

-- the element `..`, where a path goes on with it
abbrev pub is_parent : Text → Bool
is_parent [] = false
is_parent (_ ∷ []) = false
is_parent (a ∷ b ∷ []) = nat_beq a b'.' && nat_beq b b'.'
is_parent (a ∷ b ∷ c ∷ _) = nat_beq a b'.' && nat_beq b b'.' && nat_beq c b'/'

-- A slash is followed by the element `..`.
abbrev pub climbs : Text → Bool
climbs [] = false
climbs (c ∷ path) = (nat_beq c b'/' && is_parent path) || climbs path

-- The directory or what lies below it, and no element of the path leads up: the text of the path then
-- says where it is.
abbrev pub IsBelow : Text → Text → Type 0
IsBelow top path = Inside top path × (climbs path ≡ false)

-- `P` says what is so of the file system, whatever is read, and whatever is written inside of a
-- directory that `os.MkdirTemp` made, at a path with no `..` in it. `opened` is `os.File.Name`. Of
-- filepath, `Abs` cleans its result, so no element of it is `..`, and the directory of such a path
-- below another is that or below it, with no `..` either.
pub record Confines {W H R Z : Type 0} (files : Files W H R Z) (P : W → Type 0) : Type 1 where
  pub IsTemp : Text → Type 0
  pub opened : H → Text
  pub mkdir_temp-IsTemp : (t : Text) (s s' : W) → files.mkdir_temp s ≡ (ok t, s') → IsTemp t
  pub opened-create : (p : Text) (h : H) (s s' : W) → files.create p s ≡ (ok h, s') → opened h ≡ p
  pub abs_cleans : (q p : Text) → files.abs q ≡ ok p → climbs p ≡ false
  pub dir-IsBelow :
      (top q p : Text)
      → files.abs q ≡ ok p
      → starts_with p (below top) ≡ true
      → IsBelow top (files.dir p)
  pub stat : (p : Text) (s : W) → P s → P (files.stat p s).1
  pub read_dir : (p : Text) (s : W) → P s → P (files.read_dir p s).1
  pub read_file : (p : Text) (s : W) → P s → P (files.read_file p s).1
  pub open_reader : (p : Text) (s : W) → P s → P (files.open_reader p s).1
  pub open_file : (z : Z) (s : W) → P s → P (files.open_file z s).1
  pub mkdir_temp : (s : W) → P s → P (files.mkdir_temp s).1
  pub mkdir_all :
      (t top p : Text) (s : W)
      → IsTemp t
      → files.abs t ≡ ok top
      → IsBelow top p
      → P s
      → P (files.mkdir_all p s).1
  pub create :
      (t top p : Text) (s : W)
      → IsTemp t
      → files.abs t ≡ ok top
      → IsBelow top p
      → P s
      → P (files.create p s).1
  pub copy :
      (t top : Text) (h : H) (r : R) (s : W)
      → IsTemp t
      → files.abs t ≡ ok top
      → IsBelow top (opened h)
      → P s
      → P (files.copy h r s).1

module _ {W H R Z : Type 0} (files : Files W H R Z) where
  -- What is known of a path that is not refused.
  record Resolved (temp_dir path : Text) : Type 0 where
    pub top : Text
    pub from : Text
    pub is_top : files.abs temp_dir ≡ ok top
    pub is_path : files.abs from ≡ ok path
    pub inside : starts_with path (below top) ≡ true

  resolve-state : (temp_dir name : Text) (s : W) → (resolve files temp_dir name s).1 ≡ s
  unfolding resolve
  resolve-state temp_dir name s = ground arith

  resolve-Resolved :
      (temp_dir name path : Text) (s s' : W)
      → resolve files temp_dir name s ≡ (ok path, s')
      → Resolved temp_dir path
  unfolding resolve
  resolve-Resolved temp_dir name path s s' h =
      elim (Outcome-cases (files.abs (files.join temp_dir (files.clean name)))) [
        | inl (found, put) ↦ elim (Outcome-cases (files.abs temp_dir)) [
          | inl (top, is_top) ↦ record {
            top = top;
            from = files.join temp_dir (files.clean name);
            is_top = is_top;
            is_path = ground (arith, h, put, is_top);
            inside = ground (arith, h, put, is_top);
          }
          | inr bad ↦ absurd (ground (arith, h, put, bad))
        ]
        | inr bad ↦ absurd (ground (arith, h, bad))
      ]

  module _ (P : W → Type 0) (c : Confines files P) where
    Resolved-IsBelow : (temp_dir path : Text) (r : Resolved temp_dir path) → IsBelow r.top path
    Resolved-IsBelow temp_dir path r = (inr r.inside, c.abs_cleans r.from path r.is_path)

    -- the part of the loop body for a file
    written :
        (temp_dir path : Text) (z : Z) (s : W)
        → c.IsTemp temp_dir
        → Resolved temp_dir path
        → P s
        → P (write_entry files path z s).1
    unfolding write_entry
    written temp_dir path z s temp r p =
        continue-keeps P
          (context "failed to create directory for file %s: %w" (files.mkdir_all (files.dir path))
            s)
          _
          (c.mkdir_all temp_dir r.top (files.dir path) s temp r.is_top
            (c.dir-IsBelow r.top r.from path r.is_path r.inside) p)
          λ _ s₁ p₁.
            continue-keeps P (context "failed to open file %s in zip: %w" (files.open_file z) s₁) _
              (c.open_file z s₁ p₁)
              λ rc s₂ p₂.
                continue-keeps_ok P (context "failed to create file %s: %w" (files.create path) s₂)
                  _
                  (c.create temp_dir r.top path s₂ temp r.is_top (Resolved-IsBelow temp_dir path r)
                    p₂)
                  λ out_file s₃ made p₃.
                    let same =
                      c.opened-create path out_file s₂ s₃
                        (wrapping-ok "failed to create file %s: %w" _ out_file s₃ made) in
                    c.copy temp_dir r.top out_file rc s₃ temp r.is_top
                      (subst (IsBelow r.top) (sym same) (Resolved-IsBelow temp_dir path r)) p₃

    extract_file-keeps :
        (temp_dir : Text) (f : ZipFile Z) (s : W)
        → c.IsTemp temp_dir
        → P s
        → P (extract_file files temp_dir f s).1
    unfolding extract_file
    extract_file-keeps temp_dir f s temp p =
        continue-keeps_ok P (resolve files temp_dir f.name s) _
          (subst P (sym (resolve-state temp_dir f.name s)) p)
          λ path s' resolved p'.
            let r = resolve-Resolved temp_dir f.name path s s' resolved in
            elim (Bool-cases f.is_dir) [
              | inl is ↦ rw is (
                  c.mkdir_all temp_dir r.top path s' temp r.is_top
                    (Resolved-IsBelow temp_dir path r) p')
              | inr is_not ↦ rw is_not (written temp_dir path f.entry s' temp r p')
            ]

    pub extract_all-keeps :
        (temp_dir : Text) (fs : List (ZipFile Z)) (s : W)
        → c.IsTemp temp_dir
        → P s
        → P (extract_all files temp_dir fs s).1
    unfolding extract_all
    extract_all-keeps temp_dir [] s temp p = p
    extract_all-keeps temp_dir (f ∷ fs) s temp p =
        continue-keeps P (extract_file files temp_dir f s) _
          (extract_file-keeps temp_dir f s temp p)
          λ _ s' p'. extract_all-keeps temp_dir fs s' temp p'
