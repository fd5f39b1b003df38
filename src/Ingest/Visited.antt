-- ===== src/Ingest/Visited.antt =====
-- What `Vulnerabilities` and `Scorecards` share: they read the nodes of the storage and visit them one
-- by one, with what is listed under the name of each.
use native.Mathlib.Nat.{suc-mul, mul-le-mul_right}
use minefield.Prelude.{
  ℕ, suc, ◌+◌, ◌*◌, ◌^◌, ◌<◌, ◌≤◌, String, ◌≡◌, refl, sym, ap, subst, ◌∙◌, ◌≢◌, inl, inr, Bool,
  true, Option, none, some, List, [], ◌∷◌, ◌++◌, length, length-append, All, All-map, All-both,
  All-append, Map, lookup, insert, lookup-insert_cases, Distinct, keys, nat_eq, string_eq, Outcome,
  ok, err, panic, out_of_fuel, Action, arith,
}
use minefield.Bitmap.{Bitmap}
use minefield.Graph.Node.{Node}
use minefield.Graph.Mock.{pick}
use minefield.Graph.Mock.Picked.{pick-Picked}
use minefield.Graph.Mock.State.{MockStorage, no_faults}
use minefield.Graph.Build.Invariant.{IsWellFormed}
use minefield.Ingest.Ready.{IsReady, fewer_left}
use minefield.Ingest.Attached.{Waits, Visits, is_package}
use minefield.Ingest.Vuln.Add.{or_skip}

abbrev pub listed : {A : Type 0} → Option (List A) → List A
listed none = []
listed (some l) = l

module _ {A : Type 0} (P : A → Type 0) where
  -- At most `c` elements stand under a name, all of them with the property.
  abbrev pub Few : ℕ → Map String (List A) → Type 0
  Few c m = (name : String) (l : List A) → lookup name m ≡ some l → (length l ≤ c) × All P l

  pub none-Few : Few 0 []
  unfolding lookup
  none-Few name l h = ground (arith, h)

  listed-Few :
      (c : ℕ) (o : Option (List A))
      → ((l : List A) → o ≡ some l → (length l ≤ c) × All P l)
      → (length (listed o) ≤ c) × All P (listed o)
  listed-Few c none few = (omega arith, tt)
  listed-Few c (some l) few = few l refl

  pub insert-Few :
      (a : A) (key : String) (c : ℕ) (m : Map String (List A))
      → P a
      → Few c m
      → Few (suc c) (insert key (listed (lookup key m) ++ a ∷ []) m)
  insert-Few a key c m p few name l h =
      let under = listed (lookup key m) in
      elim (lookup-insert_cases key name (under ++ a ∷ []) l m h) [
        | inl (_, e) ↦
            let (less, all) = listed-Few c (lookup key m) (few key) in
            subst (λ l. (length l ≤ suc c) × All P l) e
              (
                omega (arith, length-append under (a ∷ []), less),
                All-append P under (a ∷ []) all (p, tt),
              )
        | inr (_, e) ↦ let (less, all) = few name l e in (omega (arith, less), all)
      ]

pub or_skip-keeps :
    {S A : Type 0} (P : S → Type 0) (o : Outcome A) (next : A → Action S (Unit {0})) (s : S)
    → P s
    → ((a : A) → P (next a s).1)
    → P (or_skip o next s).1
or_skip-keeps P (ok a) next s p keeps = keeps a
or_skip-keeps P (err e) next s p keeps = p
or_skip-keeps P panic next s p keeps = p
or_skip-keeps P out_of_fuel next s p keeps = p

length-keys : {V : Type 0} (m : Map ℕ V) → length (keys m) ≡ length m
length-keys [] = refl
length-keys (e ∷ m) = ap suc (length-keys m)

module _ {B M : Type 0} ⦃bm : Bitmap B⦄ (matches : String → String → Outcome Bool)
    (before : MockStorage B M) where
  -- Ids are left, and the packages that are visited later are stored as they were read.
  pub record Left (k : ℕ) (rest : Map ℕ (Node B M)) (s : MockStorage B M) : Type 0 where
    pub ready : IsReady matches before k s
    pub waiting : All (Waits matches before s) rest

  pub behind-Left :
      {j k : ℕ} {id : ℕ} {n : Node B M} {rest : Map ℕ (Node B M)} (s : MockStorage B M)
      → j ≤ k
      → Left k ((id, n) ∷ rest) s
      → Left j rest s
  behind-Left s less l = record {
    ready = fewer_left matches before s less l.ready;
    waiting = l.waiting.1;
  }

  pub fewer-Left :
      {j k : ℕ} {rest : Map ℕ (Node B M)} (s : MockStorage B M)
      → k ≤ j
      → Left j rest s
      → Left k rest s
  fewer-Left s less l = record {
    ready = fewer_left matches before s less l.ready;
    waiting = l.waiting;
  }

  pub none-Left :
      {k : ℕ} {rest : Map ℕ (Node B M)} (s : MockStorage B M) → Left k rest s → Left 0 [] s
  none-Left s l = record { ready = fewer_left matches before s (omega arith) l.ready; waiting = tt }

  pub Visits-Left :
      {k : ℕ} {n : Node B M} {rest : Map ℕ (Node B M)} (s : MockStorage B M)
      → Visits matches before k n rest s
      → Left k rest s
  Visits-Left {k} {n} {rest} s v = record {
    ready = v.ready;
    waiting = All-map (λ e h. h.0) rest v.waiting;
  }

  pub fewer-Visits :
      {j k : ℕ} {n : Node B M} {rest : Map ℕ (Node B M)} (s : MockStorage B M)
      → j ≤ k
      → Visits matches before k n rest s
      → Visits matches before j n rest s
  fewer-Visits s less v = record {
    ready = fewer_left matches before s less v.ready;
    is = v.is;
    stored = v.stored;
    waiting = v.waiting;
  }

  pub visit :
      {k : ℕ} {id : ℕ} {n : Node B M} {rest : Map ℕ (Node B M)} (s : MockStorage B M)
      → Left k ((id, n) ∷ rest) s
      → is_package matches before n ≡ true
      → All (λ e. n.id ≢ e.1.id) rest
      → Visits matches before k n rest s
  visit {k} {id} {n} {rest} s l is later = record {
    ready = l.ready;
    is = is;
    stored = l.waiting.0 is;
    waiting = All-both (Waits matches before s) (λ e. n.id ≢ e.1.id) rest l.waiting.1 later;
  }

  -- The nodes that are read: no two are the same, and ids are left for `c` at each of them.
  pub record Reading (c : ℕ) (nodes : Map ℕ (Node B M)) (s : MockStorage B M) : Type 0 where
    pub distinct : Distinct nodes
    pub keyed : All (λ e. e.1.id ≡ e.0) nodes
    pub left : Left (length nodes * c) nodes s

  -- The first of them, and that those behind it are others.
  pub record Next (c id : ℕ) (n : Node B M) (rest : Map ℕ (Node B M)) (s : MockStorage B M)
      : Type 0 where
    pub left : Left (c + length rest * c) ((id, n) ∷ rest) s
    pub later : All (λ e. n.id ≢ e.1.id) rest
    pub reading : (t : MockStorage B M) → Left (length rest * c) rest t → Reading c rest t

  pub next :
      {c id : ℕ} {n : Node B M} {rest : Map ℕ (Node B M)} (s : MockStorage B M)
      → Reading c ((id, n) ∷ rest) s
      → Next c id n rest s
  next {c} {id} {n} {rest} s r =
      let (apart, distinct) = r.distinct in
      let (same, keyed) = r.keyed in
      let e : suc (length rest) * c ≡ c + length rest * c =
        omega (arith, suc-mul (length rest) c) in
      record {
        left = subst (λ k. Left k ((id, n) ∷ rest) s) e r.left;
        later =
            All-map (λ f (ne, i) p. ne (sym same ∙ p ∙ i)) rest
              (All-both (λ f. id ≢ f.0) (λ f. f.1.id ≡ f.0) rest apart keyed);
        reading = λ t l. record { distinct = distinct; keyed = keyed; left = l };
      }

-- What `GetNodes` of all keys returns, from a storage with `c` ids left for each node.
pub read_all :
    {B M : Type 0} ⦃bm : Bitmap B⦄ (matches : String → String → Outcome Bool) (c : ℕ)
    (s : MockStorage B M)
    → IsWellFormed s
    → s.faults ≡ no_faults
    → s.id_counter + length s.nodes * c < 2 ^ 32
    → Reading matches s c (pick s.nodes (keys s.nodes) []) s
read_all matches c s w quiet room =
    let nodes = pick s.nodes (keys s.nodes) [] in
    let p =
      pick-Picked s.nodes (keys s.nodes) 0 []
        (record { found = tt; distinct = tt; few = omega arith }) in
    let fewer : length nodes ≤ length s.nodes = omega (arith, p.few, length-keys s.nodes) in
    let less : length nodes * c ≤ length s.nodes * c = mul-le-mul_right c fewer in
    record {
      distinct = p.distinct;
      keyed = All-map (λ e there. (w.keyed e.0 e.1 there).0) nodes p.found;
      left = record {
        ready = record {
          well_formed = w;
          quiet = quiet;
          room = omega (arith, room, less);
          kept = λ a b e. e;
        };
        waiting =
            All-map (λ e there _. ap (λ i. lookup i s.nodes) (w.keyed e.0 e.1 there).0 ∙ there)
              nodes p.found;
      };
    }
