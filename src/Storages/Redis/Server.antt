-- ===== src/Storages/Redis/Server.antt =====
-- What the client's documentation says of a server that answers: a key holds a string or a list.
use minefield.Prelude.{
  ℕ, ◌+◌, ◌^◌, ◌<◌, ◌≡◌, Bool, true, Option, none, some, List, [], ◌∷◌, ◌++◌, if◌then◌else◌, ◌==◌,
  Text, text_eq, pos, negsuc, Error, ok, err,
}
use minefield.Utils.{uint32_to_str}
use minefield.Storages.Redis.Commands.{Client}

-- the number that `INCR` starts from
abbrev pub Counts : Option Text → ℕ → Type 0
Counts none n = n ≡ 0
Counts (some text) n = text ≡ uint32_to_str n

-- The parts of the server's state that can be asked for.
pub record Views (R : Type 0) : Type 0 where
  pub value : R → Text → Option Text
  pub items : R → Text → List Text
  pub is_up : R → Bool

-- One key is written, and the server still answers.
pub record Writes {R : Type 0} (views : Views R) (key : Text) (v : Option Text) (l : List Text)
    (r r' : R) : Type 0 where
  pub value-write : (j : Text) → views.value r' j ≡ (if key == j then v else views.value r j)
  pub items-write : (j : Text) → views.items r' j ≡ (if key == j then l else views.items r j)
  pub still_up : views.is_up r' ≡ true

pub record Server {R : Type 0} (client : Client R) : Type 0 where
  pub views : Views R
  pub get-found :
      (key text : Text) (r : R)
      → views.is_up r ≡ true
      → views.value r key ≡ some text
      → client.get key r ≡ (ok text, r)
  pub get-missing :
      (key : Text) (r : R)
      → views.is_up r ≡ true
      → views.value r key ≡ none
      → (e : Error) × (client.get key r ≡ (err e, r))
  pub lrange_all :
      (key : Text) (r : R)
      → views.is_up r ≡ true
      → views.value r key ≡ none
      → client.lrange key (pos 0) (negsuc 0) r ≡ (ok (views.items r key), r)
  pub set-Writes :
      (key text : Text) (r : R)
      → views.is_up r ≡ true
      → (r' : R) × (client.set key text r ≡ (ok tt, r')) × Writes views key (some text) [] r r'
  pub del-Writes :
      (key : Text) (r : R)
      → views.is_up r ≡ true
      → (r' : R) × (client.del key r ≡ (ok tt, r')) × Writes views key none [] r r'
  pub rpush-Writes :
      (key text : Text) (r : R)
      → views.is_up r ≡ true
      → views.value r key ≡ none
      → (r' : R) × (client.rpush key text r ≡ (ok tt, r'))
        × Writes views key none (views.items r key ++ text ∷ []) r r'
  pub incr-Writes :
      (key : Text) (n : ℕ) (r : R)
      → views.is_up r ≡ true
      → Counts (views.value r key) n
      → views.items r key ≡ []
      → n + 1 < 2 ^ 63
      → (r' : R) × (client.incr key r ≡ (ok (pos (n + 1)), r'))
        × Writes views key (some (uint32_to_str (n + 1))) [] r r'
