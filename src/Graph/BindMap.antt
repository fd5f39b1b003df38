-- ===== src/Graph/BindMap.antt =====
-- pkg/graph/bindMap.go: values under keys, where bound keys share one value. `sha256.Sum256` is the
-- parameter `sum256`, from the bytes of a text to the bytes of the digest.
use minefield.Prelude.{
  ℕ, ◌+◌, ◌-◌, ◌/◌, ◌%◌, none, some, List, [], ◌∷◌, ◌++◌, ltb, if◌then◌else◌, Text, text_eq, Map,
  lookup, insert, errorf, Outcome, ok, err, Action, ◌>>◌, pure, modify, or_error, bind,
}
use minefield.Bitmap.{Bitmap}
use minefield.Utils.{uint32_to_str}

-- `DataStore` is the field `data`.
pub record NativeKeyManagement (B : Type 0) : Type 0 where
  pub key_map : Map Text Text
  pub store : Map Text B

-- `NewNativeKeyManagement`, `NewDataStore`
abbrev pub new_native_key_management : {B : Type 0} → NativeKeyManagement B
new_native_key_management = record { key_map = []; store = [] }

-- `fmt.Sprint` of a byte array: the decimal bytes, apart by blanks, in brackets
spaced : List ℕ → Text
spaced [] = []
spaced (b ∷ []) = uint32_to_str b
spaced (b ∷ c ∷ bs) = uint32_to_str b ++ b' ' ∷ spaced (c ∷ bs)

sprint : List ℕ → Text
unfolding spaced
sprint bs = b'[' ∷ spaced bs ++ b']' ∷ []

-- `%x`
hex_digit : ℕ → ℕ
hex_digit d = if ltb d 10 then b'0' + d else b'a' + d - 10

hex : List ℕ → Text
unfolding hex_digit
hex [] = []
hex (b ∷ bs) = hex_digit (b / 16) ∷ hex_digit (b % 16) ∷ hex bs

abbrev shared : Text
shared = b's' ∷ b'h' ∷ b'a' ∷ b'r' ∷ b'e' ∷ b'd' ∷ b':' ∷ []

module _ (sum256 : Text → List ℕ) where
  key_string : List Text → Text
  unfolding sprint
  key_string [] = []
  key_string (k ∷ keys) = sprint (sum256 k) ++ key_string keys

  unfoldable hash_key : List Text → Text
  unfolding key_string hex
  hash_key keys = shared ++ hex (sum256 (key_string keys))

-- the loop of `BindKeys` over the keys
unfoldable bind_all : Text → List Text → Map Text Text → Map Text Text
bind_all hash [] key_map = key_map
bind_all hash (key ∷ keys) key_map = bind_all hash keys (insert key hash key_map)

abbrev also : {B : Type 0} → Text → B → Outcome (List (Text × B)) → Outcome (List (Text × B))
also key value rest = bind rest (λ pairs. ok ((key, value) ∷ pairs))

-- the loop of `GetAllKeysAndValues`, over the entries in their order
unfoldable collect : {B : Type 0} → Map Text B → Map Text Text → Outcome (List (Text × B))
collect store [] = ok []
collect store ((key, hash) ∷ entries) =
    let rest = collect store entries in
    elim (lookup hash store) [
      | some value ↦ also key value rest
      | none ↦ elim (lookup key store) [
        | some value2 ↦ also key value2 rest
        | none ↦ err (errorf "value not found for key: %s while getting all leaderboard")
      ]
    ]

-- the key of the store under which the value of `key` is kept
abbrev slot : Map Text Text → Text → Text
slot key_map key = elim (lookup key key_map) [ some hash ↦ hash | none ↦ key ]

module _ {B : Type 0} where
  unfoldable pub bind_keys : (Text → List ℕ) → List Text → Action (NativeKeyManagement B) Text
  unfolding hash_key bind_all
  bind_keys sum256 keys = do
    let hash = hash_key sum256 keys
    modify (λ nkm. record nkm { key_map = bind_all hash keys nkm.key_map })
    pure hash

  -- `Set`
  unfoldable pub set : Text → B → Action (NativeKeyManagement B) (Unit {0})
  set key value =
      modify (λ nkm. record nkm { store = insert (slot nkm.key_map key) value nkm.store })

  -- `Get`: the zero value of `roaring.Bitmap` is the empty bitmap.
  unfoldable pub get : ⦃bm : Bitmap B⦄ → Text → Action (NativeKeyManagement B) B
  get ⦃bm⦄ key nkm = elim (lookup key nkm.key_map) [
    | some hash ↦ (ok (elim (lookup hash nkm.store) [ some value ↦ value | none ↦ bm.empty ]), nkm)
    | none ↦ or_error "key not found" (lookup key nkm.store) nkm
  ]

  -- The keys and their values, side by side.
  unfoldable pub get_all_keys_and_values : NativeKeyManagement B → Outcome (List (Text × B))
  unfolding collect
  get_all_keys_and_values nkm = collect nkm.store nkm.key_map
