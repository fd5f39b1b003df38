-- ===== src/Storages/Redis/Related.antt =====
-- When a server holds what the storage in memory holds.
use minefield.Prelude.{
  ℕ, ◌+◌, ◌^◌, ◌<◌, ◌≡◌, arith, refl, ◌⊎◌, inl, inr, String, Bool, true, false, if◌then◌else◌,
  Option, none, some, [], lookup, nat_eq, string_eq, Text, text_of, Outcome, ok,
}
use minefield.Utils.{str_to_uint32}
use minefield.Graph.Node.{Node}
use minefield.Graph.Mock.State.{MockStorage, no_faults, new_mock_storage}
use minefield.Graph.Encode.{Format, NodeFormat, unmarshal_node, unmarshal_cache}
use minefield.Storages.{node_key, name_key, cache_key, id_counter_key, cache_stack_key}
use minefield.Storages.Redis.Replies.{parse_items}
use minefield.Storages.Redis.Commands.{Client}
use minefield.Storages.Redis.Server.{Server, Counts}

-- A text is stored where a value is, and reads as it.
abbrev pub Holds : {A : Type 0} → (Text → Outcome A) → Option A → Option Text → Type 0
Holds read none none = Unit
Holds read (some a) (some text) = read text ≡ ok a
Holds read none (some text) = ⊥
Holds read (some a) none = ⊥

pub Holds-cases :
    {A : Type 0} (read : Text → Outcome A) (o : Option A) (v : Option Text)
    → Holds read o v
    → (o ≡ none) × (v ≡ none)
      ⊎ (a : A) × (text : Text) × (o ≡ some a) × (v ≡ some text) × (read text ≡ ok a)
Holds-cases read none none h = inl (refl, refl)
Holds-cases read none (some text) h = elim h [ ]
Holds-cases read (some a) none h = elim h [ ]
Holds-cases read (some a) (some text) h = inr (a, text, refl, refl, h)

pub Holds-insert :
    {A : Type 0} (read : Text → Outcome A) (same : Bool) (a : A) (text : Text) (o : Option A)
    (v : Option Text)
    → read text ≡ ok a
    → Holds read o v
    → Holds read (if same then some a else o) (if same then some text else v)
Holds-insert read true a text o v h old = h
Holds-insert read false a text o v h old = old

module _ {R B M : Type 0} ⦃format : Format B⦄ ⦃json : NodeFormat M⦄ (client : Client R)
    (server : Server client) where
  pub record Related (m : MockStorage B M) (r : R) : Type 0 where
    pub quiet : m.faults ≡ no_faults
    pub is_up : server.views.is_up r ≡ true
    pub nodes :
        (id : ℕ) → Holds unmarshal_node (lookup id m.nodes) (server.views.value r (node_key id))
    pub names :
        (name : String)
        → Holds str_to_uint32
            (lookup name m.name_ids)
            (server.views.value r (name_key (text_of name)))
    pub caches :
        (id : ℕ) → Holds unmarshal_cache (lookup id m.cache) (server.views.value r (cache_key id))
    pub stack_free : server.views.value r cache_stack_key ≡ none
    pub stack : parse_items (server.views.items r cache_stack_key) ≡ ok m.stack
    pub counter : Counts (server.views.value r id_counter_key) m.id_counter
    pub small : (id : ℕ) (n : Node B M) → lookup id m.nodes ≡ some n → n.id < 2 ^ 32
    pub counter_free : server.views.items r id_counter_key ≡ []

  abbrev pub HasRoom : MockStorage B M → Type 0
  HasRoom m = m.id_counter + 1 < 2 ^ 32

  -- A server that answers and has nothing under any key holds what a new storage in memory holds.
  pub new-Related :
      (r : R)
      → server.views.is_up r ≡ true
      → ((key : Text) → server.views.value r key ≡ none)
      → ((key : Text) → server.views.items r key ≡ [])
      → Related new_mock_storage r
  unfolding lookup parse_items
  new-Related r up no_value no_items = record {
    quiet = refl;
    is_up = up;
    nodes = λ id. rw (no_value (node_key id)) tt;
    names = λ name. rw (no_value (name_key (text_of name))) tt;
    caches = λ id. rw (no_value (cache_key id)) tt;
    stack_free = no_value cache_stack_key;
    stack = rw (no_items cache_stack_key) refl;
    counter = rw (no_value id_counter_key) refl;
    small = λ id n h. ground (arith, h);
    counter_free = no_items id_counter_key;
  }
