-- ===== src/Storages/Redis/Written.antt =====
-- Each write to the server keeps it related, where the storage in memory is written alike.
use minefield.Prelude.{
  ℕ, ◌^◌, ◌<◌, ◌≡◌, ◌∙◌, ap, refl, arith, bind, String, none, some, List, [], ◌∷◌, ◌++◌, ◌==◌,
  lookup, insert, lookup-insert, lookup-insert_cases, inl, inr, subst, nat_eq, string_eq, text_eq,
  Text, text_of, ok,
}
use minefield.Utils.{uint32_to_str, parse_uint, str_to_uint32}
use minefield.Graph.Node.{Node, NodeCache}
use minefield.Graph.Mock.State.{MockStorage}
use minefield.Graph.Encode.{Format, NodeFormat, unmarshal_node, unmarshal_cache}
use minefield.Storages.{node_key, name_key, cache_key, id_counter_key, cache_stack_key}
use minefield.Storages.Keys.{node_key-beq, name_key-beq, cache_key-beq}
use minefield.Storages.Redis.Replies.{parse_items}
use minefield.Storages.Redis.Commands.{Client}
use minefield.Storages.Redis.Server.{Server, Writes}
use minefield.Storages.Redis.Related.{Holds, Holds-insert, Related}

parse_items-append :
    (items : List Text) (text : Text) (id : ℕ)
    → parse_uint text ≡ ok id
    → parse_items (items ++ text ∷ []) ≡ bind (parse_items items) λ ids. ok (ids ++ id ∷ [])
unfolding parse_items
parse_items-append [] text id h = ground (arith, h)
parse_items-append (item ∷ items) text id h = ground (arith, parse_items-append items text id h)

module _ {R B M : Type 0} ⦃format : Format B⦄ ⦃json : NodeFormat M⦄ (client : Client R)
    (server : Server client) (m : MockStorage B M) (r r' : R)
    (rel : Related client server m r) where
  node-written :
      (n : Node B M) (text : Text)
      → Writes server.views (node_key n.id) (some text) [] r r'
      → unmarshal_node text ≡ ok n
      → (id : ℕ)
      → Holds unmarshal_node
          (lookup id (insert n.id n m.nodes))
          (server.views.value r' (node_key id))
  node-written n text w reads id =
      rw (lookup-insert n.id id n m.nodes, w.value-write (node_key id), node_key-beq n.id id)
        (Holds-insert unmarshal_node (n.id == id) n text _ _ reads (rel.nodes id))

  pub node-Related :
      (n : Node B M) (text : Text)
      → n.id < 2 ^ 32
      → Writes server.views (node_key n.id) (some text) [] r r'
      → unmarshal_node text ≡ ok n
      → Related client server (record m { nodes = insert n.id n m.nodes }) r'
  unfolding node_key name_key cache_key id_counter_key cache_stack_key text_of
  node-Related n text small w reads = record {
    quiet = rel.quiet;
    is_up = w.still_up;
    nodes = node-written n text w reads;
    names = λ name. rw (w.value-write (name_key (text_of name))) (rel.names name);
    caches = λ id. rw (w.value-write (cache_key id)) (rel.caches id);
    stack_free = w.value-write cache_stack_key ∙ rel.stack_free;
    stack = rw (w.items-write cache_stack_key) rel.stack;
    counter = rw (w.value-write id_counter_key) rel.counter;
    small = λ id k h. elim (lookup-insert_cases n.id id n k m.nodes h) [
      | inl (_, e) ↦ subst (λ (k : Node B M). k.id < 2 ^ 32) e small
      | inr (_, old) ↦ rel.small id k old
    ];
    counter_free = w.items-write id_counter_key ∙ rel.counter_free;
  }

  name-written :
      (name : String) (id : ℕ) (text : Text)
      → Writes server.views (name_key (text_of name)) (some text) [] r r'
      → str_to_uint32 text ≡ ok id
      → (other : String)
      → Holds str_to_uint32
          (lookup other (insert name id m.name_ids))
          (server.views.value r' (name_key (text_of other)))
  name-written name id text w reads other =
      rw
        (
          lookup-insert name other id m.name_ids,
          w.value-write (name_key (text_of other)),
          name_key-beq name other,
        )
        (Holds-insert str_to_uint32 (name == other) id text _ _ reads (rel.names other))

  pub name-Related :
      (name : String) (id : ℕ) (text : Text)
      → Writes server.views (name_key (text_of name)) (some text) [] r r'
      → str_to_uint32 text ≡ ok id
      → Related client server (record m { name_ids = insert name id m.name_ids }) r'
  unfolding node_key name_key cache_key id_counter_key cache_stack_key text_of
  name-Related name id text w reads = record {
    quiet = rel.quiet;
    is_up = w.still_up;
    nodes = λ id. rw (w.value-write (node_key id)) (rel.nodes id);
    names = name-written name id text w reads;
    caches = λ id. rw (w.value-write (cache_key id)) (rel.caches id);
    stack_free = w.value-write cache_stack_key ∙ rel.stack_free;
    stack = rw (w.items-write cache_stack_key) rel.stack;
    counter = rw (w.value-write id_counter_key) rel.counter;
    small = rel.small;
    counter_free = w.items-write id_counter_key ∙ rel.counter_free;
  }

  cache-written :
      (c : NodeCache B) (text : Text)
      → Writes server.views (cache_key c.id) (some text) [] r r'
      → unmarshal_cache text ≡ ok c
      → (id : ℕ)
      → Holds unmarshal_cache
          (lookup id (insert c.id c m.cache))
          (server.views.value r' (cache_key id))
  cache-written c text w reads id =
      rw (lookup-insert c.id id c m.cache, w.value-write (cache_key id), cache_key-beq c.id id)
        (Holds-insert unmarshal_cache (c.id == id) c text _ _ reads (rel.caches id))

  pub cache-Related :
      (c : NodeCache B) (text : Text)
      → Writes server.views (cache_key c.id) (some text) [] r r'
      → unmarshal_cache text ≡ ok c
      → Related client server (record m { cache = insert c.id c m.cache }) r'
  unfolding node_key name_key cache_key id_counter_key cache_stack_key text_of
  cache-Related c text w reads = record {
    quiet = rel.quiet;
    is_up = w.still_up;
    nodes = λ id. rw (w.value-write (node_key id)) (rel.nodes id);
    names = λ name. rw (w.value-write (name_key (text_of name))) (rel.names name);
    caches = cache-written c text w reads;
    stack_free = w.value-write cache_stack_key ∙ rel.stack_free;
    stack = rw (w.items-write cache_stack_key) rel.stack;
    counter = rw (w.value-write id_counter_key) rel.counter;
    small = rel.small;
    counter_free = w.items-write id_counter_key ∙ rel.counter_free;
  }

  -- The list of nodes to cache becomes the one that the new items are.
  pub stack-Related :
      (items : List Text) (ids : List ℕ)
      → Writes server.views cache_stack_key none items r r'
      → parse_items items ≡ ok ids
      → Related client server (record m { stack = ids }) r'
  unfolding node_key name_key cache_key id_counter_key cache_stack_key text_of
  stack-Related items ids w reads = record {
    quiet = rel.quiet;
    is_up = w.still_up;
    nodes = λ id. rw (w.value-write (node_key id)) (rel.nodes id);
    names = λ name. rw (w.value-write (name_key (text_of name))) (rel.names name);
    caches = λ id. rw (w.value-write (cache_key id)) (rel.caches id);
    stack_free = w.value-write cache_stack_key;
    stack = rw (w.items-write cache_stack_key) reads;
    counter = rw (w.value-write id_counter_key) rel.counter;
    small = rel.small;
    counter_free = w.items-write id_counter_key ∙ rel.counter_free;
  }

  pub push-Related :
      (text : Text) (id : ℕ)
      → Writes server.views cache_stack_key none
          (server.views.items r cache_stack_key ++ text ∷ [])
          r
          r'
      → parse_uint text ≡ ok id
      → Related client server (record m { stack = m.stack ++ id ∷ [] }) r'
  push-Related text id w reads =
      stack-Related _ _ w
        (parse_items-append _ text id reads ∙ ap (λ o. bind o λ ids. ok (ids ++ id ∷ [])) rel.stack)

  pub count-Related :
      (n : ℕ)
      → Writes server.views id_counter_key (some (uint32_to_str n)) [] r r'
      → Related client server (record m { id_counter = n }) r'
  unfolding node_key name_key cache_key id_counter_key cache_stack_key text_of
  count-Related n w = record {
    quiet = rel.quiet;
    is_up = w.still_up;
    nodes = λ id. rw (w.value-write (node_key id)) (rel.nodes id);
    names = λ name. rw (w.value-write (name_key (text_of name))) (rel.names name);
    caches = λ id. rw (w.value-write (cache_key id)) (rel.caches id);
    stack_free = w.value-write cache_stack_key ∙ rel.stack_free;
    stack = rw (w.items-write cache_stack_key) rel.stack;
    counter = rw (w.value-write id_counter_key) refl;
    small = rel.small;
    counter_free = w.items-write id_counter_key;
  }
