-- ===== src/Storages/Tests/Data.antt =====
-- A server in memory, and a format of nodes and caches: the laws of the parameters can be met.
use minefield.Prelude.{
  ℕ, zero, suc, ◌+◌, ◌≡◌, ◌∙◌, refl, ap, arith, Bool, true, Option, none, some, List, [], ◌∷◌, ◌++◌,
  length, if◌then◌else◌, ◌==◌, text_eq, Text, text_of, pos, redis_nil, errorf, Outcome, ok, err,
  Action,
}
use minefield.Utils.{uint32_to_str}
use minefield.Utils.Decimal.{number, number-uint32_to_str}
use minefield.Graph.Storage.{Bytes}
use minefield.Graph.Encode.{Format, NodeFormat, NodeData, CacheData}
use minefield.Storages.Redis.Commands.{Client}
use minefield.Storages.Redis.Server.{Server, Views, Writes, Counts}
use minefield.Storages.Tests.Codes.{string_of, string_of-text_of}

abbrev pack : List ℕ → List ℕ → List ℕ
pack xs ys = length xs ∷ xs ++ ys

abbrev split : ℕ → List ℕ → List ℕ × List ℕ
split zero ys = ([], ys)
split (suc n) [] = ([], [])
split (suc n) (x ∷ xs) = let (l, r) = split n xs in (x ∷ l, r)

pub split-append : (xs ys : List ℕ) → Path (List ℕ × List ℕ) (split (length xs) (xs ++ ys)) (xs, ys)
split-append [] ys = refl
split-append (x ∷ xs) ys = ap (λ (l, r). (x ∷ l, r)) (split-append xs ys)

abbrev unpack : List ℕ → List ℕ × List ℕ
unpack [] = ([], [])
unpack (n ∷ xs) = split n xs

abbrev read_cache : Bytes → Outcome CacheData
read_cache [] = err (errorf "unexpected end of JSON input")
read_cache (id ∷ rest) =
    let (l, r) = unpack rest in
    ok (record { all_parents_data = l; all_children_data = r; node_id = id })

abbrev read_node : Bytes → Outcome (NodeData (Unit {0}))
read_node [] = err (errorf "unexpected end of JSON input")
read_node (id ∷ rest) =
    let (type, rest) = unpack rest in
    let (name, rest) = unpack rest in
    let (l, r) = unpack rest in
    ok (record {
      metadata = tt;
      type = string_of type;
      name = string_of name;
      child_data = l;
      parent_data = r;
      id = id;
    })

instance abbrev pub listed_format : Format (List ℕ)
listed_format = record {
  to_bytes = λ b. ok b;
  from_buffer = λ t. ok t;
  cache_to_json = λ d. ok (d.node_id ∷ pack d.all_parents_data d.all_children_data);
  cache_from_json = read_cache;
  from_buffer-to_bytes = λ b. (b, refl, refl);
  cache_from_json-to_json =
      λ d small. (_, refl, rw (split-append d.all_parents_data d.all_children_data) refl);
}

abbrev write_node : NodeData (Unit {0}) → Bytes
write_node d =
    d.id ∷ pack (text_of d.type) (pack (text_of d.name) (pack d.child_data d.parent_data))

instance abbrev pub unit_format : NodeFormat (Unit {0})
unit_format = record {
  node_to_json = λ d. ok (write_node d);
  node_from_json = read_node;
  node_from_json-to_json = λ d small. (
    write_node d,
    refl,
    rw
        (
          split-append (text_of d.type) (pack (text_of d.name) (pack d.child_data d.parent_data)),
          split-append (text_of d.name) (pack d.child_data d.parent_data),
          split-append d.child_data d.parent_data,
          string_of-text_of d.type,
          string_of-text_of d.name,
        )
        refl,
  );
}

-- A key has a string or a list; `reachable` is whether the server answers.
pub record Keyspace : Type 0 where
  pub strings : Text → Option Text
  pub lists : Text → List Text
  pub reachable : Bool

abbrev pub no_keys : Keyspace
no_keys = record { strings = λ _. none; lists = λ _. []; reachable = true }

abbrev put : Text → Option Text → List Text → Keyspace → Keyspace
put key v l r = record {
  strings = λ j. if key == j then v else r.strings j;
  lists = λ j. if key == j then l else r.lists j;
  reachable = r.reachable;
}

abbrev answer : {A : Type 0} → A → Keyspace → Keyspace → Outcome A × Keyspace
answer a r r' = if r.reachable then (ok a, r') else (err (errorf "connection refused"), r)

abbrev fetched : Option Text → Outcome Text
fetched none = err redis_nil
fetched (some t) = ok t

abbrev count : Option Text → ℕ
count none = 0
count (some t) = number 0 t

abbrev next : Text → Keyspace → ℕ
next key r = count (r.strings key) + 1

-- The commands that the calls below do not send fail.
abbrev unsupported : {A : Type 0} → Action Keyspace A
unsupported r = (err (errorf "unknown command"), r)

abbrev pub keyspace_client : Client Keyspace
keyspace_client = record {
  incr = λ key r. answer (pos (next key r)) r (put key (some (uint32_to_str (next key r))) [] r);
  get = λ key r.
      if r.reachable then (fetched (r.strings key), r) else (err (errorf "connection refused"), r);
  set = λ key text r. answer tt r (put key (some text) [] r);
  del = λ key r. answer tt r (put key none [] r);
  rpush = λ key text r. answer tt r (put key none (r.lists key ++ text ∷ []) r);
  lrange = λ key from to r. answer (r.lists key) r r;
  keys = λ _. unsupported;
  scan = λ _ _ _. unsupported;
  hset = λ _ _ _. unsupported;
  hget_all = λ _. unsupported;
  exec = λ _ r. ((some (errorf "unknown command"), []), r);
}

abbrev views : Views Keyspace
views = record { value = λ r. r.strings; items = λ r. r.lists; is_up = λ r. r.reachable }

pub counted : (v : Option Text) (n : ℕ) → Counts v n → count v ≡ n
counted none n h = ground (arith, h)
counted (some t) n h = ap (number 0) h ∙ number-uint32_to_str n

pub put-Writes :
    (key : Text) (v : Option Text) (l : List Text) (r : Keyspace)
    → r.reachable ≡ true
    → Writes views key v l r (put key v l r)
put-Writes key v l r up = record { value-write = λ j. refl; items-write = λ j. refl; still_up = up }

abbrev pub keyspace_server : Server keyspace_client
keyspace_server = record {
  views = views;
  get-found = λ key text r up h. rw (up, h) refl;
  get-missing = λ key r up h. (redis_nil, rw (up, h) refl);
  lrange_all = λ key r up h. rw up refl;
  set-Writes = λ key text r up. (_, rw up refl, put-Writes key (some text) [] r up);
  del-Writes = λ key r up. (_, rw up refl, put-Writes key none [] r up);
  rpush-Writes =
      λ key text r up free. (_, rw up refl, put-Writes key none (r.lists key ++ text ∷ []) r up);
  incr-Writes = λ key n r up counts free room. (
    _,
    rw (up, counted (r.strings key) n counts) refl,
    put-Writes key (some (uint32_to_str (n + 1))) [] r up,
  );
}
