-- ===== src/Zenoh/GraphCache/Laws.antt =====
-- What the graph cache holds after any samples, and how the counts change
-- (src/zenoh_backend/graph_cache.rs).
use ros2_client.Base.{
  List, [], ◌∷◌, Option, none, some, if◌then◌else◌, ◌≡◌, refl, arith, sym, inl, inr, Bool-cases,
  Option-cases,
}
use ros2_client.Base.Text.{text_eq_iff, Text, text_eq}
use ros2_client.Base.Ordered.{text_key, Map, get, insert, remove, get-insert, get-remove}
use ros2_client.Zenoh.KeyExpr.{ParsedEntity, parse_liveliness_key}
use ros2_client.Zenoh.GraphCache.{
  GraphCache, broadcast, apply_put, apply_delete, Sample, put, delete, apply, run,
}

-- Each key occurs once, and its entity is what the key says.
abbrev pub IsEntities : Map Text ParsedEntity → Type 0
IsEntities [] = Unit
IsEntities ((k, e) ∷ m) = (parse_liveliness_key k ≡ some e) × (get k m ≡ none) × IsEntities m

insert-IsEntities :
    (k : Text) (e : ParsedEntity) (m : Map Text ParsedEntity)
    → parse_liveliness_key k ≡ some e
    → IsEntities m
    → IsEntities (insert k e m)
unfolding insert get
insert-IsEntities k e [] p h = (p, refl, tt)
insert-IsEntities k e ((j, f) ∷ m) p (q, fresh, h) = elim (Bool-cases (text_eq j k)) [
  | inl hit ↦ rw hit (p, rw (sym ((text_eq_iff j k).0 hit)) fresh, h)
  | inr miss ↦
      rw miss (q, ground (arith, get-insert k j e m, text_eq_iff k j), insert-IsEntities k e m p h)
]

remove-IsEntities : (k : Text) (m : Map Text ParsedEntity) → IsEntities m → IsEntities (remove k m)
unfolding remove
remove-IsEntities k [] h = tt
remove-IsEntities k ((j, f) ∷ m) (q, fresh, h) = elim (Bool-cases (text_eq j k)) [
  | inl hit ↦ rw hit (remove-IsEntities k m h)
  | inr miss ↦ rw miss (q, ground (arith, get-remove k j m), remove-IsEntities k m h)
]

pub put_other :
    (key : Text) (c : GraphCache)
    → parse_liveliness_key key ≡ none
    → (apply_put key c).entities ≡ c.entities
unfolding apply_put
put_other key c h = rw (h, apply_put) refl

pub put_token :
    (key : Text) (e : ParsedEntity) (c : GraphCache)
    → parse_liveliness_key key ≡ some e
    → (apply_put key c).entities ≡ insert key e c.entities
unfolding apply_put broadcast
put_token key e c h = rw (h, apply_put) refl

pub delete_other :
    (key : Text) (c : GraphCache)
    → get key c.entities ≡ none
    → (apply_delete key c).entities ≡ c.entities
unfolding apply_delete
delete_other key c h = rw (h, apply_delete) refl

pub delete_known :
    (key : Text) (e : ParsedEntity) (c : GraphCache)
    → get key c.entities ≡ some e
    → (apply_delete key c).entities ≡ remove key c.entities
unfolding apply_delete broadcast
delete_known key e c h = rw (h, apply_delete) refl

apply-IsEntities :
    (s : Sample) (c : GraphCache) → IsEntities c.entities → IsEntities (apply s c).entities
apply-IsEntities (put key) c h = elim (Option-cases (parse_liveliness_key key)) [
  | inl e ↦ rw (put_other key c e) h
  | inr (x, e) ↦ rw (put_token key x c e) (insert-IsEntities key x c.entities e h)
]
apply-IsEntities (delete key) c h = elim (Option-cases (get key c.entities)) [
  | inl e ↦ rw (delete_other key c e) h
  | inr (x, e) ↦ rw (delete_known key x c e) (remove-IsEntities key c.entities h)
]

-- From a cache where each key occurs once and has the entity that it spells, any samples lead to
-- such a cache.
pub run-IsEntities :
    (ss : List Sample) (c : GraphCache) → IsEntities c.entities → IsEntities (run ss c).entities
run-IsEntities [] c h = h
run-IsEntities (s ∷ ss) c h = run-IsEntities ss (apply s c) (apply-IsEntities s c h)

-- What the samples last said of a key: a put of a key that is no token says nothing.
abbrev pub said : Text → Sample → Option ParsedEntity → Option ParsedEntity
said key (put k) before =
    if text_eq k key
    then elim (parse_liveliness_key k) [ none ↦ before | some e ↦ some e ]
    else before
said key (delete k) before = if text_eq k key then none else before

abbrev pub last_said : Text → List Sample → Option ParsedEntity → Option ParsedEntity
last_said key [] before = before
last_said key (s ∷ ss) before = last_said key ss (said key s before)

get-apply :
    (key : Text) (s : Sample) (c : GraphCache)
    → get key (apply s c).entities ≡ said key s (get key c.entities)
get-apply key (put k) c = elim (Option-cases (parse_liveliness_key k)) [
  | inl e ↦ rw (put_other k c e, e) (ground arith)
  | inr (x, e) ↦ rw (put_token k x c e, e) (get-insert k key x c.entities)
]
get-apply key (delete k) c = elim (Option-cases (get k c.entities)) [
  | inl e ↦ rw (delete_other k c e) (ground (arith, text_eq_iff k key))
  | inr (x, e) ↦ rw (delete_known k x c e) (get-remove k key c.entities)
]

-- After any samples, what the cache has for a key is what the last sample on it said: the entity of
-- the key after a put, nothing after a delete, and what was there before if no token was put.
pub get-run :
    (key : Text) (ss : List Sample) (c : GraphCache)
    → get key (run ss c).entities ≡ last_said key ss (get key c.entities)
get-run key [] c = refl
get-run key (s ∷ ss) c = rw (get-run key ss (apply s c), get-apply key s c) refl
