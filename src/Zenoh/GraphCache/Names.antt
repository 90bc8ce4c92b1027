-- ===== src/Zenoh/GraphCache/Names.antt =====
-- The names of nodes in the graph cache (`node_names` of src/zenoh_backend/graph_cache.rs).
use ros2_client.Base.{
  Bool, true, false, ◌&&◌, ◌||◌, List, [], ◌∷◌, All, if◌then◌else◌, ◌≡◌, refl, arith, Bool-cases,
  ap, ◌⊎◌, inl, inr, subst, sym, ◌∙◌,
}
use ros2_client.Base.Text.{Text, text_eq, text_eq_sound}
use ros2_client.Base.TextOrder.{text_less, text_less_trans, text_less_irrefl, text_less_total}
use ros2_client.Base.Ordered.{Map}
use ros2_client.Zenoh.KeyExpr.{node, ParsedEntity}
use ros2_client.Zenoh.GraphCache.{GraphCache, join_fqn, kind_eq}

-- `sort` of a vector of texts.
abbrev insert_sorted : Text → List Text → List Text
insert_sorted s [] = s ∷ []
insert_sorted s (t ∷ ts) =
    let rest = insert_sorted s ts in if text_less t s then t ∷ rest else s ∷ t ∷ ts

abbrev pub sort : List Text → List Text
sort [] = []
sort (s ∷ ss) = insert_sorted s (sort ss)

-- `dedup`: of equal texts that stand together, one is left.
abbrev pub dedup : List Text → List Text
dedup [] = []
dedup (s ∷ []) = s ∷ []
dedup (s ∷ t ∷ ts) = let rest = dedup (t ∷ ts) in if text_eq s t then rest else s ∷ rest

abbrev is_node : ParsedEntity → Bool
is_node e = kind_eq e.kind node

abbrev name_of : ParsedEntity → Text
name_of e = join_fqn e.namespace e.node_name

-- The filter and the map over the values.
abbrev pub names_in : Map Text ParsedEntity → List Text
names_in [] = []
names_in ((k, e) ∷ m) = let rest = names_in m in if is_node e then name_of e ∷ rest else rest

unfoldable pub node_names : GraphCache → List Text
node_names c = dedup (sort (names_in c.entities))

abbrev pub has : Text → List Text → Bool
has n [] = false
has n (s ∷ ss) = text_eq s n || has n ss

-- Whether some node in the cache has the name.
abbrev pub has_node : Text → Map Text ParsedEntity → Bool
has_node n [] = false
has_node n ((k, e) ∷ m) = (is_node e && text_eq (name_of e) n) || has_node n m

-- Each text is less than all that follow, and so no text occurs twice.
abbrev pub Ascends : List Text → Type 0
Ascends [] = Unit
Ascends (s ∷ ss) = All (λ t. text_less s t ≡ true) ss × Ascends ss

-- No text is greater than one that follows.
abbrev IsSorted : List Text → Type 0
IsSorted [] = Unit
IsSorted (s ∷ ss) = All (λ t. text_less t s ≡ false) ss × IsSorted ss

All-insert_sorted :
    (P : Text → Type 0) (s : Text) (ts : List Text) → P s → All P ts → All P (insert_sorted s ts)
All-insert_sorted P s [] p h = (p, tt)
All-insert_sorted P s (t ∷ ts) p (q, h) = elim (Bool-cases (text_less t s)) [
  | inl e ↦ rw e (q, All-insert_sorted P s ts p h)
  | inr e ↦ rw e (p, (q, h))
]

text_less_asym : (a b : Text) → text_less a b ≡ true → text_less b a ≡ false
text_less_asym a b h = elim (Bool-cases (text_less b a)) [
  | inl ba ↦ ground (arith, text_less_irrefl a, text_less_trans a b a h ba)
  | inr ba ↦ ba
]

-- What is not less than a text is not less than one that the text is not less than.
not_less_trans :
    (a b c : Text) → text_less b a ≡ false → text_less c b ≡ false → text_less c a ≡ false
not_less_trans a b c h k = elim (Bool-cases (text_less c a)) [
  | inl ca ↦ elim (Bool-cases (text_eq a b)) [
    | inl e ↦ subst (λ x. text_less c x ≡ false) (sym (text_eq_sound a b e)) k
    | inr e ↦ ground (arith, k, text_less_trans c a b ca (text_less_total a b e h))
  ]
  | inr ca ↦ ca
]

All-not_less :
    (s t : Text) (ts : List Text)
    → text_less t s ≡ false
    → All (λ u. text_less u t ≡ false) ts
    → All (λ u. text_less u s ≡ false) ts
All-not_less s t [] h a = tt
All-not_less s t (u ∷ ts) h (b, a) = (not_less_trans s t u h b, All-not_less s t ts h a)

insert_sorted-IsSorted : (s : Text) (ts : List Text) → IsSorted ts → IsSorted (insert_sorted s ts)
insert_sorted-IsSorted s [] h = (tt, tt)
insert_sorted-IsSorted s (t ∷ ts) (a, h) = elim (Bool-cases (text_less t s)) [
  | inl e ↦ rw e (
    All-insert_sorted (λ u. text_less u t ≡ false) s ts (text_less_asym t s e) a,
    insert_sorted-IsSorted s ts h,
  )
  | inr e ↦ rw e ((e, All-not_less s t ts e a), (a, h))
]

sort-IsSorted : (ss : List Text) → IsSorted (sort ss)
sort-IsSorted [] = tt
sort-IsSorted (s ∷ ss) = insert_sorted-IsSorted s (sort ss) (sort-IsSorted ss)

All-dedup : (P : Text → Type 0) (ss : List Text) → All P ss → All P (dedup ss)
All-dedup P [] h = tt
All-dedup P (s ∷ []) h = h
All-dedup P (s ∷ t ∷ ts) (p, h) = elim (Bool-cases (text_eq s t)) [
  | inl e ↦ rw e (All-dedup P (t ∷ ts) h)
  | inr e ↦ rw e (p, All-dedup P (t ∷ ts) h)
]

-- What is less than a text is less than all that are not less than the text.
All-less :
    (s t : Text) (ts : List Text)
    → text_less s t ≡ true
    → All (λ u. text_less u t ≡ false) ts
    → All (λ u. text_less s u ≡ true) ts
All-less s t [] h a = tt
All-less s t (u ∷ ts) h (b, a) = (step (Bool-cases (text_eq t u)), All-less s t ts h a)
  where
    step : (text_eq t u ≡ true) ⊎ (text_eq t u ≡ false) → text_less s u ≡ true
    step (inl e) = subst (λ x. text_less s x ≡ true) (text_eq_sound t u e) h
    step (inr e) = text_less_trans s t u h (text_less_total t u e b)

dedup-Ascends : (ss : List Text) → IsSorted ss → Ascends (dedup ss)
dedup-Ascends [] h = tt
dedup-Ascends (s ∷ []) h = (tt, tt)
dedup-Ascends (s ∷ t ∷ ts) ((st, a), (b, h)) = elim (Bool-cases (text_eq s t)) [
  | inl e ↦ rw e (dedup-Ascends (t ∷ ts) (b, h))
  | inr e ↦ rw e (
    All-dedup (λ u. text_less s u ≡ true) (t ∷ ts)
        (text_less_total s t e st, All-less s t ts (text_less_total s t e st) b),
    dedup-Ascends (t ∷ ts) (b, h),
  )
]

has-insert_sorted :
    (n s : Text) (ts : List Text) → has n (insert_sorted s ts) ≡ (text_eq s n || has n ts)
has-insert_sorted n s [] = refl
has-insert_sorted n s (t ∷ ts) = ground (arith, has-insert_sorted n s ts)

has-sort : (n : Text) (ss : List Text) → has n (sort ss) ≡ has n ss
has-sort n [] = refl
has-sort n (s ∷ ss) = has-insert_sorted n s (sort ss) ∙ ap (λ b. text_eq s n || b) (has-sort n ss)

has-dedup : (n : Text) (ss : List Text) → has n (dedup ss) ≡ has n ss
has-dedup n [] = refl
has-dedup n (s ∷ []) = refl
has-dedup n (s ∷ t ∷ ts) = elim (Bool-cases (text_eq s t)) [
  | inl e ↦ rw (e, has-dedup n (t ∷ ts), text_eq_sound s t e) (ground arith)
  | inr e ↦ rw (e, has-dedup n (t ∷ ts)) refl
]

has-names_in : (n : Text) (m : Map Text ParsedEntity) → has n (names_in m) ≡ has_node n m
has-names_in n [] = refl
has-names_in n ((k, e) ∷ m) = ground (arith, has-names_in n m)

-- The names of nodes that the cache lists ascend strictly, so that none occurs twice, and a text is
-- among them exactly when a node in the cache has it as its fully qualified name.
pub node_names_lem :
    (c : GraphCache) (n : Text)
    → Ascends (node_names c) × (has n (node_names c) ≡ has_node n c.entities)
unfolding node_names
node_names_lem c n = (
  dedup-Ascends (sort (names_in c.entities)) (sort-IsSorted (names_in c.entities)),
  has-dedup n (sort (names_in c.entities))
      ∙ has-sort n (names_in c.entities)
      ∙ has-names_in n c.entities,
)
