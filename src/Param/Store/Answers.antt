-- ===== src/Param/Store/Answers.antt =====
-- The answers of the parameter services that only read the store, and what a client reads in them
-- (src/node.rs and src/zenoh_backend/parameters.rs).
use ros2_client.Base.{Bool, false, ◌&&◌, ◌||◌, List, [], ◌∷◌, map, is_empty, ◌≡◌, refl, arith, ap}
use ros2_client.Base.Text.{text_eq_iff, Text, text_eq}
use ros2_client.Base.Ordered.{get, contains_key}
use ros2_client.Param.Value.{RawValue, from_raw, to_parameter_type}
use ros2_client.Param.Value.Laws.{from_raw-to_raw, ptype-to_raw}
use ros2_client.Param.Store.{
  Store, text_order, value_of, get_values, get_types, any_prefix, list_names,
}

-- `contains` on a list of names.
abbrev pub is_member : Text → List Text → Bool
is_member j [] = false
is_member j (k ∷ ks) = text_eq k j || is_member j ks

-- A name is listed if and only if it is in the store and there are no prefixes in the request or one
-- of them begins it.
pub is_member-list_names :
    (j : Text) (prefixes : List Text) (m : Store)
    → is_member j (list_names m prefixes)
      ≡ (contains_key j m && (is_empty prefixes || any_prefix j prefixes))
unfolding list_names get
is_member-list_names j prefixes [] = refl
is_member-list_names j prefixes ((k, v) ∷ m) =
    ground (arith, is_member-list_names j prefixes m, text_eq_iff k j)

-- What a client reads of the values is the store's value of each name, in the order of the request,
-- and the types that it is told are those of the values.
pub read_values :
    (m : Store) (names : List Text)
    → (map from_raw (get_values m names) ≡ map (value_of m) names)
      × (map (λ (r : RawValue). r.ptype) (get_values m names) ≡ get_types m names)
unfolding get_values get_types
read_values m [] = (refl, refl)
read_values m (n ∷ ns) =
    let (values, types) = read_values m ns in
    (
      rw (from_raw-to_raw (value_of m n)) (ap (λ l. value_of m n ∷ l) values),
      rw (ptype-to_raw (value_of m n)) (ap (λ l. to_parameter_type (value_of m n) ∷ l) types),
    )
