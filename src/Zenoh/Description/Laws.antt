-- ===== src/Zenoh/Description/Laws.antt =====
-- When two type descriptions have the same text to hash (src/zenoh_backend/type_description.rs).
use mathlib.Core.List.{append_cancel_left, tail}
use ros2_client.Base.{
  ℕ, suc, List, [], ◌∷◌, ◌++◌, map, All, ◌≡◌, ◌↔◌, refl, arith, sym, ◌∙◌, ap, subst,
}
use ros2_client.Base.Text.{codes}
use ros2_client.Zenoh.Description.{
  Field, IndividualTypeDescription, TypeDescription, write_field, write_each, write_itd,
  insert_by_name, sort_by_name, hashable_json,
}
use ros2_client.Zenoh.Description.Writers.{
  IsUnicode, strip_field, strip, each_determined, itd_opens, itd_determined,
}
use ros2_client.Zenoh.Description.Order.{
  Reordered, both, symm, sort_by_name-Reordered, Reordered-sort_by_name, map-Reordered,
  map-sort_by_name,
}

-- The same types but for default values, the referenced ones in any order as far as names differ.
abbrev pub SameTypes : TypeDescription → TypeDescription → Type 0
SameTypes d e =
    (strip d.type_description ≡ strip e.type_description)
    × Reordered (map strip d.referenced_type_descriptions)
        (map strip e.referenced_type_descriptions)

abbrev pub IsUnicodeAll : TypeDescription → Type 0
IsUnicodeAll d = IsUnicode d.type_description × All IsUnicode d.referenced_type_descriptions

json_front :
    (d : TypeDescription)
    → hashable_json d
      ≡ codes "{\"type_description\": "
        ++ (write_itd d.type_description
            ++ (codes ", \"referenced_type_descriptions\": ["
                ++ (write_each write_itd 0 (sort_by_name d.referenced_type_descriptions)
                    ++ codes "]}")))
unfolding hashable_json
json_front d = refl

insert-All :
    (x : IndividualTypeDescription) (ys : List IndividualTypeDescription)
    → IsUnicode x
    → All IsUnicode ys
    → All IsUnicode (insert_by_name x ys)
insert-All x [] h k = (h, k)
insert-All x (y ∷ ys) h (ky, k) = ground (arith, insert-All x ys h k)

sort-All :
    (xs : List IndividualTypeDescription) → All IsUnicode xs → All IsUnicode (sort_by_name xs)
sort-All [] h = h
sort-All (x ∷ xs) (h, k) = insert-All x (sort_by_name xs) h (sort-All xs k)

write_fields-strip :
    (i : ℕ) (fs : List Field)
    → write_each write_field i (map strip_field fs) ≡ write_each write_field i fs
unfolding write_field
write_fields-strip i [] = refl
write_fields-strip i (f ∷ fs) = rw (write_fields-strip (suc i) fs) refl

write_itd-strip : (d : IndividualTypeDescription) → write_itd (strip d) ≡ write_itd d
unfolding write_itd
write_itd-strip d = rw (write_fields-strip 0 d.fields) refl

write_all-strip :
    (i : ℕ) (ds : List IndividualTypeDescription)
    → write_each write_itd i (map strip ds) ≡ write_each write_itd i ds
write_all-strip i [] = refl
write_all-strip i (d ∷ ds) = rw (write_itd-strip d, write_all-strip (suc i) ds) refl

same_types :
    (d e : TypeDescription)
    → IsUnicodeAll d
    → IsUnicodeAll e
    → hashable_json d ≡ hashable_json e
    → SameTypes d e
same_types d e (hd, kd) (he, ke) h =
    let ds = d.referenced_type_descriptions in
    let es = e.referenced_type_descriptions in
    let h0 =
      append_cancel_left (codes "{\"type_description\": ") _ _
        (sym (json_front d) ∙ (h ∙ json_front e)) in
    let (top, h1) = itd_determined d.type_description e.type_description _ _ hd he h0 in
    let (refs, _) =
      each_determined write_itd (λ x. tail (write_itd x)) strip IsUnicode itd_opens itd_determined
        (sort_by_name ds) (sort_by_name es) (b'}' ∷ []) (b'}' ∷ []) (sort-All ds kd)
        (sort-All es ke)
        (append_cancel_left (codes ", \"referenced_type_descriptions\": [") _ _ h1) in
    let there = map-Reordered strip (λ x. refl) (Reordered-sort_by_name ds) in
    let back = map-Reordered strip (λ x. refl) (symm (Reordered-sort_by_name es)) in
    (top, both there (subst (λ l. Reordered l (map strip es)) (sym refs) back))

same_json : (d e : TypeDescription) → SameTypes d e → hashable_json d ≡ hashable_json e
unfolding hashable_json
same_json d e (top, refs) =
    let ds = d.referenced_type_descriptions in
    let es = e.referenced_type_descriptions in
    let tops : write_itd d.type_description ≡ write_itd e.type_description =
      sym (write_itd-strip d.type_description)
      ∙ (ap write_itd top ∙ write_itd-strip e.type_description) in
    let sorted : map strip (sort_by_name ds) ≡ map strip (sort_by_name es) =
      map-sort_by_name strip (λ x. refl) ds
      ∙ (sort_by_name-Reordered refs ∙ sym (map-sort_by_name strip (λ x. refl) es)) in
    let rests : write_each write_itd 0 (sort_by_name ds)
        ≡ write_each write_itd 0 (sort_by_name es) =
      sym (write_all-strip 0 (sort_by_name ds))
      ∙ (ap (write_each write_itd 0) sorted ∙ write_all-strip 0 (sort_by_name es)) in
    rw (tops, rests) refl

-- Two descriptions whose texts are Unicode have the same text to hash exactly when they are the same
-- types: their top types and their referenced types agree but for default values, and the referenced
-- types stand in any order, except that two of one name keep theirs.
pub hashable_json_iff :
    (d e : TypeDescription)
    → IsUnicodeAll d
    → IsUnicodeAll e
    → (hashable_json d ≡ hashable_json e) ↔ SameTypes d e
hashable_json_iff d e hd he = (same_types d e hd he, same_json d e)
