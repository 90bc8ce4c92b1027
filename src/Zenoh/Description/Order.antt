-- ===== src/Zenoh/Description/Order.antt =====
-- The referenced types of a description are sorted by name before they are hashed: their order does not
-- matter, as far as their names differ (src/zenoh_backend/type_description.rs).
use ros2_client.Base.{
  List, [], ◌∷◌, map, true, false, Bool-cases, ◌≡◌, ◌≢◌, refl, arith, sym, ◌∙◌, ap, inl, inr,
}
use ros2_client.Base.Text.{Text, text_eq, text_eq_iff}
use ros2_client.Base.TextOrder.{text_less, text_less_trans, text_less_irrefl, text_less_total}
use ros2_client.Zenoh.Description.{IndividualTypeDescription, insert_by_name, sort_by_name}

-- Two lists with the same descriptions, where two of one name keep their order.
pub data Reordered : List IndividualTypeDescription → List IndividualTypeDescription → Type 0 where
  same : {xs : List IndividualTypeDescription} → Reordered xs xs
  keep :
      {x : IndividualTypeDescription} {xs ys : List IndividualTypeDescription}
      → Reordered xs ys
      → Reordered (x ∷ xs) (x ∷ ys)
  swap :
      {x y : IndividualTypeDescription} {xs : List IndividualTypeDescription}
      → x.type_name ≢ y.type_name
      → Reordered (x ∷ y ∷ xs) (y ∷ x ∷ xs)
  both :
      {xs ys zs : List IndividualTypeDescription}
      → Reordered xs ys
      → Reordered ys zs
      → Reordered xs zs

insert_later :
    (x y : IndividualTypeDescription) (ys : List IndividualTypeDescription)
    → text_less y.type_name x.type_name ≡ true
    → insert_by_name x (y ∷ ys) ≡ y ∷ insert_by_name x ys
insert_later x y ys h = rw h refl

insert_here :
    (x y : IndividualTypeDescription) (ys : List IndividualTypeDescription)
    → text_less y.type_name x.type_name ≡ false
    → insert_by_name x (y ∷ ys) ≡ x ∷ y ∷ ys
insert_here x y ys h = rw h refl

less_not : (a b : Text) → text_less a b ≡ true → text_less b a ≡ false
less_not a b h = elim (Bool-cases (text_less b a)) [
  | inl k ↦ cc (text_less_trans a b a h k, text_less_irrefl a)
  | inr k ↦ k
]

-- Of two insertions the lesser may come first or last.
insert_commutes :
    (x y : IndividualTypeDescription) (zs : List IndividualTypeDescription)
    → text_less x.type_name y.type_name ≡ true
    → insert_by_name x (insert_by_name y zs) ≡ insert_by_name y (insert_by_name x zs)
insert_commutes x y [] l =
    insert_here x y [] (less_not x.type_name y.type_name l) ∙ sym (insert_later y x [] l)
insert_commutes x y (z ∷ zs) l = ground (
  arith,
  less_not x.type_name y.type_name l,
  text_less_trans z.type_name x.type_name y.type_name,
  insert_commutes x y zs l,
)

insert_swap :
    (x y : IndividualTypeDescription) (zs : List IndividualTypeDescription)
    → x.type_name ≢ y.type_name
    → insert_by_name x (insert_by_name y zs) ≡ insert_by_name y (insert_by_name x zs)
insert_swap x y zs ne = elim (Bool-cases (text_less x.type_name y.type_name)) [
  | inl l ↦ insert_commutes x y zs l
  | inr g ↦
      let other : text_eq y.type_name x.type_name ≡ false =
        ground (arith, text_eq_iff y.type_name x.type_name) in
      sym (insert_commutes y x zs (text_less_total y.type_name x.type_name other g))
]

-- Sorting forgets the order.
pub sort_by_name-Reordered :
    {xs ys : List IndividualTypeDescription} → Reordered xs ys → sort_by_name xs ≡ sort_by_name ys
sort_by_name-Reordered same = refl
sort_by_name-Reordered (keep {x} r) = ap (insert_by_name x) (sort_by_name-Reordered r)
sort_by_name-Reordered (swap {x} {y} {xs} ne) = insert_swap x y (sort_by_name xs) ne
sort_by_name-Reordered (both r q) = sort_by_name-Reordered r ∙ sort_by_name-Reordered q

pub symm : {xs ys : List IndividualTypeDescription} → Reordered xs ys → Reordered ys xs
symm same = same
symm (keep r) = keep (symm r)
symm (swap ne) = swap (λ e. ne (sym e))
symm (both r q) = both (symm q) (symm r)

insert-Reordered :
    (x : IndividualTypeDescription) (ys : List IndividualTypeDescription)
    → Reordered (x ∷ ys) (insert_by_name x ys)
insert-Reordered x [] = same
insert-Reordered x (y ∷ ys) = elim (Bool-cases (text_less y.type_name x.type_name)) [
  | inl l ↦ rw l (
      both (swap (λ e. absurd (cc (l, e, text_less_irrefl x.type_name))))
        (keep (insert-Reordered x ys)))
  | inr g ↦ rw g same
]

pub Reordered-sort_by_name : (xs : List IndividualTypeDescription) → Reordered xs (sort_by_name xs)
Reordered-sort_by_name [] = same
Reordered-sort_by_name (x ∷ xs) =
    both (keep (Reordered-sort_by_name xs)) (insert-Reordered x (sort_by_name xs))

-- A change of descriptions that leaves their names alone.
module _ (f : IndividualTypeDescription → IndividualTypeDescription)
    (named : (d : IndividualTypeDescription) → (f d).type_name ≡ d.type_name) where
  pub map-Reordered :
      {xs ys : List IndividualTypeDescription} → Reordered xs ys → Reordered (map f xs) (map f ys)
  map-Reordered same = same
  map-Reordered (keep r) = keep (map-Reordered r)
  map-Reordered (swap {x} {y} ne) = swap (λ e. ne (sym (named x) ∙ (e ∙ named y)))
  map-Reordered (both r q) = both (map-Reordered r) (map-Reordered q)

  map-insert_by_name :
      (x : IndividualTypeDescription) (ys : List IndividualTypeDescription)
      → map f (insert_by_name x ys) ≡ insert_by_name (f x) (map f ys)
  map-insert_by_name x [] = refl
  map-insert_by_name x (y ∷ ys) = ground (arith, named x, named y, map-insert_by_name x ys)

  pub map-sort_by_name :
      (xs : List IndividualTypeDescription) → map f (sort_by_name xs) ≡ sort_by_name (map f xs)
  map-sort_by_name [] = refl
  map-sort_by_name (x ∷ xs) =
      map-insert_by_name x (sort_by_name xs) ∙ ap (insert_by_name (f x)) (map-sort_by_name xs)
