-- ===== src/Zenoh/Description/Writers.antt =====
-- Each writer of src/zenoh_backend/type_description.rs determines what it writes but the default values,
-- and the text that follows.
use mathlib.Core.List.{append_cancel_left, tail}
use ros2_client.Base.{
  ℕ, ◌+◌, suc, List, [], ◌∷◌, ◌++◌, map, Option, some, ltb, true, All, append_assoc, ◌≡◌, refl,
  arith, sym, ◌∙◌, ap, inl,
}
use ros2_client.Base.Text.{Text, codes, split_once, split_once-append}
use ros2_client.Base.Decimal.{to_string, parse_uint, parse_uint-to_string, to_string-Lacks}
use ros2_client.Zenoh.Description.{
  FieldType, Field, IndividualTypeDescription, write_json_string, pieces, write_field_type,
  write_field, write_each, write_itd,
}
use ros2_client.Zenoh.Description.Json.{IsScalar, json_determined}

-- The texts of a description are Unicode.
abbrev pub IsUnicode : IndividualTypeDescription → Type 0
IsUnicode d =
    All IsScalar d.type_name
    × All (λ (f : Field). All IsScalar f.name × All IsScalar f.field_type.nested_type_name) d.fields

abbrev pub strip_field : Field → Field
strip_field f = record f { default_value = [] }

-- A description without default values.
abbrev pub strip : IndividualTypeDescription → IndividualTypeDescription
strip d = record d { fields = map strip_field d.fields }

number_determined :
    (n m : ℕ) (r q : Text) → to_string n ++ b',' ∷ r ≡ to_string m ++ b',' ∷ q → (n ≡ m) × (r ≡ q)
number_determined n m r q e =
    let parts : ◌≡◌ {A = Option (Text × Text)} (some (to_string n, r)) (some (to_string m, q)) =
      sym (split_once-append b',' (to_string n) r (to_string-Lacks b',' n (inl (omega arith))))
      ∙ (ap (split_once b',') e
          ∙ split_once-append b',' (to_string m) q (to_string-Lacks b',' m (inl (omega arith)))) in
    let same : to_string n ≡ to_string m = cc in
    let read : ◌≡◌ {A = Option ℕ} (some n) (some m) =
      sym (parse_uint-to_string (n + m) n (omega arith))
      ∙ (ap (parse_uint (n + m)) same ∙ parse_uint-to_string (n + m) m (omega arith)) in
    (cc, cc)

-- Pieces in front of a text.
pieces_front : (p : Text) (ps : List Text) (r : Text) → pieces (p ∷ ps) ++ r ≡ p ++ (pieces ps ++ r)
pieces_front p ps r = append_assoc p (pieces ps) r

abbrev numbers_then : ℕ → ℕ → ℕ → Text → Text → Text
numbers_then a b c s r =
    codes "{\"type_id\": "
    ++ (to_string a
        ++ (codes ", \"capacity\": "
            ++ (to_string b
                ++ (codes ", \"string_capacity\": "
                    ++ (to_string c
                        ++ (codes ", \"nested_type_name\": "
                            ++ (write_json_string s ++ (b'}' ∷ r))))))))

field_type_front :
    (f : FieldType) (r : Text)
    → write_field_type f ++ r
      ≡ numbers_then f.type_id f.capacity f.string_capacity f.nested_type_name r
unfolding write_field_type
field_type_front f r = simp (append_assoc)

field_type_determined :
    (f g : FieldType) (r q : Text)
    → All IsScalar f.nested_type_name
    → All IsScalar g.nested_type_name
    → write_field_type f ++ r ≡ write_field_type g ++ q
    → (f ≡ g) × (r ≡ q)
field_type_determined f g r q hf hg e =
    let h0 =
      append_cancel_left (codes "{\"type_id\": ") _ _
        (sym (field_type_front f r) ∙ (e ∙ field_type_front g q)) in
    let (ea, h1) = number_determined f.type_id g.type_id _ _ h0 in
    let (eb, h2) =
      number_determined f.capacity g.capacity _ _
        (append_cancel_left (codes " \"capacity\": ") _ _ h1) in
    let (ec, h3) =
      number_determined f.string_capacity g.string_capacity _ _
        (append_cancel_left (codes " \"string_capacity\": ") _ _ h2) in
    let (es, h4) =
      json_determined f.nested_type_name g.nested_type_name _ _ hf hg
        (append_cancel_left (codes " \"nested_type_name\": ") _ _ h3) in
    (ground (arith, ea, eb, ec, es), cc)

field_front :
    (f : Field) (r : Text)
    → write_field f ++ r
      ≡ codes "{\"name\": "
        ++ (write_json_string f.name
            ++ (codes ", \"type\": " ++ (write_field_type f.field_type ++ (b'}' ∷ r))))
unfolding write_field
field_front f r = simp (append_assoc)

field_determined :
    (f g : Field) (r q : Text)
    → All IsScalar f.name × All IsScalar f.field_type.nested_type_name
    → All IsScalar g.name × All IsScalar g.field_type.nested_type_name
    → write_field f ++ r ≡ write_field g ++ q
    → (strip_field f ≡ strip_field g) × (r ≡ q)
field_determined f g r q (hf, kf) (hg, kg) e =
    let h0 =
      append_cancel_left (codes "{\"name\": ") _ _
        (sym (field_front f r) ∙ (e ∙ field_front g q)) in
    let (en, h1) = json_determined f.name g.name _ _ hf hg h0 in
    let (et, h2) =
      field_type_determined f.field_type g.field_type _ _ kf kg
        (append_cancel_left (codes ", \"type\": ") _ _ h1) in
    (ground (arith, en, et), cc)

first : Text → ℕ
first [] = 0
first (c ∷ s) = c

heads : (c d : ℕ) (s t : Text) → c ∷ s ≡ d ∷ t → c ≡ d
unfolding first
heads c d s t e = ap first e

after_first : (i : ℕ) → ltb 0 (suc i) ≡ true
after_first i = ground arith

-- A loop over elements that each start with a brace and are determined, up to the closing bracket.
module _ {A B : Type 0} (write body : A → Text) (view : A → B) (P : A → Type 0)
    (opens : (a : A) → write a ≡ b'{' ∷ body a)
    (determined : (a b : A) (r q : Text)
      → P a
      → P b
      → write a ++ r ≡ write b ++ q
      → (view a ≡ view b) × (r ≡ q)) where
  each_front :
      (i : ℕ) (x : A) (xs : List A) (r : Text)
      → write_each write (suc i) (x ∷ xs) ++ r
        ≡ codes ", " ++ (write x ++ (write_each write (suc (suc i)) xs ++ r))
  each_front i x xs r = rw (after_first i) (
      ap (λ (t : Text). codes ", " ++ t)
        (append_assoc (write x) (write_each write (suc (suc i)) xs) r))

  rest_determined :
      (i j : ℕ) (xs ys : List A) (r q : Text)
      → All P xs
      → All P ys
      → write_each write (suc i) xs ++ b']' ∷ r ≡ write_each write (suc j) ys ++ b']' ∷ q
      → (map view xs ≡ map view ys) × (r ≡ q)
  rest_determined i j [] [] r q hx hy e = (refl, cc)
  rest_determined i j [] (y ∷ ys) r q hx hy e =
      absurd (omega (arith, heads b']' b',' _ _ (e ∙ each_front j y ys (b']' ∷ q))))
  rest_determined i j (x ∷ xs) [] r q hx hy e =
      absurd (omega (arith, heads b',' b']' _ _ (sym (each_front i x xs (b']' ∷ r)) ∙ e)))
  rest_determined i j (x ∷ xs) (y ∷ ys) r q (hx, hxs) (hy, hys) e =
      let h =
        append_cancel_left (codes ", ") _ _
          (sym (each_front i x xs (b']' ∷ r)) ∙ (e ∙ each_front j y ys (b']' ∷ q))) in
      let (ev, h1) = determined x y _ _ hx hy h in
      let (es, h2) = rest_determined (suc i) (suc j) xs ys r q hxs hys h1 in (cc (ev, es), h2)

  opened :
      (x : A) (xs : List A) (r : Text)
      → write_each write 0 (x ∷ xs) ++ r ≡ b'{' ∷ ((body x ++ write_each write 1 xs) ++ r)
  opened x xs r = ap (λ t. (t ++ write_each write 1 xs) ++ r) (opens x)

  pub each_determined :
      (xs ys : List A) (r q : Text)
      → All P xs
      → All P ys
      → write_each write 0 xs ++ b']' ∷ r ≡ write_each write 0 ys ++ b']' ∷ q
      → (map view xs ≡ map view ys) × (r ≡ q)
  each_determined [] [] r q hx hy e = (refl, cc)
  each_determined [] (y ∷ ys) r q hx hy e =
      absurd (omega (arith, heads b']' b'{' _ _ (e ∙ opened y ys (b']' ∷ q))))
  each_determined (x ∷ xs) [] r q hx hy e =
      absurd (omega (arith, heads b']' b'{' _ _ (sym e ∙ opened x xs (b']' ∷ r))))
  each_determined (x ∷ xs) (y ∷ ys) r q (hx, hxs) (hy, hys) e =
      let h =
        sym (append_assoc (write x) (write_each write 1 xs) (b']' ∷ r))
        ∙ (e ∙ append_assoc (write y) (write_each write 1 ys) (b']' ∷ q)) in
      let (ev, h1) = determined x y _ _ hx hy h in
      let (es, h2) = rest_determined 0 0 xs ys r q hxs hys h1 in (cc (ev, es), h2)

itd_front :
    (d : IndividualTypeDescription) (r : Text)
    → write_itd d ++ r
      ≡ codes "{\"type_name\": "
        ++ (write_json_string d.type_name
            ++ (codes ", \"fields\": ["
                ++ (write_each write_field 0 d.fields ++ (codes "]}" ++ r))))
unfolding write_itd
itd_front d r = simp (append_assoc)

pub itd_opens : (d : IndividualTypeDescription) → write_itd d ≡ b'{' ∷ tail (write_itd d)
unfolding write_itd
itd_opens d = refl

field_opens : (f : Field) → write_field f ≡ b'{' ∷ tail (write_field f)
unfolding write_field
field_opens f = refl

-- What is written for a type determines the type but for default values, and what follows.
pub itd_determined :
    (d e : IndividualTypeDescription) (r q : Text)
    → IsUnicode d
    → IsUnicode e
    → write_itd d ++ r ≡ write_itd e ++ q
    → (strip d ≡ strip e) × (r ≡ q)
itd_determined d e r q (hd, kd) (he, ke) h =
    let h0 =
      append_cancel_left (codes "{\"type_name\": ") _ _
        (sym (itd_front d r) ∙ (h ∙ itd_front e q)) in
    let (en, h1) = json_determined d.type_name e.type_name _ _ hd he h0 in
    let (ef, h2) =
      each_determined write_field (λ f. tail (write_field f)) strip_field _ field_opens
        field_determined d.fields e.fields (b'}' ∷ r) (b'}' ∷ q) kd ke
        (append_cancel_left (codes ", \"fields\": [") _ _ h1) in
    (ground (arith, en, ef), cc)
