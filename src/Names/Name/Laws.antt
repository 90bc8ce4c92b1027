-- ===== src/Names/Name/Laws.antt =====
-- What `Name::new` and `Name::parse` accept (src/names.rs), and that names are read back from their
-- display.
use ros2_client.Base.{
  Bool, true, false, List, [], ◌∷◌, ◌++◌, some, ◌≡◌, ◌≢◌, refl, arith, sym, ap, ◌∙◌, if◌then◌else◌,
  append_assoc, ==_iff, Option-cases, inl, inr,
}
use ros2_client.Base.Text.{Text, ends_with, rsplit_once, rsplit_once-Lacks, rsplit_once-append}
use ros2_client.Names.Chars.{ok, find-all, find-none, is_name_char}
use ros2_client.Names.Name.{
  Name, token_ok, tokens_of, slashed, strip_root, check_tokens, new_name, parse_parts, parse,
  display,
}
use ros2_client.Names.Name.Parts.{
  joined, AllOk, joined-ne-nil, ends_with_behind_slash, token_ok-Lacks, slashed-joined,
  ends_with-joined, rsplit_once_sound, any_empty-AllOk, all-AllOk, all-token_ok-AllOk,
  tokens_of-joined, joined-tokens_of,
}

-- Every part of the name is a token: name characters, no digit first, no two underscores in a row.
pub record IsName (n : Name) : Type 0 where
  pub base_ok : token_ok n.base_name ≡ true
  pub tokens_ok : AllOk n.preceeding_tokens

check_tokens_lem :
    (ts : List Text) (absolute : Bool) (base : Text)
    → AllOk ts
    → check_tokens (joined ts) absolute base
      ≡ ok (record { base_name = base; preceeding_tokens = ts; absolute = absolute })
unfolding check_tokens
check_tokens_lem ts absolute base h =
    rw (tokens_of-joined ts h, any_empty-AllOk ts h, all-AllOk ts h)

check_tokens_sound :
    (rel : Text) (absolute : Bool) (base : Text) (n : Name)
    → check_tokens rel absolute base ≡ ok n
    → (n ≡ record { base_name = base; preceeding_tokens = tokens_of rel; absolute = absolute })
      × AllOk (tokens_of rel)
unfolding check_tokens
check_tokens_sound rel absolute base n h =
    (ground arith, all-token_ok-AllOk (tokens_of rel) (ground arith))

-- The base name's own checks, passed.
new_name_checked :
    (ns base : Text)
    → token_ok base ≡ true
    → new_name ns base ≡ check_tokens (strip_root ns).0 (strip_root ns).1 base
unfolding new_name
new_name_checked ns [] h = cc
new_name_checked ns (c ∷ base) h = ground (arith, find-all is_name_char (c ∷ base))

-- The namespace that a name is made of.
abbrev pub namespace_of : Name → Text
namespace_of n = (if n.absolute then b'/' ∷ [] else []) ++ joined n.preceeding_tokens

strip_root-joined : (ts : List Text) → AllOk ts → strip_root (joined ts) ≡ (joined ts, false)
strip_root-joined [] h = refl
strip_root-joined ([] ∷ ts) (h, _) = cc
strip_root-joined ((c ∷ t) ∷ []) (h, _) = ground arith
strip_root-joined ((c ∷ t) ∷ u ∷ ts) (h, _) = ground arith

new_name_lem :
    (base : Text) (ts : List Text) (absolute : Bool)
    → token_ok base ≡ true
    → AllOk ts
    → new_name ((if absolute then b'/' ∷ [] else []) ++ joined ts) base
      ≡ ok (record { base_name = base; preceeding_tokens = ts; absolute = absolute })
new_name_lem base ts true b h = new_name_checked _ base b ∙ check_tokens_lem ts true base h
new_name_lem base ts false b h =
    new_name_checked _ base b ∙ rw (strip_root-joined ts h) (check_tokens_lem ts false base h)

new_name-token_ok : (ns base : Text) (n : Name) → new_name ns base ≡ ok n → token_ok base ≡ true
unfolding new_name
new_name-token_ok ns [] n h = cc
new_name-token_ok ns (c ∷ base) n h = ground (arith, find-none is_name_char (c ∷ base))

strip_root_lem :
    (ns : Text) → (if (strip_root ns).1 then b'/' ∷ [] else []) ++ (strip_root ns).0 ≡ ns
strip_root_lem [] = refl
strip_root_lem (c ∷ s) = ground (arith, ==_iff c b'/')

new_name_sound :
    (ns base : Text) (n : Name)
    → new_name ns base ≡ ok n
    → IsName n × (n.base_name ≡ base) × (namespace_of n ≡ ns)
new_name_sound ns base n h =
    let base_fine = new_name-token_ok ns base n h in
    let (e, tokens_fine) =
      check_tokens_sound (strip_root ns).0 (strip_root ns).1 base n
        (sym (new_name_checked ns base base_fine) ∙ h) in
    rw e (
      record { base_ok = base_fine; tokens_ok = tokens_fine },
      refl,
      rw (joined-tokens_of (strip_root ns).0) (strip_root_lem ns),
    )

parse_parts_lem :
    (before base : Text)
    → before ≢ []
    → ends_with b'/' before ≡ false
    → base ≢ []
    → parse_parts before base ≡ new_name before base
unfolding parse_parts
parse_parts_lem [] base ne e nb = absurd (ne refl)
parse_parts_lem (c ∷ before) [] ne e nb = absurd (nb refl)
parse_parts_lem (c ∷ before) (d ∷ base) ne e nb = rw e

token_ok-ne-nil : (t : Text) → token_ok t ≡ true → t ≢ []
token_ok-ne-nil [] h e = cc
token_ok-ne-nil (c ∷ t) h e = cc

parse_at : (s p b : Text) → rsplit_once b'/' s ≡ some (p, b) → parse s ≡ parse_parts p b
unfolding parse
parse_at s p b h = rw (h, parse)

-- The display of a name with tokens, cut at its last slash.
display_deep :
    (root base t : Text) (ts : List Text)
    → root ++ slashed (t ∷ ts) ++ base ≡ (root ++ joined (t ∷ ts)) ++ b'/' ∷ base
display_deep root base t ts = rw (slashed-joined t ts) (simp append_assoc)

parse_deep :
    (root base t : Text) (ts : List Text)
    → root ++ joined (t ∷ ts) ≢ []
    → ends_with b'/' (root ++ joined (t ∷ ts)) ≡ false
    → token_ok base ≡ true
    → parse (root ++ slashed (t ∷ ts) ++ base) ≡ new_name (root ++ joined (t ∷ ts)) base
parse_deep root base t ts ne plain b =
    let before = root ++ joined (t ∷ ts) in
    rw (display_deep root base t ts) (
      parse_at _ before base (rsplit_once-append b'/' before base (token_ok-Lacks base b))
      ∙ parse_parts_lem before base ne plain (token_ok-ne-nil base b))

parse_fields :
    (base : Text) (ts : List Text) (absolute : Bool)
    → token_ok base ≡ true
    → AllOk ts
    → parse ((if absolute then b'/' ∷ [] else []) ++ slashed ts ++ base)
      ≡ ok (record { base_name = base; preceeding_tokens = ts; absolute = absolute })
unfolding parse parse_parts
parse_fields base [] false b h =
    rw (rsplit_once-Lacks b'/' base (token_ok-Lacks base b), parse) (new_name_lem base [] false b h)
parse_fields [] [] true b h = cc
parse_fields (d ∷ base) [] true b h =
    rw (rsplit_once-append b'/' [] (d ∷ base) (token_ok-Lacks (d ∷ base) b), parse)
      (new_name_lem (d ∷ base) [] true b h)
parse_fields base (t ∷ ts) false b h =
    parse_deep [] base t ts (joined-ne-nil t ts h) (ends_with-joined t ts h) b
    ∙ new_name_lem base (t ∷ ts) false b h
parse_fields base (t ∷ ts) true b h =
    parse_deep (b'/' ∷ []) base t ts (λ e. cc)
      (ends_with_behind_slash (joined (t ∷ ts)) (ends_with-joined t ts h) (joined-ne-nil t ts h)) b
    ∙ new_name_lem base (t ∷ ts) true b h

-- A well-formed name is read back from its display.
pub parse-display : (n : Name) → IsName n → parse (display n) ≡ ok n
unfolding display
parse-display n v = parse_fields n.base_name n.preceeding_tokens n.absolute v.base_ok v.tokens_ok

-- The display of a name, from its namespace and its base name.
display_flat :
    (base : Text) (ts : List Text) (absolute : Bool)
    → AllOk ts
    → (if absolute then b'/' ∷ [] else []) ++ joined ts ≡ []
    → (if absolute then b'/' ∷ [] else []) ++ slashed ts ++ base ≡ base
display_flat base [] false h e = refl
display_flat base [] true h e = cc
display_flat base (t ∷ ts) false h e = absurd (joined-ne-nil t ts h e)
display_flat base (t ∷ ts) true h e = cc

display_root :
    (base : Text) (ts : List Text) (absolute : Bool)
    → AllOk ts
    → (if absolute then b'/' ∷ [] else []) ++ joined ts ≡ b'/' ∷ []
    → (if absolute then b'/' ∷ [] else []) ++ slashed ts ++ base ≡ b'/' ∷ base
display_root base [] true h e = refl
display_root base [] false h e = cc
display_root base (t ∷ ts) false h e = cc (ends_with-joined t ts h)
display_root base (t ∷ ts) true h e = absurd (joined-ne-nil t ts h (ground arith))

display_namespace :
    (ns base : Text) (ts : List Text) (absolute : Bool)
    → AllOk ts
    → (if absolute then b'/' ∷ [] else []) ++ joined ts ≡ ns
    → ns ≢ []
    → ends_with b'/' ns ≡ false
    → (if absolute then b'/' ∷ [] else []) ++ slashed ts ++ base ≡ ns ++ b'/' ∷ base
display_namespace ns base [] true h e ne plain = cc (ap (ends_with b'/') e)
display_namespace ns base [] false h e ne plain = absurd (ne (sym e))
display_namespace ns base (t ∷ ts) absolute h e ne plain =
    display_deep (if absolute then b'/' ∷ [] else []) base t ts ∙ ap (λ x. x ++ b'/' ∷ base) e

parse_parts_sound :
    (before base : Text) (n : Name)
    → parse_parts before base ≡ ok n
    → IsName n × (display n ≡ before ++ b'/' ∷ base)
unfolding parse_parts display
parse_parts_sound [] [] n h = cc
parse_parts_sound (c ∷ before) [] n h = cc
parse_parts_sound [] (d ∷ base) n h =
    let (v, eb, en) = new_name_sound (b'/' ∷ []) (d ∷ base) n h in
    (
      v,
      display_root n.base_name n.preceeding_tokens n.absolute v.tokens_ok en
          ∙ ap (λ x. b'/' ∷ x) eb,
    )
parse_parts_sound (c ∷ before) (d ∷ base) n h =
    let plain : ends_with b'/' (c ∷ before) ≡ false = ground arith in
    let (v, eb, en) = new_name_sound (c ∷ before) (d ∷ base) n (ground arith) in
    (
      v,
      display_namespace (c ∷ before) n.base_name n.preceeding_tokens n.absolute v.tokens_ok en
            (λ e. cc) plain
          ∙ ap (λ x. (c ∷ before) ++ b'/' ∷ x) eb,
    )

-- A text that parses is the display of the name that it parses to, and that name is well formed: the
-- parser accepts no other texts than the displays of the well-formed names.
pub display-parse : (s : Text) (n : Name) → parse s ≡ ok n → IsName n × (display n ≡ s)
unfolding parse display
display-parse s n h = elim (Option-cases (rsplit_once b'/' s)) [
  | inl e ↦
      let plain : new_name [] s ≡ ok n = ground arith in
      let (v, eb, en) = new_name_sound [] s n plain in
      (v, display_flat n.base_name n.preceeding_tokens n.absolute v.tokens_ok en ∙ eb)
  | inr (parts, e) ↦
      let (v, d) = parse_parts_sound parts.0 parts.1 n (ground arith) in
      (v, d ∙ sym (rsplit_once_sound b'/' s parts.0 parts.1 e))
]
