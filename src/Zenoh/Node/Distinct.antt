-- ===== src/Zenoh/Node/Distinct.antt =====
-- The tokens of a node are all different (src/zenoh_backend/node.rs).
use ros2_client.Base.{
  ℕ, ◌+◌, ◌%◌, ◌^◌, ◌≤◌, ◌<◌, List, [], ◌∷◌, Option, none, some, All, Option-cases, inl, inr, ◌≡◌,
  ◌≢◌, refl, arith, sym, ◌∙◌, ap,
}
use ros2_client.Base.Text.{Text, codes, Lacks}
use ros2_client.Base.Decimal.{to_string}
use ros2_client.Base.Results.{Result, ok, err}
use ros2_client.Zenoh.KeyExpr.{EntityKind, node}
use ros2_client.Zenoh.Qos.{QosProfile, encode_qos}
use ros2_client.Zenoh.Node.{
  Declaration, publisher_on, subscriber_on, queryable_on, token_of, Node, Creates, then_on, ◌>>=◌,
  pure, reads, lift, declare, declare_liveliness, new_entity, liveliness_key, entity_ids,
}
use ros2_client.Zenoh.Node.Keys.{
  id_part, code_part, entity_parts, code_of-ne-node, to_string_injective,
}

-- The ids of the tokens, newest first, fall from below a bound, and no token is a node's.
abbrev pub AreFresh : ℕ → List Declaration → Type 0
AreFresh k [] = Unit
AreFresh k (token_of key ∷ ds) =
    (i : ℕ) × (i < k)
    × (id_part key ≡ some (to_string i))
    × (code_part key ≢ some (codes "NN"))
    × AreFresh i ds
AreFresh k (publisher_on key ∷ ds) = AreFresh k ds
AreFresh k (subscriber_on key ∷ ds) = AreFresh k ds
AreFresh k (queryable_on key ∷ ds) = AreFresh k ds

AreFresh-mono : (k k' : ℕ) (ds : List Declaration) → k ≤ k' → AreFresh k ds → AreFresh k' ds
AreFresh-mono k k' [] h f = tt
AreFresh-mono k k' (token_of key ∷ ds) h (i, l, e, c, f) = (i, omega arith, e, c, f)
AreFresh-mono k k' (publisher_on key ∷ ds) h f = AreFresh-mono k k' ds h f
AreFresh-mono k k' (subscriber_on key ∷ ds) h f = AreFresh-mono k k' ds h f
AreFresh-mono k k' (queryable_on key ∷ ds) h f = AreFresh-mono k k' ds h f

pub record IsGood (n : Node) : Type 0 where
  pub zid_plain : Lacks b'/' n.zid
  pub fresh : AreFresh n.next_entity_id n.declared

-- What a call that makes at most `c` entities may do to a node.
pub record Grows (c : ℕ) (n r : Node) : Type 0 where
  pub within : r.next_entity_id ≤ n.next_entity_id + c
  pub good : IsGood r
  pub token_kept : r.node_token ≡ n.node_token

-- A method that makes at most `c` entities, while the ids last.
pub record Makes (c : ℕ) {Z A : Type 0} (m : Creates Z A) : Type 0 where
  pub grows : (n : Node) → n.next_entity_id + c < 2 ^ 64 → IsGood n → Grows c n (m n).0

module _ {Z A : Type 0} where
  pub reads-Makes : (f : Node → A) → Makes 0 {Z = Z} (reads f)
  reads-Makes f = record {
    grows = λ n l g. record { within = omega arith; good = g; token_kept = refl };
  }

  pub pure-Makes : (a : A) → Makes 0 {Z = Z} (pure a)
  pure-Makes a = reads-Makes (λ n. a)

  pub lift-Makes : (r : Result A Z) → Makes 0 (lift r)
  lift-Makes r = record {
    grows = λ n l g. record { within = omega arith; good = g; token_kept = refl };
  }

Grows-trans : (c d : ℕ) (n m r : Node) → Grows c n m → Grows d m r → Grows (c + d) n r
Grows-trans c d n m r g h = record {
  within = omega (arith, g.within, h.within);
  good = h.good;
  token_kept = h.token_kept ∙ g.token_kept;
}

Grows-mono : (c d : ℕ) (n r : Node) → c ≤ d → Grows c n r → Grows d n r
Grows-mono c d n r l g = record {
  within = omega (arith, g.within);
  good = g.good;
  token_kept = g.token_kept;
}

module _ {Z A B : Type 0} where
  then_on-Grows :
      (c d : ℕ) (f : A → Creates Z B) (n : Node) (p : Node × Result A Z)
      → n.next_entity_id + (c + d) < 2 ^ 64
      → Grows c n p.0
      → ((a : A) → Makes d (f a))
      → Grows (c + d) n (then_on f p).0
  then_on-Grows c d f n (m, ok a) l g h =
      Grows-trans c d n m (f a m).0 g ((h a).grows m (omega (arith, g.within)) g.good)
  then_on-Grows c d f n (m, err e) l g h = Grows-mono c (c + d) n m (omega arith) g

  pub then-Makes :
      (c d : ℕ) (m : Creates Z A) (f : A → Creates Z B)
      → Makes c m
      → ((a : A) → Makes d (f a))
      → Makes (c + d) (m >>= f)
  unfolding ◌>>=◌
  then-Makes c d m f h k = record {
    grows = λ n l g. then_on-Grows c d f n (m n) l (h.grows n (omega arith) g) k;
  }

module _ {Z : Type 0} (fails : Declaration → Option Z) where
  declare_lem :
      (d : Declaration)
      → ((k : ℕ) (ds : List Declaration) → AreFresh k ds → AreFresh k (d ∷ ds))
      → Makes 0 (declare fails d)
  unfolding declare
  declare_lem d other = record {
    grows = λ n l g. elim (Option-cases (fails d)) [
      | inl e ↦
          rw (e, declare)
            (record {
              within = omega arith;
              good = record {
                zid_plain = g.zid_plain;
                fresh = other n.next_entity_id n.declared g.fresh;
              };
              token_kept = refl;
            })
      | inr (x, e) ↦ rw (e, declare) (record { within = omega arith; good = g; token_kept = refl })
    ];
  }

  pub publisher_on-Makes : (key : Text) → Makes 0 (declare fails (publisher_on key))
  publisher_on-Makes key = declare_lem (publisher_on key) (λ k ds f. f)

  pub subscriber_on-Makes : (key : Text) → Makes 0 (declare fails (subscriber_on key))
  subscriber_on-Makes key = declare_lem (subscriber_on key) (λ k ds f. f)

  pub queryable_on-Makes : (key : Text) → Makes 0 (declare fails (queryable_on key))
  queryable_on-Makes key = declare_lem (queryable_on key) (λ k ds f. f)

  token-Grows :
      (n : Node) (key : Text)
      → n.next_entity_id + 1 < 2 ^ 64
      → IsGood n
      → id_part key ≡ some (to_string n.next_entity_id)
      → code_part key ≢ some (codes "NN")
      → Grows 1 n (
          declare_liveliness fails key
            (record n { next_entity_id = (n.next_entity_id + 1) % 2 ^ 64 }))
  unfolding declare_liveliness
  token-Grows n key l g e c =
      let small : (n.next_entity_id + 1) % 2 ^ 64 ≡ n.next_entity_id + 1 = omega arith in
      elim (Option-cases (fails (token_of key))) [
        | inl h ↦
            rw (h, declare_liveliness, small)
              (record {
                within = omega arith;
                good = record {
                  zid_plain = g.zid_plain;
                  fresh = (n.next_entity_id, omega arith, e, c, g.fresh);
                };
                token_kept = refl;
              })
        | inr (x, h) ↦
            rw (h, declare_liveliness, small)
              (record {
                within = omega arith;
                good = record {
                  zid_plain = g.zid_plain;
                  fresh =
                      AreFresh-mono n.next_entity_id (n.next_entity_id + 1) n.declared (omega arith)
                        g.fresh;
                };
                token_kept = refl;
              })
      ]

  pub new_entity-Makes :
      (kind : EntityKind) (fqn dds_type hash : Text) (qos : QosProfile)
      → kind ≢ node
      → Makes 1 (new_entity fails kind fqn dds_type hash qos)
  unfolding new_entity liveliness_key
  new_entity-Makes kind fqn dds_type hash qos h = record {
    grows = λ n l g.
        let parts =
          entity_parts n.domain_id (entity_ids n.next_entity_id n) kind fqn dds_type hash
            (encode_qos qos) g.zid_plain in
        token-Grows n _ l g parts.0 (λ e. code_of-ne-node kind h (sym parts.1 ∙ e));
  }

-- Each is different from all behind it.
abbrev pub AllDistinct : List Text → Type 0
AllDistinct [] = Unit
AllDistinct (t ∷ ts) = All (λ u. t ≢ u) ts × AllDistinct ts

abbrev pub tokens : List Declaration → List Text
tokens [] = []
tokens (token_of key ∷ ds) = key ∷ tokens ds
tokens (publisher_on key ∷ ds) = tokens ds
tokens (subscriber_on key ∷ ds) = tokens ds
tokens (queryable_on key ∷ ds) = tokens ds

-- The tokens of a node: those of its entities, and its own.
abbrev pub all_tokens : Option Text → List Text → List Text
all_tokens none ts = ts
all_tokens (some t) ts = t ∷ ts

fresh_others :
    (k : ℕ) (key : Text) (ds : List Declaration)
    → id_part key ≡ some (to_string k)
    → (j : ℕ) → j ≤ k
    → AreFresh j ds
    → All (λ u. key ≢ u) (tokens ds)
fresh_others k key [] e j l f = tt
fresh_others k key (token_of u ∷ ds) e j l (i, li, ei, c, f) = (
  λ same. absurd (
      let texts : ◌≡◌ {A = Option Text} (some (to_string k)) (some (to_string i)) =
        sym e ∙ (ap id_part same ∙ ei) in
      let numbers : to_string k ≡ to_string i = cc in
      omega (arith, to_string_injective k i numbers)),
  fresh_others k key ds e i (omega arith) f,
)
fresh_others k key (publisher_on u ∷ ds) e j l f = fresh_others k key ds e j l f
fresh_others k key (subscriber_on u ∷ ds) e j l f = fresh_others k key ds e j l f
fresh_others k key (queryable_on u ∷ ds) e j l f = fresh_others k key ds e j l f

pub AreFresh-AllDistinct : (k : ℕ) (ds : List Declaration) → AreFresh k ds → AllDistinct (tokens ds)
AreFresh-AllDistinct k [] f = tt
AreFresh-AllDistinct k (token_of key ∷ ds) (i, l, e, c, f) =
    (fresh_others i key ds e i (omega arith) f, AreFresh-AllDistinct i ds f)
AreFresh-AllDistinct k (publisher_on key ∷ ds) f = AreFresh-AllDistinct k ds f
AreFresh-AllDistinct k (subscriber_on key ∷ ds) f = AreFresh-AllDistinct k ds f
AreFresh-AllDistinct k (queryable_on key ∷ ds) f = AreFresh-AllDistinct k ds f

pub fresh_no_node :
    (t : Text) (k : ℕ) (ds : List Declaration)
    → code_part t ≡ some (codes "NN")
    → AreFresh k ds
    → All (λ u. t ≢ u) (tokens ds)
fresh_no_node t k [] h f = tt
fresh_no_node t k (token_of key ∷ ds) h (i, l, e, c, f) =
    (λ same. c (sym (ap code_part same) ∙ h), fresh_no_node t i ds h f)
fresh_no_node t k (publisher_on key ∷ ds) h f = fresh_no_node t k ds h f
fresh_no_node t k (subscriber_on key ∷ ds) h f = fresh_no_node t k ds h f
fresh_no_node t k (queryable_on key ∷ ds) h f = fresh_no_node t k ds h f
