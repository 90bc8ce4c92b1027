-- ===== src/Zenoh/Service/Pending.antt =====
-- The pending queries of a service server on Zenoh (src/zenoh_backend/service.rs): which request a
-- response answers, and how often.
use ros2_client.Base.{
  ℕ, suc, ◌+◌, ◌≤◌, ◌<◌, List, [], ◌∷◌, ◌++◌, Option, none, some, ◌≡◌, ◌≢◌, refl, arith, sym, ◌∙◌,
  ap, ◌↔◌, if◌then◌else◌, length, All, Option-cases, inl, inr,
}
use ros2_client.Base.Int.{ℤ}
use ros2_client.Base.Ordered.{Map, get, insert, remove, get-remove}
use ros2_client.Base.Results.{Result, ok, err, Result-cases}
use ros2_client.Zenoh.Wire.{Bytes, CdrError, Serializer, IsGid}
use ros2_client.Zenoh.Service.{
  RmwRequestId, unknown_request, Query, ReqKey, request_key, gid_key, key_of, Reply, Server, accept,
  send_response, read_query, reply, deliver,
}

same_gid :
    (a b : Bytes)
    → length a ≡ length b
    → All (λ x. x < 256) a
    → All (λ x. x < 256) b
    → gid_key a ≡ gid_key b
    → a ≡ b
same_gid [] [] l ha hb e = refl
same_gid [] (y ∷ b) l ha hb e = absurd (omega arith)
same_gid (x ∷ a) [] l ha hb e = absurd (omega arith)
same_gid (x ∷ a) (y ∷ b) l ha hb e =
    let head : x ≡ y = omega (arith, ha.0, hb.0, e) in
    let tail : a ≡ b = same_gid a b (omega arith) ha.1 hb.1 (omega (arith, ha.0, hb.0, e)) in
    rw (head, tail) refl

-- Two ids with group ids of 16 bytes share an entry of the table only if they are the same id.
pub key_of_iff :
    (i j : RmwRequestId) → IsGid i.writer_gid → IsGid j.writer_gid → (key_of i ≡ key_of j) ↔ (i ≡ j)
key_of_iff i j (li, bi) (lj, bj) = (
  λ e.
      let gid : i.writer_gid ≡ j.writer_gid =
        same_gid i.writer_gid j.writer_gid (li ∙ sym lj) bi bj (ap (λ k. k.0) e) in
      let seq : i.sequence_number ≡ j.sequence_number = ap (λ k. k.1) e in
      λ t. record { writer_gid = gid t; sequence_number = seq t },
  ap key_of,
)

-- What happens to a server: a query arrives, or the application responds.
pub data Op (E Z : Type 0) : Type 0 where
  receives : Query → Op E Z
  responds : (Reply → Option Z) → ℤ → RmwRequestId → Result Bytes (CdrError E) → Op E Z

abbrev pub received : {E Z : Type 0} → List (Op E Z) → ℕ
received [] = 0
received (receives q ∷ ops) = suc (received ops)
received (responds fails now id encoded ∷ ops) = received ops

length-insert :
    (k : ReqKey) (q : Query) (m : Map ReqKey Query) → length (insert k q m) ≤ suc (length m)
unfolding insert
length-insert k q [] = omega arith
length-insert k q ((j, r) ∷ m) = ground (arith, length-insert k q m)

length-remove_le : (k : ReqKey) (m : Map ReqKey Query) → length (remove k m) ≤ length m
unfolding remove
length-remove_le k [] = omega arith
length-remove_le k ((j, r) ∷ m) = ground (arith, length-remove_le k m)

length-remove :
    (k : ReqKey) (q : Query) (m : Map ReqKey Query)
    → get k m ≡ some q
    → suc (length (remove k m)) ≤ length m
unfolding get remove
length-remove k q [] h = cc
length-remove k q ((j, r) ∷ m) h = ground (arith, length-remove k q m, length-remove_le k m, h)

length-snoc : {A : Type 0} (xs : List A) (x : A) → length (xs ++ x ∷ []) ≡ suc (length xs)
length-snoc [] x = refl
length-snoc (y ∷ xs) x = ap suc (length-snoc xs x)

module _ (z : Serializer) (E : Type 0) {Z : Type 0} where
  deliver_keeps :
      (fails : Reply → Option Z) (r : Reply) (s : Server)
      → let s' = (deliver z {E = E} fails r s).0 in
        (s'.pending ≡ s.pending) × (length s'.sent ≤ suc (length s.sent))
  deliver_keeps fails r s = elim (Option-cases (fails r)) [
    | inl e ↦ rw (e, deliver) (refl, omega (arith, length-snoc s.sent r))
    | inr (x, e) ↦ rw (e, deliver) (refl, omega arith)
  ]

module _ (z : Serializer) {E Z : Type 0} where
  reply_keeps :
      (fails : Reply → Option Z) (now : ℤ) (id : RmwRequestId) (q : Query)
      (encoded : Result Bytes (CdrError E)) (s : Server)
      → let s' = (reply z fails now id q encoded s).0 in
        (s'.pending ≡ s.pending) × (length s'.sent ≤ suc (length s.sent))
  reply_keeps fails now id q (err e) s = (refl, omega arith)
  reply_keeps fails now id q (ok payload) s = deliver_keeps z E fails _ s

  module _ (fails : Reply → Option Z) (now : ℤ) (id : RmwRequestId)
      (encoded : Result Bytes (CdrError E)) (s : Server) where
    send_unknown :
        get (key_of id) s.pending ≡ none
        → send_response z fails now id encoded s ≡ (s, err unknown_request)
    unfolding send_response
    send_unknown e = rw (e, send_response) refl

    send_known :
        (q : Query)
        → get (key_of id) s.pending ≡ some q
        → send_response z fails now id encoded s
          ≡ reply z fails now id q encoded (record s { pending = remove (key_of id) s.pending })
    unfolding send_response
    send_known q e = rw (e, send_response) refl

    -- A response is tried: the query is out of the table, and nothing else of the table has changed.
    pending-send_response :
        (k : ReqKey)
        → get k (send_response z fails now id encoded s).0.pending
          ≡ (if request_key.eq (key_of id) k then none else get k s.pending)
    pending-send_response k = elim (Option-cases (get (key_of id) s.pending)) [
      | inl e ↦ rw (send_unknown e) (ground (arith, e, request_key.eq_iff (key_of id) k))
      | inr (q, e) ↦
          let left : Server = record s { pending = remove (key_of id) s.pending } in
          rw (send_known q e, (reply_keeps fails now id q encoded left).0)
            (get-remove (key_of id) k s.pending)
    ]

    send_bound :
        let s' = (send_response z fails now id encoded s).0 in
        length s'.sent + length s'.pending ≤ length s.sent + length s.pending
    send_bound = elim (Option-cases (get (key_of id) s.pending)) [
      | inl e ↦ rw (send_unknown e) (omega arith)
      | inr (q, e) ↦
          let left : Server = record s { pending = remove (key_of id) s.pending } in
          let (same, more) = reply_keeps fails now id q encoded left in
          rw (send_known q e, same) (omega (arith, more, length-remove (key_of id) q s.pending e))
    ]

  -- Whatever came of a first response to a request, a second one is refused and changes nothing, and
  -- every other request is pending as before.
  pub send_response_once :
      (fails : Reply → Option Z) (now later : ℤ) (id : RmwRequestId)
      (encoded again : Result Bytes (CdrError E)) (s : Server)
      → let s' = (send_response z fails now id encoded s).0 in
        (send_response z fails later id again s' ≡ (s', err unknown_request))
        × ((j : RmwRequestId)
            → IsGid id.writer_gid
            → IsGid j.writer_gid
            → j ≢ id
            → get (key_of j) s'.pending ≡ get (key_of j) s.pending)
  send_response_once fails now later id encoded again s =
      let left = pending-send_response fails now id encoded s in
      let s' = (send_response z fails now id encoded s).0 in
      let gone : get (key_of id) s'.pending ≡ none =
        left (key_of id) ∙ ground (arith, request_key.eq_iff (key_of id) (key_of id)) in
      (
        send_unknown fails later id again s' gone,
        λ j gi gj other.
            left (key_of j)
            ∙ ground
                (arith, request_key.eq_iff (key_of id) (key_of j), key_of_iff id j gi gj, other),
      )

module _ (z : Serializer) {E : Type 0} (Z : Type 0) {R : Type 0}
    (decode : Bytes → Result R (CdrError E)) where
  abbrev pub step : Server → Op E Z → Server
  step s (receives q) = (accept z {Z = Z} decode q s).0
  step s (responds fails now id encoded) = (send_response z fails now id encoded s).0

  abbrev pub run : Server → List (Op E Z) → Server
  run s [] = s
  run s (op ∷ ops) = run (step s op) ops

  accept_bound :
      (q : Query) (s : Server)
      → let s' = (accept z {Z = Z} decode q s).0 in
        length s'.sent + length s'.pending ≤ suc (length s.sent + length s.pending)
  unfolding accept
  accept_bound q s = elim (Result-cases (read_query z {Z = Z} decode q)) [
    | inl ((a, r), e) ↦ rw e (omega (arith, length-insert _ q s.pending))
    | inr (x, e) ↦ rw e (omega arith)
  ]

  -- Over any history, whatever responses the application tries, the replies sent and the queries
  -- pending are together at most as many as at its start and the queries that came in.
  pub run_bound :
      (s : Server) (ops : List (Op E Z))
      → length (run s ops).sent + length (run s ops).pending
        ≤ length s.sent + length s.pending + received ops
  run_bound s [] = omega arith
  run_bound s (receives q ∷ ops) =
      omega (arith, run_bound (step s (receives q)) ops, accept_bound q s)
  run_bound s (responds fails now id encoded ∷ ops) = omega (
    arith,
    run_bound (step s (responds fails now id encoded)) ops,
    send_bound z fails now id encoded s,
  )
