-- ===== src/Action/RawServer/Laws.antt =====
-- The raw action server (src/action/raw_server.rs) with the typed client (src/action/client.rs).
use ros2_client.Base.{
  ltb, length, Bool, true, List, ◌∷◌, Option, none, some, ◌≡◌, ◌≢◌, refl, false, arith, ap,
}
use ros2_client.Base.Int.{int_eq, int_eq_iff}
use ros2_client.Base.Text.{Text}
use ros2_client.Base.Results.{Result, ok, ◌>>=◌, >>=-assoc}
use ros2_client.Time.Builtin.{Time, repr_from_time}
use ros2_client.Time.Builtin.Laws.{Fits, time_from_repr-repr_from_time}
use ros2_client.Service.Message.{Bytes, SampleIdentity, from_identity, CacheChange, enhanced}
use ros2_client.Service.Wrappers.{cdr_le, Dds, Wrapper, encapsulated, new_raw, enhanced_request_id}
use ros2_client.Service.Wrappers.Laws.{IsCodec, read_written}
use ros2_client.Service.Ends.{increment_sequence_number, WriteWithOptions, id_eq, raw_send_response}
use ros2_client.Service.Ends.Laws.{
  sample, wrapped, id_eq_iff, enhanced_request, read_response_enhanced, raw_exchange,
}
use ros2_client.Action.Msgs.{GoalId}
use ros2_client.Action.Types.{
  Codecs, goal_response, response_to_repr, response_from_repr, through, through-ReadsBack,
}
use ros2_client.Action.Client.{
  ActionClient, send_goal, receive_own, receive_goal_response, request_result,
}
use ros2_client.Action.RawServer.{
  to_standalone_cdr, rep_id, strip_header, receive_goal_request, respond_goal,
  receive_result_request,
}

module _ {E W : Type 0} (d : Dds E W) where
  strip_header-header : (body : Bytes) → strip_header d (0 ∷ 1 ∷ 0 ∷ 0 ∷ body) ≡ ok body
  unfolding strip_header encapsulated
  strip_header-header body =
      let long : ltb (length (encapsulated cdr_le body)) 4 ≡ false = ground arith in rw long refl

  rep_id-header :
      (debug : Option Bytes → Text) (body : Bytes)
      → rep_id d debug (0 ∷ 1 ∷ 0 ∷ 0 ∷ body) ≡ ok cdr_le
  unfolding rep_id encapsulated
  rep_id-header debug body =
      let long : ltb (length (encapsulated cdr_le body)) 2 ≡ false = ground arith in rw long refl

module _ {E W G R : Type 0} (d : Dds E W) (k : Codecs G R E W) (identity : SampleIdentity)
    (a : ActionClient) (goal_id : GoalId) where
  -- In the Enhanced mapping, over encodings of the fields that are read back: the client writes the bytes of
  -- its goal; the raw server gets them as a full message under the request's id; the response that it
  -- writes to that id is what the client then receives, and what is behind it is left. Where the
  -- identity of a request has a known sequence number and the seconds of the stamp fit an i32.
  pub raw_goal_exchange :
      (goal : G) (accepted : Bool) (stamp : Time) (answered : SampleIdentity) (q p : Bytes)
      (rest after : List (Result (CacheChange Wrapper) E))
      → a.my_goal_client.service_mapping ≡ enhanced
      → IsCodec k.goal_request
      → IsCodec k.goal_response_fields
      → Fits stamp.nanos_since_epoch
      → k.goal_request.write cdr_le (record { goal_id = goal_id; goal = goal }) ≡ ok q
      → k.goal_response_fields.write cdr_le
          (record { accepted = accepted; stamp = repr_from_time stamp })
        ≡ ok p
      → identity.sequence_number ≢ d.unknown
      → let id = from_identity identity in
        ((write : WriteWithOptions Wrapper W)
          → send_goal d k write goal_id goal a ≡ (
            record a { my_goal_client = increment_sequence_number a.my_goal_client },
            write (wrapped q) none >>= λ sent. ok (from_identity sent, goal_id),
          ))
        × (receive_goal_request d (ok (sample identity none q) ∷ rest)
            ≡ ok (id, encapsulated cdr_le q))
        × ((write : WriteWithOptions Bytes W)
            → respond_goal d k write id accepted stamp
              ≡ (write p (some identity) >>= λ sent. ok tt))
        × (receive_goal_response d k id a (ok (sample answered (some identity) p) ∷ after)
            ≡ (ok (some (record { accepted = accepted; stamp = stamp })), after))
  unfolding through send_goal respond_goal to_standalone_cdr receive_own raw_send_response new_raw
  raw_goal_exchange goal accepted stamp answered q p rest after mapping law_q law_p fits wq wp
        known =
      let (sent, read) =
        enhanced_request d k.goal_request (goal_response k) a.my_goal_client identity
          (record { goal_id = goal_id; goal = goal }) q mapping (law_q _) wq known in
      let (raw, responded) = raw_exchange {W = W} d identity q p known in
      let back : response_from_repr
            (response_to_repr (record { accepted = accepted; stamp = stamp }))
          ≡ record { accepted = accepted; stamp = stamp } =
        ap (λ t. record { accepted = accepted; stamp = t })
          (time_from_repr-repr_from_time stamp.nanos_since_epoch fits) in
      let stamped =
        through-ReadsBack response_to_repr response_from_repr k.goal_response_fields
          (record { accepted = accepted; stamp = stamp })
          (law_p (record { accepted = accepted; stamp = repr_from_time stamp })) back in
      let answer =
        read_response_enhanced d k.goal_request (goal_response k) a.my_goal_client identity answered
          (record { accepted = accepted; stamp = stamp }) p mapping stamped wp in
      let same : id_eq (from_identity identity) (from_identity identity) ≡ true =
        (id_eq_iff (from_identity identity) (from_identity identity)).1 refl in
      (
        λ write. rw (sent write) (
            ap (λ r. (record a { my_goal_client = increment_sequence_number a.my_goal_client }, r))
              (>>=-assoc (write (wrapped q) none) _ _)),
        raw,
        λ write. rw wp refl,
        rw (answer, same) refl,
      )

  -- In the same mapping, the raw server decodes the id of the goal whose result the client requests.
  pub raw_result_request :
      (debug : Option Bytes → Text) (r : Bytes) (rest : List (Result (CacheChange Wrapper) E))
      → a.my_result_client.service_mapping ≡ enhanced
      → IsCodec k.result_request
      → k.result_request.write cdr_le (record { goal_id = goal_id }) ≡ ok r
      → identity.sequence_number ≢ d.unknown
      → ((write : WriteWithOptions Wrapper W)
          → request_result d k write goal_id a ≡ (
            record a { my_result_client = increment_sequence_number a.my_result_client },
            write (wrapped r) none >>= λ sent. ok (from_identity sent),
          ))
        × (receive_result_request d k debug (ok (sample identity none r) ∷ rest)
            ≡ ok (from_identity identity, goal_id))
  unfolding request_result receive_result_request encapsulated enhanced_request_id
  raw_result_request debug r rest mapping law wr known =
      let (sent, read) =
        enhanced_request d k.result_request k.result_response a.my_result_client identity
          (record { goal_id = goal_id }) r mapping (law _) wr known in
      let here : int_eq identity.sequence_number d.unknown ≡ false =
        ground (arith, int_eq_iff identity.sequence_number d.unknown, known) in
      let stripped = strip_header-header d r in
      let encoded = rep_id-header d debug r in
      (
        λ write. rw (sent write) refl,
        rw (stripped, encoded, read_written k.result_request cdr_le _ r (law _) wr, here) refl,
      )
