-- ===== src/Zenoh/Action/Laws.antt =====
-- A goal between an action client and an action server on Zenoh, and a result request that cannot be
-- read (src/zenoh_backend/action.rs).
use ros2_client.Base.{Bool, List, [], ◌∷◌, map, Option, none, some, ◌≡◌, refl, arith, ◌∙◌, ap}
use ros2_client.Base.Int.{ℤ, pos, IsI64}
use ros2_client.Base.Text.{Text}
use ros2_client.Base.Ordered.{get, insert}
use ros2_client.Base.Results.{Result, ok, err}
use ros2_client.Action.Msgs.{GoalId}
use ros2_client.Zenoh.Wire.{
  Bytes, IsBodyCodec, CdrError, to_cdr, from_cdr, Serializer, IsGid, IsSerializer, AttachmentData,
  from_zbytes,
}
use ros2_client.Zenoh.Wire.Laws.{from_cdr-to_cdr}
use ros2_client.Zenoh.Service.{
  RmwRequestId, Query, Server, accept, send_response, raw_try_receive_request, first_reply,
  request_key, key_of,
}
use ros2_client.Zenoh.Service.Laws.{next_id, attachment_of, accept_sent, call-first_reply}
use ros2_client.Zenoh.Action.{
  SendGoalRequest, Codecs, ActionClient, ActionServer, zero_time, send_goal, try_receive_goal,
  respond_goal, try_receive_result_request, if_ok,
}
use ros2_client.Zenoh.Action.Raw.{raw_try_receive_result_request, goal_of}

module _ (z : Serializer) (Z : Type 0) {E G R F : Type 0} (k : Codecs G R F E) where
  -- A server that takes a goal request and responds to it.
  abbrev pub decide_goal :
      (G → Bool) → ActionServer × Option (RmwRequestId × GoalId × G) → ActionServer
  decide_goal accepts (a, none) = a
  decide_goal accepts (a, some (id, goal_id, goal)) =
      (respond_goal z Z k (λ r. none) (pos 0) id (accepts goal) a).0

  -- The session of that server, before which no goal was sent.
  abbrev pub goal_session :
      (G → Bool) → ActionServer → Text → Bytes → Bytes → Result (List (Option Bytes)) Z
  goal_session accepts a expr payload attachment =
      let q : Query = record {
        key_expr = expr;
        payload = some payload;
        attachment = some attachment;
      } in
      let start : ActionServer = record a {
        send_goal_server = record { pending = []; sent = [] };
      } in
      let a' = decide_goal accepts (try_receive_goal z Z k (some q) start) in
      ok (map (λ r. some r.payload) a'.send_goal_server.sent)

  pub send_goal-respond_goal :
      (accepts : G → Bool) (a : ActionServer) (c : ActionClient) (expr : Text) (now : ℤ)
      (goal_id : GoalId) (goal : G) (payload reply : Bytes)
      → IsSerializer z
      → IsBodyCodec k.send_goal_request
      → IsBodyCodec k.send_goal_response
      → IsI64 now
      → IsGid c.send_goal_client.client_gid
      → to_cdr k.send_goal_request (record { goal_id = goal_id; goal = goal }) ≡ ok payload
      → to_cdr k.send_goal_response (record { accepted = accepts goal; stamp = zero_time })
        ≡ ok reply
      → (send_goal z Z k (goal_session accepts a expr) now goal_id goal c).1
        ≡ ok (goal_id, accepts goal)
  unfolding send_goal try_receive_goal respond_goal send_response get insert first_reply
  send_goal-respond_goal accepts a c expr now goal_id goal payload reply wire rq rs stamp gid p e =
      let request : SendGoalRequest G = record { goal_id = goal_id; goal = goal } in
      let cl = c.send_goal_client in
      let start : Server = record { pending = []; sent = [] } in
      let replies : goal_session accepts a expr payload (attachment_of z now (next_id cl))
          ≡ ok (some reply ∷ []) =
        rw
          (accept_sent z {Z = Z} wire (from_cdr k.send_goal_request) expr now cl payload request
            start stamp gid (from_cdr-to_cdr k.send_goal_request request payload rq p))
          (ground (arith, e, request_key.eq_iff (key_of (next_id cl)) (key_of (next_id cl)))) in
      rw
        (call-first_reply z wire k.send_goal_request k.send_goal_response
          (goal_session accepts a expr) now request cl payload (some reply ∷ []) p replies)
        (rw
          (from_cdr-to_cdr k.send_goal_response
            (record { accepted = accepts goal; stamp = zero_time }) reply rs e)
          refl)

  goal_of_err :
      (id : RmwRequestId) (payload : Bytes) (x : CdrError E)
      → from_cdr k.get_result_request payload ≡ err x
      → goal_of z Z k (some (id, payload)) ≡ none
  goal_of_err id payload x bad = rw (bad, goal_of) refl

  -- A result request that cannot be decoded: neither server hands it to the application. The typed
  -- server drops its query, but the raw server keeps the query pending under an id that the application
  -- never learns.
  pub undecodable_result_request :
      (a : ActionServer) (expr : Text) (payload zbytes : Bytes) (read : AttachmentData)
      (x : CdrError E)
      → from_cdr k.get_result_request payload ≡ err x
      → from_zbytes z zbytes ≡ some read
      → let q : Query = record {
        key_expr = expr;
        payload = some payload;
        attachment = some zbytes;
      } in
        let s = a.get_result_server in
        let id : RmwRequestId = record {
          writer_gid = read.source_gid;
          sequence_number = read.sequence_number;
        } in
        (try_receive_result_request z Z k (some q) a ≡ (a, none))
        × (raw_try_receive_result_request z Z k (some q) a ≡ (
          record a { get_result_server = record s { pending = insert (key_of id) q s.pending } },
          none,
        ))
  unfolding try_receive_result_request raw_try_receive_result_request accept
  undecodable_result_request a expr payload zbytes read x bad good =
      let q : Query = record {
        key_expr = expr;
        payload = some payload;
        attachment = some zbytes;
      } in
      let id : RmwRequestId = record {
        writer_gid = read.source_gid;
        sequence_number = read.sequence_number;
      } in
      let s' : Server = record a.get_result_server {
        pending = insert (key_of id) q a.get_result_server.pending;
      } in
      let kept : raw_try_receive_request z {E = E} {Z = Z} (some q) a.get_result_server
          ≡ (s', ok (some (id, payload))) =
        rw good refl in
      (
        rw bad refl,
        ap
              (λ p. (
                record a { get_result_server = p.0 },
                goal_of z Z k (if_ok (λ request. request) p.1),
              ))
              kept
            ∙ ap (λ r. (record a { get_result_server = s' }, r)) (goal_of_err id payload x bad),
      )
