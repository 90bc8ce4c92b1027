-- ===== src/Action/RawServer.antt =====
-- src/action/raw_server.rs: the raw action server. Its goal and result services are raw servers, its cancel
-- service is a typed one. The samples of a stream and what a writer does are arguments; so is the text
-- that `{:?}` makes of optional bytes.
pub mod Laws
use ros2_client.Base.{
  ℕ, Bool, true, false, ◌&&◌, ltb, ◌==◌, List, [], ◌∷◌, ◌++◌, Option, none, some, if◌then◌else◌,
  length, take, drop,
}
use ros2_client.Base.Text.{Text, codes}
use ros2_client.Base.Results.{Result, ok, err, ◌>>=◌}
use ros2_client.Time.Builtin.{Time}
use ros2_client.Action.Msgs.{GoalId, GoalInfo, CancelGoalResponse, GoalStatusArray}
use ros2_client.Action.Types.{
  SendGoalResponse, Codecs, goal_response, cancel_request, cancel_response,
}
use ros2_client.Service.Message.{Bytes, RmwRequestId, CacheChange, ServiceMapping}
use ros2_client.Service.Wrappers.{Encoding, cdr_be, cdr_le, Codec, Dds, Wrapper}
use ros2_client.Service.Ends.{
  WriteWithOptions, async_receive_request, send_response, raw_async_receive_request,
  raw_send_response,
}
use ros2_client.PubSub.{RawMessageWrapper, publish, raw_publish}

unfoldable pub to_standalone_cdr : {M E W : Type 0} → Codec M E W → M → Result Bytes W
to_standalone_cdr codec message = codec.write cdr_le message >>= λ body. ok (0 ∷ 1 ∷ 0 ∷ 0 ∷ body)

module _ {E W : Type 0} (d : Dds E W) where
  -- `message.get(0..2)`.
  abbrev get_two : Bytes → Option Bytes
  get_two message = if ltb (length message) 2 then none else some (take 2 message)

  -- The two byte pairs that the `match` of `rep_id` knows.
  abbrev encoding_of : E → Option Bytes → Result Encoding E
  encoding_of unsupported (some (b0 ∷ b1 ∷ [])) =
      if b0 == 0 && b1 == 0
      then ok cdr_be
      else if b0 == 0 && b1 == 1
      then ok cdr_le
      else err unsupported
  encoding_of unsupported _ = err unsupported

  unfoldable pub rep_id : (Option Bytes → Text) → Bytes → Result Encoding E
  rep_id debug message =
      let other = get_two message in
      encoding_of
        (d.deserialization (
          codes "unsupported CDR encapsulation "
          ++ debug other
          ++ codes " in a raw action message"))
        other

  unfoldable pub strip_header : Bytes → Result Bytes E
  strip_header message =
      if ltb (length message) 4
      then err (
          d.deserialization
            (codes "a raw action message shorter than its CDR encapsulation header"))
      else ok (drop 4 message)

  abbrev pub receive_goal_request :
      List (Result (CacheChange Wrapper) E) → Result (RmwRequestId × Bytes) E
  receive_goal_request = raw_async_receive_request d

  module _ {G R : Type 0} (k : Codecs G R E W) where
    unfoldable pub respond_goal :
        WriteWithOptions Bytes W → RmwRequestId → Bool → Time → Result (Unit {0}) W
    respond_goal write_with_options req_id accepted stamp =
        let message : SendGoalResponse = record { accepted = accepted; stamp = stamp } in
        to_standalone_cdr (goal_response k) message >>= λ response.
        raw_send_response write_with_options req_id response

    abbrev pub receive_cancel_request :
        ServiceMapping → List (Result (CacheChange Wrapper) E) → Result (RmwRequestId × GoalInfo) E
    receive_cancel_request mapping stream =
        async_receive_request d (cancel_request k) (cancel_response k) mapping stream
        >>= λ (req_id, request). ok (req_id, request.goal_info)

    abbrev pub respond_cancel :
        WriteWithOptions Wrapper W
        → ServiceMapping
        → RmwRequestId
        → CancelGoalResponse
        → Result (Unit {0}) W
    respond_cancel = send_response d (cancel_request k) (cancel_response k)

    unfoldable pub receive_result_request :
        (Option Bytes → Text)
        → List (Result (CacheChange Wrapper) E)
        → Result (RmwRequestId × GoalId) E
    receive_result_request debug stream = do
      (req_id, bytes) ← raw_async_receive_request d stream
      body ← strip_header bytes
      encoding ← rep_id debug bytes
      (request, consumed) ← k.result_request.read encoding body
      ok (req_id, request.goal_id)

abbrev pub respond_result_raw :
    {W : Type 0} → WriteWithOptions Bytes W → RmwRequestId → Bytes → Result (Unit {0}) W
respond_result_raw = raw_send_response

abbrev pub publish_feedback_raw :
    {W : Type 0} → (RawMessageWrapper → Result (Unit {0}) W) → Bytes → Result (Unit {0}) W
publish_feedback_raw = raw_publish

abbrev pub publish_statuses :
    {W : Type 0} → (GoalStatusArray → Result (Unit {0}) W) → GoalStatusArray → Result (Unit {0}) W
publish_statuses = publish
