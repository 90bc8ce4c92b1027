-- ===== src/Zenoh/Action/Tests.antt =====
-- The theorems on actions and topics on Zenoh at actions whose goals are numbers, with the codecs of
-- the services' tests.
use ros2_client.Base.{
  ℕ, zero, suc, sym, Bool, true, false, List, [], ◌∷◌, map, Option, none, some, ◌≡◌, refl, arith,
  ltb,
}
use ros2_client.Base.Int.{ℤ, pos, negsuc, ◌+ℤ◌, wrap_i64}
use ros2_client.Base.Text.{codes}
use ros2_client.Base.Results.{Result, ok, err, ok_injective}
use ros2_client.Time.Builtin.{time_from_nanos, time_to_nanos}
use ros2_client.Zenoh.Wire.{Bytes, BodyCodec, IsBodyCodec, to_cdr}
use ros2_client.Zenoh.Service.{Query, new_client, RmwRequestId, request_key}
use ros2_client.Zenoh.Service.Tests.{
  read_int, write_int, serializer, serializer-IsSerializer, gid, gid-IsGid, number,
  number-IsBodyCodec,
}
use ros2_client.Zenoh.PubSub.{new_publisher, decode}
use ros2_client.Zenoh.PubSub.Laws.{publish_all, decode-publish_all}
use ros2_client.Zenoh.Action.{
  SendGoalRequest, SendGoalResponse, Codecs, ActionClient, ActionServer, send_goal,
}
use ros2_client.Zenoh.Action.Laws.{goal_session, send_goal-respond_goal}

abbrev no_codec : {M : Type 0} → BodyCodec M (Unit {0})
no_codec = record { to_vec = λ m. err tt; from_bytes_le = λ b. err tt; from_bytes_be = λ b. err tt }

abbrev goal_of_bytes : Bytes → Result (SendGoalRequest ℕ × ℕ) (Unit {0})
goal_of_bytes (i ∷ g ∷ rest) = ok (record { goal_id = i; goal = g }, 2)
goal_of_bytes _ = err tt

abbrev goal_codec : BodyCodec (SendGoalRequest ℕ) (Unit {0})
goal_codec = record {
  to_vec = λ r. ok (r.goal_id ∷ r.goal ∷ []);
  from_bytes_le = goal_of_bytes;
  from_bytes_be = goal_of_bytes;
}

goal_codec-IsBodyCodec : IsBodyCodec goal_codec
goal_codec-IsBodyCodec m body h = (2, rw (sym (ok_injective h)) refl)

abbrev flag : Bool → ℕ
flag false = 0
flag true = 1

abbrev stamped : Bool → Option (ℤ × Bytes) → Result (SendGoalResponse × ℕ) (Unit {0})
stamped b none = err tt
stamped b (some (t, rest)) = ok (record { accepted = b; stamp = time_from_nanos t }, 3)

abbrev response_of_bytes : Bytes → Result (SendGoalResponse × ℕ) (Unit {0})
response_of_bytes [] = err tt
response_of_bytes (zero ∷ rest) = stamped false (read_int rest)
response_of_bytes (suc n ∷ rest) = stamped true (read_int rest)

abbrev response_codec : BodyCodec SendGoalResponse (Unit {0})
response_codec = record {
  to_vec = λ r. ok (flag r.accepted ∷ write_int (time_to_nanos r.stamp));
  from_bytes_le = response_of_bytes;
  from_bytes_be = response_of_bytes;
}

response_read :
    (b : Bool) (t : ℤ)
    → response_of_bytes (flag b ∷ write_int t)
      ≡ ok (record { accepted = b; stamp = time_from_nanos t }, 3)
response_read false (pos n) = refl
response_read false (negsuc n) = refl
response_read true (pos n) = refl
response_read true (negsuc n) = refl

response_codec-IsBodyCodec : IsBodyCodec response_codec
response_codec-IsBodyCodec m body h =
    (3, rw (sym (ok_injective h)) (response_read m.accepted (time_to_nanos m.stamp)))

abbrev codecs : Codecs ℕ ℕ ℕ (Unit {0})
codecs = record {
  send_goal_request = goal_codec;
  send_goal_response = response_codec;
  get_result_request = no_codec;
  get_result_response = no_codec;
  cancel_goal_request = no_codec;
  cancel_goal_response = no_codec;
  feedback_message = no_codec;
  goal_status_array = no_codec;
}

abbrev client : ActionClient
client = record {
  send_goal_client = new_client gid;
  get_result_client = new_client gid;
  cancel_goal_client = new_client gid;
}

abbrev server : ActionServer
server = record {
  send_goal_server = record { pending = []; sent = [] };
  get_result_server = record { pending = []; sent = [] };
  cancel_goal_server = record { pending = []; sent = [] };
  feedback_publisher = new_publisher [] gid;
  status_publisher = new_publisher [] gid;
}

send_goal-respond_goal_example :
    (send_goal serializer
      (Unit {0})
      codecs
      (goal_session serializer (Unit {0}) codecs (λ goal. ltb goal 10) server (codes "0/send_goal"))
      (pos 9)
      77
      5
      client).1
    ≡ ok (77, true)
unfolding to_cdr
send_goal-respond_goal_example =
    send_goal-respond_goal serializer (Unit {0}) codecs (λ goal. ltb goal 10) server client
      (codes "0/send_goal") (pos 9) 77 5 (0 ∷ 1 ∷ 0 ∷ 0 ∷ 77 ∷ 5 ∷ [])
      (0 ∷ 1 ∷ 0 ∷ 0 ∷ 1 ∷ 0 ∷ 0 ∷ []) serializer-IsSerializer goal_codec-IsBodyCodec
      response_codec-IsBodyCodec (omega arith, omega arith) gid-IsGid refl refl

abbrev bad_query : Query
bad_query = record {
  key_expr = codes "0/get_result";
  payload = some (1 ∷ 2 ∷ []);
  attachment = some (0 ∷ 1 ∷ 0 ∷ 9 ∷ gid);
}

abbrev bad_id : RmwRequestId
bad_id = record { writer_gid = gid; sequence_number = pos 1 }

abbrev messages : List (ℤ × ℕ)
messages = (pos 9, 21) ∷ (pos 10, 42) ∷ []

decode-publish_all_example :
    map
      (decode serializer number)
      (publish_all serializer number messages (new_publisher [] gid)).sent
    ≡ ok (
      21,
      record {
        source_timestamp_nanos = pos 9;
        sequence_number = wrap_i64 (pos 0 +ℤ pos 1);
        source_gid = gid;
      },
    )
      ∷ ok (
        42,
        record {
          source_timestamp_nanos = pos 10;
          sequence_number = wrap_i64 (wrap_i64 (pos 0 +ℤ pos 1) +ℤ pos 1);
          source_gid = gid;
        },
      )
      ∷ []
unfolding to_cdr
decode-publish_all_example =
    decode-publish_all serializer number number-IsBodyCodec serializer-IsSerializer messages
      (new_publisher [] gid) gid-IsGid
      ((omega arith, omega arith), ((omega arith, omega arith), tt))
