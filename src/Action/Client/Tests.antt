-- ===== src/Action/Client/Tests.antt =====
-- The theorems on the action client and the raw server at a goal of id 5, with codecs that write numbers.
use ros2_client.Base.{
  ℕ, Bool, true, false, List, [], ◌∷◌, ◌++◌, none, some, length, ◌≡◌, refl, subst, arith, zero, suc,
}
use ros2_client.Base.Int.{ℤ, pos, negsuc, ◌<ℤ◌}
use ros2_client.Base.Results.{Result, ok, err, ok_injective, ◌>>=◌}
use ros2_client.Time.Builtin.{Time, time_from_nanos, repr_from_time}
use ros2_client.Service.Message.{Bytes, from_identity, CacheChange}
use ros2_client.Service.Wrappers.{cdr_le, Codec, Wrapper, encapsulated}
use ros2_client.Service.Wrappers.Laws.{IsCodec}
use ros2_client.Service.Ends.{increment_sequence_number, WriteWithOptions}
use ros2_client.Service.Ends.Laws.{sample, wrapped}
use ros2_client.Service.Tests.{Error, identity, other, dds, client}
use ros2_client.Action.Msgs.{GoalId, executing}
use ros2_client.Action.Types.{
  SendGoalRequest, SendGoalResponseRepr, GoalInfoRepr, GetResultRequest, FeedbackMessage, Codecs,
  goal_response, cancel_request, cancel_response,
}
use ros2_client.Action.Server.State.{AsyncGoal}
use ros2_client.Action.Client.{
  ActionClient, send_goal, receive_goal_response, receive_cancel_response, receive_result,
  receive_feedback, feedback_stream, cancel_goal, cancel_all_goals, cancel_all_goals_before,
}
use ros2_client.Action.Client.Laws.{Drained, receive-Drained, feedback_stream-receive_feedback}
use ros2_client.Action.Client.Cancel.{Selects, cancel_calls-Selects}
use ros2_client.Action.RawServer.{receive_goal_request, respond_goal}
use ros2_client.Action.RawServer.Laws.{raw_goal_exchange}

-- A codec that writes every message, and reads back what it writes.
abbrev codec_of : {M : Type 0} → (M → Bytes) → (Bytes → Result (M × ℕ) Error) → Codec M Error Error
codec_of bytes read = record { write = λ e m. ok (bytes m); read = λ e. read }

codec_of-IsCodec :
    {M : Type 0} (bytes : M → Bytes) (read : Bytes → Result (M × ℕ) Error)
    → ((m : M) (rest : Bytes) → read (bytes m ++ rest) ≡ ok (m, length (bytes m)))
    → IsCodec (codec_of bytes read)
codec_of-IsCodec {M} bytes read law m e b rest h =
    subst (λ b. read (b ++ rest) ≡ ok (m, length b)) (ok_injective h) (law m rest)

abbrev no_codec : {M : Type 0} → Codec M Error Error
no_codec = codec_of (λ m. []) (λ b. err tt)

abbrev sign : ℤ → ℕ
sign (pos n) = 0
sign (negsuc n) = 1

abbrev magnitude : ℤ → ℕ
magnitude (pos n) = n
magnitude (negsuc n) = n

abbrev int_of : ℕ → ℕ → ℤ
int_of zero n = pos n
int_of (suc k) n = negsuc n

int_of-sign : (z : ℤ) → int_of (sign z) (magnitude z) ≡ z
int_of-sign (pos n) = refl
int_of-sign (negsuc n) = refl

abbrev bit : Bool → ℕ
bit false = 0
bit true = 1

abbrev bool_of : ℕ → Bool
bool_of zero = false
bool_of (suc k) = true

bool_of-bit : (b : Bool) → bool_of (bit b) ≡ b
bool_of-bit false = refl
bool_of-bit true = refl

abbrev goal_bytes : SendGoalRequest ℕ → Bytes
goal_bytes r = r.goal_id ∷ r.goal ∷ []

abbrev read_goal : Bytes → Result (SendGoalRequest ℕ × ℕ) Error
read_goal (id ∷ goal ∷ rest) = ok (record { goal_id = id; goal = goal }, 2)
read_goal _ = err tt

abbrev response_bytes : SendGoalResponseRepr → Bytes
response_bytes r = bit r.accepted ∷ sign r.stamp.sec ∷ magnitude r.stamp.sec ∷ r.stamp.nanosec ∷ []

abbrev read_goal_response : Bytes → Result (SendGoalResponseRepr × ℕ) Error
read_goal_response (b ∷ k ∷ n ∷ nanosec ∷ rest) =
    ok (record { accepted = bool_of b; stamp = record { sec = int_of k n; nanosec = nanosec } }, 4)
read_goal_response _ = err tt

abbrev cancel_bytes : GoalInfoRepr → Bytes
cancel_bytes r = r.goal_id ∷ sign r.stamp.sec ∷ magnitude r.stamp.sec ∷ r.stamp.nanosec ∷ []

abbrev read_cancel : Bytes → Result (GoalInfoRepr × ℕ) Error
read_cancel (id ∷ k ∷ n ∷ nanosec ∷ rest) =
    ok (record { goal_id = id; stamp = record { sec = int_of k n; nanosec = nanosec } }, 4)
read_cancel _ = err tt

abbrev read_result_request : Bytes → Result (GetResultRequest × ℕ) Error
read_result_request (id ∷ rest) = ok (record { goal_id = id }, 1)
read_result_request _ = err tt

abbrev codecs : Codecs ℕ ℕ Error Error
codecs = record {
  goal_request = codec_of goal_bytes read_goal;
  goal_response_fields = codec_of response_bytes read_goal_response;
  cancel_request_fields = codec_of cancel_bytes read_cancel;
  cancel_response_fields = no_codec;
  result_request = codec_of (λ r. r.goal_id ∷ []) read_result_request;
  result_response = no_codec;
}

goal_request-IsCodec : IsCodec codecs.goal_request
goal_request-IsCodec = codec_of-IsCodec goal_bytes read_goal λ r rest. refl

goal_response-IsCodec : IsCodec codecs.goal_response_fields
goal_response-IsCodec = codec_of-IsCodec response_bytes read_goal_response λ r rest i. ok (
  record {
    accepted = bool_of-bit r.accepted i;
    stamp = record { sec = int_of-sign r.stamp.sec i; nanosec = r.stamp.nanosec };
  },
  4,
)

cancel_request-IsCodec : IsCodec codecs.cancel_request_fields
cancel_request-IsCodec = codec_of-IsCodec cancel_bytes read_cancel λ r rest i. ok (
  record {
    goal_id = r.goal_id;
    stamp = record { sec = int_of-sign r.stamp.sec i; nanosec = r.stamp.nanosec };
  },
  4,
)

result_request-IsCodec : IsCodec codecs.result_request
result_request-IsCodec = codec_of-IsCodec (λ r. r.goal_id ∷ []) read_result_request λ r rest. refl

abbrev action_client : ActionClient
action_client = record {
  my_goal_client = client;
  my_cancel_client = client;
  my_result_client = client;
}

-- An answer to another request, a good one, and an error behind it.
abbrev held : List (Result (CacheChange Wrapper) Error)
held =
    ok (sample identity (some other) (0 ∷ 0 ∷ 0 ∷ 9 ∷ []))
    ∷ ok (sample other (some identity) (1 ∷ 0 ∷ 0 ∷ 12 ∷ []))
    ∷ err tt
    ∷ []

receive-Drained_example :
    Drained dds codecs.goal_request
      (goal_response codecs)
      (λ resp. resp)
      (from_identity identity)
      client
      held
      (receive_goal_response dds codecs (from_identity identity) action_client held)
    × Drained dds
        (cancel_request codecs)
        (cancel_response codecs)
        (λ resp. resp)
        (from_identity identity)
        client
        held
        (receive_cancel_response dds codecs (from_identity identity) action_client held)
    × Drained dds codecs.result_request codecs.result_response
        (λ r. (r.status, r.result))
        (from_identity identity)
        client
        held
        (receive_result dds codecs (from_identity identity) action_client held)
receive-Drained_example = receive-Drained dds codecs action_client (from_identity identity) held

abbrev about : GoalId → ℕ → Result (CacheChange (FeedbackMessage ℕ)) Error
about goal_id n = ok (record {
  source_timestamp = none;
  sequence_number = pos n;
  writer_guid = identity.writer_guid;
  related_sample_identity = none;
  value = record { goal_id = goal_id; feedback = n };
})

abbrev feedbacks : List (Result (CacheChange (FeedbackMessage ℕ)) Error)
feedbacks = about 6 1 ∷ about 5 2 ∷ err tt ∷ about 5 3 ∷ []

feedback_stream-receive_feedback_example :
    feedback_stream 5 feedbacks ≡ ok 2 ∷ feedback_stream 5 (err tt ∷ about 5 3 ∷ [])
unfolding receive_feedback
feedback_stream-receive_feedback_example = feedback_stream-receive_feedback 5 feedbacks

abbrev goals : List (GoalId × AsyncGoal ℕ)
goals =
    (5, record { status = executing; accepted_time = some (time_from_nanos (pos 3)); goal = 1 })
    ∷ []

cancel_calls-Selects_example :
    Selects dds codecs cancel_bytes identity action_client goals
      (cancel_goal dds codecs 5)
      (λ j ag. 5 ≡ j)
    × Selects dds codecs cancel_bytes identity action_client goals
        (cancel_all_goals dds codecs)
        (λ j ag. Unit {0})
    × Selects dds codecs cancel_bytes identity action_client goals
        (cancel_all_goals_before dds codecs (time_from_nanos (pos 4)))
        (λ j ag. (t : Time) × (ag.accepted_time ≡ some t) × (t.nanos_since_epoch <ℤ pos 4))
cancel_calls-Selects_example =
    cancel_calls-Selects dds codecs cancel_bytes identity action_client goals 5
      (time_from_nanos (pos 4)) 0 (λ e. cc) (λ e. cc) (omega arith, omega arith) refl
      cancel_request-IsCodec (λ r. refl) (λ e. cc) (omega arith, tt)

raw_goal_exchange_example :
    ((write : WriteWithOptions Wrapper Error)
      → send_goal dds codecs write 5 8 action_client ≡ (
        record action_client { my_goal_client = increment_sequence_number client },
        write (wrapped (5 ∷ 8 ∷ [])) none >>= λ sent. ok (from_identity sent, 5),
      ))
    × (receive_goal_request dds (ok (sample identity none (5 ∷ 8 ∷ [])) ∷ [])
        ≡ ok (from_identity identity, encapsulated cdr_le (5 ∷ 8 ∷ [])))
    × ((write : WriteWithOptions Bytes Error)
        → respond_goal dds codecs write (from_identity identity) true (time_from_nanos (pos 12))
          ≡ (write (1 ∷ 0 ∷ 0 ∷ 12 ∷ []) (some identity) >>= λ sent. ok tt))
    × (receive_goal_response dds codecs
          (from_identity identity)
          action_client
          (ok (sample other (some identity) (1 ∷ 0 ∷ 0 ∷ 12 ∷ [])) ∷ err tt ∷ [])
        ≡ (ok (some (record { accepted = true; stamp = time_from_nanos (pos 12) })), err tt ∷ []))
unfolding repr_from_time
raw_goal_exchange_example =
    raw_goal_exchange dds codecs identity action_client 5 8 true (time_from_nanos (pos 12)) other
      (5 ∷ 8 ∷ []) (1 ∷ 0 ∷ 0 ∷ 12 ∷ []) [] (err tt ∷ []) refl goal_request-IsCodec
      goal_response-IsCodec (omega arith, omega arith) refl refl (λ e. cc)
