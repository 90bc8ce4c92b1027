-- ===== src/Action/Types.antt =====
-- src/action.rs: the requests, responses and feedback that the IDL generator of ROS 2 would make of an
-- action, and how they are encoded (serde, a parameter).
use ros2_client.Base.{Bool, List, map, ◌≡◌, refl}
use ros2_client.Base.Results.{ok, ◌>>=◌}
use ros2_client.Time.Builtin.{Time, Repr, repr_from_time, time_from_repr}
use ros2_client.Action.Msgs.{
  GoalId, GoalInfo, GoalStatusEnum, CancelCode, CancelGoalRequest, CancelGoalResponse,
}
use ros2_client.Service.Wrappers.{Codec}
use ros2_client.Service.Wrappers.Laws.{ReadsBack}

pub record SendGoalRequest (G : Type 0) : Type 0 where
  pub goal_id : GoalId
  pub goal : G

pub record SendGoalResponse : Type 0 where
  pub accepted : Bool
  pub stamp : Time

pub record GetResultRequest : Type 0 where
  pub goal_id : GoalId

pub record GetResultResponse (R : Type 0) : Type 0 where
  pub status : GoalStatusEnum
  pub result : R

pub record FeedbackMessage (F : Type 0) : Type 0 where
  pub goal_id : GoalId
  pub feedback : F

-- The same messages, and those of src/action_msgs.rs, with each Time as it is on the wire: serde turns
-- a `Time` into a `repr::Time` and back.
pub record GoalInfoRepr : Type 0 where
  pub goal_id : GoalId
  pub stamp : Repr

pub record SendGoalResponseRepr : Type 0 where
  pub accepted : Bool
  pub stamp : Repr

pub record CancelGoalResponseRepr : Type 0 where
  pub return_code : CancelCode
  pub goals_canceling : List GoalInfoRepr

abbrev pub goal_info_to_repr : GoalInfo → GoalInfoRepr
goal_info_to_repr i = record { goal_id = i.goal_id; stamp = repr_from_time i.stamp }

abbrev pub goal_info_from_repr : GoalInfoRepr → GoalInfo
goal_info_from_repr i = record { goal_id = i.goal_id; stamp = time_from_repr i.stamp }

abbrev pub response_to_repr : SendGoalResponse → SendGoalResponseRepr
response_to_repr r = record { accepted = r.accepted; stamp = repr_from_time r.stamp }

abbrev pub response_from_repr : SendGoalResponseRepr → SendGoalResponse
response_from_repr r = record { accepted = r.accepted; stamp = time_from_repr r.stamp }

abbrev pub cancel_request_to_repr : CancelGoalRequest → GoalInfoRepr
cancel_request_to_repr r = goal_info_to_repr r.goal_info

abbrev pub cancel_request_from_repr : GoalInfoRepr → CancelGoalRequest
cancel_request_from_repr i = record { goal_info = goal_info_from_repr i }

abbrev pub cancel_response_to_repr : CancelGoalResponse → CancelGoalResponseRepr
cancel_response_to_repr r = record {
  return_code = r.return_code;
  goals_canceling = map goal_info_to_repr r.goals_canceling;
}

abbrev pub cancel_response_from_repr : CancelGoalResponseRepr → CancelGoalResponse
cancel_response_from_repr r = record {
  return_code = r.return_code;
  goals_canceling = map goal_info_from_repr r.goals_canceling;
}

-- A codec of a type that is converted on its way to the wire and back.
unfoldable pub through : {M N E W : Type 0} → (M → N) → (N → M) → Codec N E W → Codec M E W
through to of codec = record {
  write = λ e m. codec.write e (to m);
  read = λ e b. codec.read e b >>= λ (n, consumed). ok (of n, consumed);
}

-- The codecs of the three services of an action. What is a parameter is the encoding of the fields, with
-- a time as two numbers; the conversion of a time is the program's own.
pub record Codecs (G R E W : Type 0) : Type 0 where
  pub goal_request : Codec (SendGoalRequest G) E W
  pub goal_response_fields : Codec SendGoalResponseRepr E W
  pub cancel_request_fields : Codec GoalInfoRepr E W
  pub cancel_response_fields : Codec CancelGoalResponseRepr E W
  pub result_request : Codec GetResultRequest E W
  pub result_response : Codec (GetResultResponse R) E W

module _ {G R E W : Type 0} (k : Codecs G R E W) where
  abbrev pub goal_response : Codec SendGoalResponse E W
  goal_response = through response_to_repr response_from_repr k.goal_response_fields

  abbrev pub cancel_request : Codec CancelGoalRequest E W
  cancel_request = through cancel_request_to_repr cancel_request_from_repr k.cancel_request_fields

  abbrev pub cancel_response : Codec CancelGoalResponse E W
  cancel_response =
      through cancel_response_to_repr cancel_response_from_repr k.cancel_response_fields

-- A converted message is read back if its fields are and its conversion there and back gives it again.
pub through-ReadsBack :
    {M N E W : Type 0} (to : M → N) (of : N → M) (codec : Codec N E W) (m : M)
    → ReadsBack codec (to m)
    → of (to m) ≡ m
    → ReadsBack (through to of codec) m
unfolding through
through-ReadsBack to of codec m law same e b rest w = rw (law e b rest w, same) refl
