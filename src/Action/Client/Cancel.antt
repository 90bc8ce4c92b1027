-- ===== src/Action/Client/Cancel.antt =====
-- The cancel calls of the action client (src/action/client.rs) against the selection of the action server
-- (src/action/server.rs).
use ros2_client.Base.{ap, inl, inr, ◌⊎◌, ◌↔◌, ℕ, true, none, some, ◌≡◌, ◌≢◌, refl, arith, contains}
use ros2_client.Base.Int.{pos, ◌<ℤ◌}
use ros2_client.Base.Ordered.{Map, get, nat_key}
use ros2_client.Base.Ascending.{Ascending}
use ros2_client.Base.Results.{Result, ok, ◌>>=◌}
use ros2_client.Time.Builtin.{Time}
use ros2_client.Time.Builtin.Laws.{Fits, time_from_repr-repr_from_time}
use ros2_client.Service.Message.{Bytes, SampleIdentity, RmwRequestId, from_identity, enhanced}
use ros2_client.Service.Wrappers.{cdr_le, Codec, Dds, Wrapper}
use ros2_client.Service.Wrappers.Laws.{IsCodec}
use ros2_client.Service.Ends.{increment_sequence_number, WriteWithOptions, read_request}
use ros2_client.Service.Ends.Laws.{sample, wrapped, enhanced_request}
use ros2_client.Action.Msgs.{GoalId, zero_id, CancelGoalRequest, accepted, executing}
use ros2_client.Action.Types.{
  Codecs, GoalInfoRepr, cancel_request, cancel_response, cancel_request_to_repr,
  cancel_request_from_repr, through, through-ReadsBack,
}
use ros2_client.Action.Client.{
  ActionClient, time_zero, cancel_request_of, cancel_goal_raw, cancel_goal, cancel_all_goals_before,
  cancel_all_goals,
}
use ros2_client.Action.Server.State.{AsyncGoal}
use ros2_client.Action.Server.Cancel.{selected_goals}
use ros2_client.Action.Server.Cancel.Selection.{IsEarlier, IsMeant, selected_goals_iff}

-- The bytes that a codec makes of every message.
abbrev pub Writes : {M E W : Type 0} → Codec M E W → (M → Bytes) → Type 0
Writes {M} codec bytes = (m : M) → codec.write cdr_le m ≡ ok (bytes m)

module _ {E W G R : Type 0} (d : Dds E W) (k : Codecs G R E W) (bytes : GoalInfoRepr → Bytes)
    (identity : SampleIdentity) (a : ActionClient) (m : Map GoalId (AsyncGoal G)) where
  -- A call of the client writes a request under the identity that the middleware gives it. The server
  -- that reads it selects, of its goals, those whose status is Accepted or Executing and that are chosen.
  abbrev pub Selects :
      (WriteWithOptions Wrapper W → ActionClient → ActionClient × Result RmwRequestId W)
      → (GoalId → AsyncGoal G → Type 0)
      → Type 0
  Selects call chosen =
      (request : CancelGoalRequest) × ((write : WriteWithOptions Wrapper W)
        → call write a ≡ (
          record a { my_cancel_client = increment_sequence_number a.my_cancel_client },
          write (wrapped (bytes (cancel_request_to_repr request))) none >>= λ sent.
              ok (from_identity sent),
        ))
      × (read_request d (cancel_request k) (cancel_response k) enhanced
            (ok (sample identity none (bytes (cancel_request_to_repr request))))
          ≡ ok (from_identity identity, request))
      × ((j : GoalId)
          → (contains j (selected_goals request.goal_info m) ≡ true) ↔ (
              (ag : AsyncGoal G) × (get j m ≡ some ag)
              × ((ag.status ≡ accepted) ⊎ (ag.status ≡ executing))
              × chosen j ag))

  sent_request :
      (goal_id : GoalId) (timestamp : Time) (n : ℕ) (chosen : GoalId → AsyncGoal G → Type 0)
      → a.my_cancel_client.service_mapping ≡ enhanced
      → IsCodec k.cancel_request_fields
      → Writes k.cancel_request_fields bytes
      → identity.sequence_number ≢ d.unknown
      → Ascending n m
      → Fits timestamp.nanos_since_epoch
      → ((j : GoalId) (ag : AsyncGoal G)
          → IsMeant (cancel_request_of goal_id timestamp).goal_info j ag ↔ chosen j ag)
      → Selects (λ write. cancel_goal_raw d k write goal_id timestamp) chosen
  unfolding cancel_goal_raw through
  sent_request goal_id timestamp n chosen mapping law writes known ascending fits policy =
      let request = cancel_request_of goal_id timestamp in
      let back : cancel_request_from_repr (cancel_request_to_repr request) ≡ request =
        ap (cancel_request_of goal_id)
          (time_from_repr-repr_from_time timestamp.nanos_since_epoch fits) in
      let codec =
        through-ReadsBack cancel_request_to_repr cancel_request_from_repr k.cancel_request_fields
          request (law (cancel_request_to_repr request)) back in
      let (sent, read) =
        enhanced_request d (cancel_request k) (cancel_response k) a.my_cancel_client identity
          request (bytes (cancel_request_to_repr request)) mapping codec
          (writes (cancel_request_to_repr request)) known in
      (
        request,
        λ write. rw (sent write) refl,
        read,
        λ j.
            let (to, of) = selected_goals_iff request.goal_info n j m ascending in
            (
              λ h. let (ag, e, c, p) = to h in (ag, e, c, (policy j ag).0 p),
              λ (ag, e, c, p). of (ag, e, c, (policy j ag).1 p),
            ),
      )

  -- In the Enhanced mapping, over an encoding of the fields of a request that is read back: cancel_goal
  -- selects, on the server, the goal of its id; cancel_all_goals every goal; and
  -- cancel_all_goals_before the goals accepted strictly before its stamp; always among the goals whose
  -- status is Accepted or Executing. The id is not the zero id, the stamp is not zero and its seconds
  -- fit an i32, and the identity of the request has a known sequence number.
  pub cancel_calls-Selects :
      (goal_id : GoalId) (stamp : Time) (n : ℕ)
      → goal_id ≢ zero_id
      → stamp.nanos_since_epoch ≢ pos 0
      → Fits stamp.nanos_since_epoch
      → a.my_cancel_client.service_mapping ≡ enhanced
      → IsCodec k.cancel_request_fields
      → Writes k.cancel_request_fields bytes
      → identity.sequence_number ≢ d.unknown
      → Ascending n m
      → Selects (cancel_goal d k goal_id) (λ j ag. goal_id ≡ j)
        × Selects (cancel_all_goals d k) (λ j ag. Unit {0})
        × Selects (cancel_all_goals_before d k stamp) (λ j ag.
          (t : Time) × (ag.accepted_time ≡ some t)
          × (t.nanos_since_epoch <ℤ stamp.nanos_since_epoch))
  cancel_calls-Selects goal_id stamp n some_id some_stamp fits mapping law writes known ascending =
      (
        sent_request goal_id time_zero n (λ j ag. goal_id ≡ j) mapping law writes known ascending
            zero_fits
            (λ j ag. (
              λ h. elim h [
                | inl (e, z) ↦ absurd (some_id e)
                | inr (inl (ne, e)) ↦ e
                | inr (inr (ne, e)) ↦ absurd (ne refl)
              ],
              λ e. inr (inl (some_id, e)),
            )),
        sent_request zero_id time_zero n (λ j ag. Unit {0}) mapping law writes known ascending
            zero_fits (λ j ag. (λ h. tt, λ u. inl (refl, refl))),
        sent_request zero_id stamp n (λ j ag. IsEarlier ag stamp) mapping law writes known ascending
            fits
            (λ j ag. (
              λ h. elim h [
                | inl (e, z) ↦ absurd (some_stamp z)
                | inr (inl (ne, e)) ↦ absurd (ne refl)
                | inr (inr (ne, e)) ↦ e
              ],
              λ e. inr (inr (some_stamp, e)),
            )),
      )
    where
      zero_fits : Fits (pos 0)
      zero_fits = (omega arith, omega arith)
