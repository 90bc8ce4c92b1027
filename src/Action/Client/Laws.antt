-- ===== src/Action/Client/Laws.antt =====
-- What the receiving methods and the cancel calls of the action client (src/action/client.rs) do.
use ros2_client.Base.{
  List, [], ◌∷◌, ◌++◌, map, Option, none, some, All, ◌≡◌, ◌⊎◌, inl, inr, refl, arith, Bool-cases,
  ap, ◌==◌, ◌∙◌,
}
use ros2_client.Base.Results.{Result, ok, err, ◌>>=◌, Result-cases}
use ros2_client.Service.Message.{RmwRequestId, CacheChange}
use ros2_client.Service.Wrappers.{Codec, Dds, Wrapper}
use ros2_client.Service.Ends.{Client, id_eq, read_response}
use ros2_client.Service.Ends.Laws.{IsForeign, id_eq_iff}
use ros2_client.Action.Msgs.{GoalId}
use ros2_client.Action.Types.{
  FeedbackMessage, Codecs, goal_response, cancel_request, cancel_response,
}
use ros2_client.Action.Client.{
  ActionClient, receive_own, receive_goal_response, receive_cancel_response, receive_result,
  receive_feedback, feedback_stream,
}
use mathlib.Core.List.{filter_map}

module _ {E W : Type 0} (d : Dds E W) {Req Resp V : Type 0} (rq : Codec Req E W)
    (rs : Codec Resp E W) (view : Resp → V) where
  -- What is to come out of draining a reader for the answer to a request: the samples before it, all
  -- answers to other requests, are gone. Then the reader was empty, or a sample could not be read, or
  -- the answer is there; what is behind it is left.
  abbrev pub Drained :
      RmwRequestId
      → Client
      → List (Result (CacheChange Wrapper) E)
      → Result (Option V) E × List (Result (CacheChange Wrapper) E)
      → Type 0
  Drained req_id c cache out =
      (foreign : List (CacheChange Wrapper)) × All (IsForeign d rq rs req_id c) foreign
      × (((cache ≡ map ok foreign) × (out ≡ (ok none, [])))
          ⊎ ((sample : Result (CacheChange Wrapper) E) × (left : List
                (Result (CacheChange Wrapper) E))
              × (cache ≡ map ok foreign ++ sample ∷ left)
              × (((e : E) × ((sample >>= read_response d rq rs c) ≡ err e) × (out ≡ (err e, left)))
                  ⊎ ((resp : Resp) × ((sample >>= read_response d rq rs c) ≡ ok (req_id, resp))
                      × (out ≡ (ok (some (view resp)), left))))))

  skip-Drained :
      (req_id : RmwRequestId) (c : Client) (dcc : CacheChange Wrapper)
      (cache : List (Result (CacheChange Wrapper) E))
      (out : Result (Option V) E × List (Result (CacheChange Wrapper) E))
      → IsForeign d rq rs req_id c dcc
      → Drained req_id c cache out
      → Drained req_id c (ok dcc ∷ cache) out
  skip-Drained req_id c dcc cache out f (foreign, fs, inl (e, o)) =
      (dcc ∷ foreign, (f, fs), inl (ap (λ l. ok dcc ∷ l) e, o))
  skip-Drained req_id c dcc cache out f (foreign, fs, inr (sample, left, e, o)) =
      (dcc ∷ foreign, (f, fs), inr (sample, left, ap (λ l. ok dcc ∷ l) e, o))

  pub receive_own-Drained :
      (req_id : RmwRequestId) (c : Client) (cache : List (Result (CacheChange Wrapper) E))
      → Drained req_id c cache (receive_own d rq rs view req_id c cache)
  unfolding receive_own
  receive_own-Drained req_id c [] = ([], tt, inl (refl, refl))
  receive_own-Drained req_id c (err e ∷ cache) =
      ([], tt, inr (err e, cache, refl, inl (e, refl, refl)))
  receive_own-Drained req_id c (ok dcc ∷ cache) =
      elim (Result-cases (read_response d rq rs c dcc)) [
        | inr (e, h) ↦ ([], tt, inr (ok dcc, cache, refl, inl (e, h, rw h refl)))
        | inl (r, h) ↦ elim (Bool-cases (id_eq r.0 req_id)) [
          | inl same ↦ (
            [],
            tt,
            inr (
              ok dcc,
              cache,
              refl,
              inr (
                r.1,
                h ∙ ap (λ id. ok (id, r.1)) ((id_eq_iff r.0 req_id).0 same),
                rw (h, same) refl,
              ),
            ),
          )
          | inr other ↦
              rw (h, other)
                (skip-Drained req_id c dcc cache (receive_own d rq rs view req_id c cache)
                  (r, h, λ e. ground (arith, id_eq_iff r.0 req_id, other, e))
                  (receive_own-Drained req_id c cache))
        ]
      ]

-- Whatever a reader holds, polling for the response to a goal, for the response to a cancel request or
-- for a result ends, and gives the answer to the request that is asked for: it drops the answers to
-- other requests before it, returns the first sample that cannot be read as an error, returns nothing
-- when the reader runs empty, and leaves what is behind.
pub receive-Drained :
    {E W G R : Type 0} (d : Dds E W) (k : Codecs G R E W) (a : ActionClient) (req_id : RmwRequestId)
    (cache : List (Result (CacheChange Wrapper) E))
    → Drained d k.goal_request
        (goal_response k)
        (λ resp. resp)
        req_id
        a.my_goal_client
        cache
        (receive_goal_response d k req_id a cache)
      × Drained d
          (cancel_request k)
          (cancel_response k)
          (λ resp. resp)
          req_id
          a.my_cancel_client
          cache
          (receive_cancel_response d k req_id a cache)
      × Drained d k.result_request k.result_response
          (λ r. (r.status, r.result))
          req_id
          a.my_result_client
          cache
          (receive_result d k req_id a cache)
receive-Drained d k a req_id cache = (
  receive_own-Drained d k.goal_request (goal_response k) (λ resp. resp) req_id a.my_goal_client
      cache,
  receive_own-Drained d (cancel_request k) (cancel_response k) (λ resp. resp) req_id
      a.my_cancel_client cache,
  receive_own-Drained d k.result_request k.result_response (λ r. (r.status, r.result)) req_id
      a.my_result_client cache,
)

module _ {E F : Type 0} where
  -- What a stream yields of a poll that returned `polled` and left `rest`.
  abbrev pub yielded : Result (Option F) E → List (Result F E) → List (Result F E)
  yielded (err e) rest = err e ∷ rest
  yielded (ok none) rest = rest
  yielded (ok (some f)) rest = ok f ∷ rest

  -- The stream of feedback yields what polling returns: the feedback or the error of the first poll, and
  -- then the stream of what this poll has left, and nothing if the poll finds none.
  pub feedback_stream-receive_feedback :
      (goal_id : GoalId) (cache : List (Result (CacheChange (FeedbackMessage F)) E))
      → feedback_stream goal_id cache
        ≡ yielded
            (receive_feedback goal_id cache).0
            (feedback_stream goal_id (receive_feedback goal_id cache).1)
  unfolding feedback_stream receive_feedback filter_map
  feedback_stream-receive_feedback goal_id [] = refl
  feedback_stream-receive_feedback goal_id (err e ∷ cache) = refl
  feedback_stream-receive_feedback goal_id (ok dcc ∷ cache) =
      elim (Bool-cases (dcc.value.goal_id == goal_id)) [
        | inl ours ↦ rw ours refl
        | inr other ↦ rw other (feedback_stream-receive_feedback goal_id cache)
      ]
