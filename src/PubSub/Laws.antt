-- ===== src/PubSub/Laws.antt =====
-- The raw ends of a topic (src/pubsub.rs) together.
use ros2_client.Base.{[], ◌∷◌, Option, some, ◌≡◌, ◌↔◌, refl, ap, sym, ◌∙◌}
use ros2_client.Base.Results.{Result, ok}
use ros2_client.Service.Message.{Bytes, MessageInfo, message_info_of, CacheChange}
use ros2_client.PubSub.{
  RawMessageWrapper, new_raw, unwrap_raw, without_header, raw_publish, raw_take,
}

-- A full message with the header of little-endian CDR.
abbrev pub IsLittleEndian : Bytes → Type 0
IsLittleEndian message = (body : Bytes) × (message ≡ 0 ∷ 1 ∷ 0 ∷ 0 ∷ body)

taken_bytes : {E : Type 0} → Result (Option (Bytes × MessageInfo)) E → Bytes
taken_bytes (ok (some (bytes, info))) = bytes
taken_bytes _ = []

-- What a raw publisher writes of a message, a raw subscription that takes it hands back as the same
-- bytes if and only if the message starts with the header of little-endian CDR; in any case it hands
-- back that header and what is behind the first four bytes, or all bytes of a shorter message.
pub raw_take-raw_publish :
    {E W : Type 0} (write : RawMessageWrapper → Result (Unit {0}) W) (message : Bytes)
    (received : CacheChange RawMessageWrapper)
    → received.value ≡ new_raw message
    → (raw_publish write message ≡ write received.value)
      × (raw_take {E = E} (ok (some received))
          ≡ ok (some (0 ∷ 1 ∷ 0 ∷ 0 ∷ without_header message, message_info_of received)))
      × ((raw_take {E = E} (ok (some received)) ≡ ok (some (message, message_info_of received)))
          ↔ IsLittleEndian message)
unfolding raw_publish new_raw unwrap_raw without_header taken_bytes
raw_take-raw_publish {E} write message received e =
    let taken : raw_take {E = E} (ok (some received))
        ≡ ok (some (0 ∷ 1 ∷ 0 ∷ 0 ∷ without_header message, message_info_of received)) =
      rw e refl in
    (
      rw e refl,
      taken,
      (
        λ h. (without_header message, sym (ap taken_bytes (sym taken ∙ h))),
        λ (body, l). taken ∙ ap (λ m. ok (some (m, message_info_of received))) (rw l refl),
      ),
    )
