-- ===== src/Service/Wrappers/Laws.antt =====
-- What the wrappers of src/service/wrappers.rs read back.
use ros2_client.Base.{
  ℕ, ◌≤◌, false, [], ◌++◌, ltb, length, take, drop, take-length, length-append, ◌≡◌, refl, arith,
  ap, append-nil,
}
use ros2_client.Base.Text.{Text}
use ros2_client.Base.Results.{ok, ◌>>=◌, >>=-assoc}
use ros2_client.Service.Message.{
  Bytes, RmwRequestId, to_identity, MessageInfo, writer_guid, basic, cyclone,
}
use ros2_client.Service.Wrappers.{
  Encoding, Codec, Dds, basic_request_header, cyclone_header_of, behind_header, new_request,
  unwrap_request,
}

-- What is written of a message is read as it, whatever follows, and the bytes taken are counted.
abbrev pub ReadsBack : {M E W : Type 0} → Codec M E W → M → Type 0
ReadsBack c m =
    (e : Encoding) (b rest : Bytes) → c.write e m ≡ ok b → c.read e (b ++ rest) ≡ ok (m, length b)

abbrev pub IsCodec : {M E W : Type 0} → Codec M E W → Type 0
IsCodec {M} c = (m : M) → ReadsBack c m

pub read_written :
    {M E W : Type 0} (c : Codec M E W) (e : Encoding) (m : M) (b : Bytes)
    → ReadsBack c m
    → c.write e m ≡ ok b
    → c.read e b ≡ ok (m, length b)
read_written c e m b law w = rw (append-nil b) at (law e b [] w)

-- `Bytes::split_off` keeps the bytes before the index and returns those behind it.
abbrev pub IsSplitOff : (ℕ → Bytes → Bytes × Bytes) → Type 0
IsSplitOff split_off = (n : ℕ) (b : Bytes) → n ≤ length b → split_off n b ≡ (take n b, drop n b)

module _ {E W : Type 0} (d : Dds E W) where
  behind_header-header :
      {H R : Type 0} (too_short : Text) (headers : Codec H E W) (codec : Codec R E W) (e : Encoding)
      (header : H) (h b : Bytes)
      → IsSplitOff d.split_off
      → ReadsBack headers header
      → headers.write e header ≡ ok h
      → behind_header d too_short headers codec
          (record { serialized_message = h ++ b; encoding = e })
        ≡ (codec.read e h >>= λ m. ok (header, m.0))
  unfolding behind_header
  behind_header-header too_short headers codec e header h b split law w =
      let fits : ltb (length (h ++ b)) (length h) ≡ false = ground (arith, length-append h b) in
      let kept : d.split_off (length h) (h ++ b)
          ≡ (take (length h) (h ++ b), drop (length h) (h ++ b)) =
        split (length h) (h ++ b) (omega (arith, length-append h b)) in
      rw (law e h b w, fits, kept, take-length h b) refl

  -- In the Basic and the Cyclone mapping, a request that is wrapped is not decoded from its own bytes:
  -- what is decoded as the request are the bytes of the header. So whatever the request was, the
  -- outcome is the same. The codecs of the headers are to read back what they write.
  pub unwrap_request-new_request :
      {R : Type 0} (codec : Codec R E W) (e : Encoding) (r : RmwRequestId) (mi : MessageInfo)
      (request : R) (basic_bytes cyclone_bytes body : Bytes)
      → IsSplitOff d.split_off
      → ReadsBack d.basic_request (basic_request_header (to_identity r))
      → ReadsBack d.cyclone_header (cyclone_header_of d r)
      → d.basic_request.write e (basic_request_header (to_identity r)) ≡ ok basic_bytes
      → d.cyclone_header.write e (cyclone_header_of d r) ≡ ok cyclone_bytes
      → codec.write e request ≡ ok body
      → ((new_request d codec basic r e request >>= λ w. ok (unwrap_request d codec basic mi w))
          ≡ ok (codec.read e basic_bytes >>= λ m. ok (r, m.0)))
        × ((new_request d codec cyclone r e request >>= λ w.
              ok (unwrap_request d codec cyclone mi w))
            ≡ ok (
                codec.read e cyclone_bytes >>= λ m. ok (
                  record {
                    writer_guid = writer_guid mi;
                    sequence_number =
                        d.from_high_low (d.high r.sequence_number) (d.low r.sequence_number);
                  },
                  m.0,
                )))
  unfolding new_request unwrap_request
  unwrap_request-new_request codec e r mi request hb hc body split law_b law_c wb wc w = (
    rw (wb, w, behind_header-header _ d.basic_request codec e _ hb body split law_b wb)
        (ap ok (>>=-assoc (codec.read e hb) _ _)),
    rw (wc, w, behind_header-header _ d.cyclone_header codec e _ hc body split law_c wc)
        (ap ok (>>=-assoc (codec.read e hc) _ _)),
  )
