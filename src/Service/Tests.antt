-- ===== src/Service/Tests.antt =====
-- The theorems on services at a request 21 with the response 42, with the least codecs that keep the
-- laws of the crates.
use ros2_client.Base.{
  ℕ, List, [], ◌∷◌, ◌++◌, map, none, some, length, take, drop, All, ◌≡◌, refl, sym, ap,
}
use ros2_client.Base.Int.{pos, negsuc}
use ros2_client.Base.Results.{Result, ok, err, ok_injective, ◌>>=◌}
use ros2_client.Service.Message.{
  Bytes, Guid, SampleIdentity, RmwRequestId, from_identity, MessageInfo, CacheChange, basic,
  enhanced, cyclone,
}
use ros2_client.Service.Wrappers.{
  cdr_le, Codec, CycloneHeader, Dds, Wrapper, basic_request_header, basic_reply_header, new_request,
  unwrap_request, unwrap_response,
}
use ros2_client.Service.Wrappers.Laws.{IsCodec, unwrap_request-new_request}
use ros2_client.Service.Ends.{
  Client, increment_sequence_number, WriteWithOptions, send_request, async_receive_response,
  read_request, send_response,
}
use ros2_client.Service.Ends.Laws.{sample, wrapped, IsForeign, enhanced_exchange}

abbrev pub Error : Type 0
Error = Unit {0}

abbrev number_of : Bytes → Result (ℕ × ℕ) Error
number_of [] = err tt
number_of (n ∷ rest) = ok (n, 1)

abbrev number : Codec ℕ Error Error
number = record { write = λ e n. ok (n ∷ []); read = λ e. number_of }

number-IsCodec : IsCodec number
number-IsCodec m e [] rest h = absurd cc
number-IsCodec m e (n ∷ []) rest h = cc
number-IsCodec m e (n ∷ k ∷ b) rest h = absurd cc

abbrev pub guid : Guid
guid = 1 ∷ 2 ∷ 3 ∷ 4 ∷ 5 ∷ 6 ∷ 7 ∷ 8 ∷ 9 ∷ 10 ∷ 11 ∷ 12 ∷ 13 ∷ 14 ∷ 15 ∷ 16 ∷ []

abbrev pub identity : SampleIdentity
identity = record { writer_guid = guid; sequence_number = pos 7 }

abbrev id : RmwRequestId
id = from_identity identity

abbrev cyclone_header : CycloneHeader
cyclone_header = record {
  guid_second_half = drop 8 guid;
  sequence_number_high = pos 0;
  sequence_number_low = 7;
}

-- Only the headers of this request are read.
abbrev pub dds : Dds Error Error
dds = record {
  basic_request = record {
    write = λ e h. ok (99 ∷ []);
    read = λ e b. ok (basic_request_header identity, 1);
  };
  basic_reply = record {
    write = λ e h. ok (99 ∷ []);
    read = λ e b. ok (basic_reply_header identity, 1);
  };
  cyclone_header = record { write = λ e h. ok (98 ∷ []); read = λ e b. ok (cyclone_header, 1) };
  split_off = λ n b. (take n b, drop n b);
  unknown = negsuc 0;
  high = λ s. pos 0;
  low = λ s. 7;
  from_high_low = λ h l. pos l;
  deserialization = λ t. tt;
  internal = λ t. tt;
}

abbrev info : MessageInfo
info = record {
  received_timestamp = pos 0;
  source_timestamp = none;
  sequence_number = pos 7;
  publisher = guid;
  related_sample_identity = none;
}

one_byte :
    {H : Type 0} (h : H) {n : ℕ} {b : Bytes}
    → ◌≡◌ {A = Result Bytes Error} (ok (n ∷ [])) (ok b)
    → ◌≡◌ {A = Result (H × ℕ) Error} (ok (h, 1)) (ok (h, length b))
one_byte h e = rw (sym (ok_injective e)) refl

unwrap_request-new_request_example :
    ((new_request dds number basic id cdr_le 21 >>= λ w.
    ok (unwrap_request dds number basic info w))
      ≡ ok (ok (id, 99)))
    × ((new_request dds number cyclone id cdr_le 21 >>= λ w.
          ok (unwrap_request dds number cyclone info w))
        ≡ ok (ok (id, 98)))
unwrap_request-new_request_example =
    unwrap_request-new_request dds number cdr_le id info 21 (99 ∷ []) (98 ∷ []) (21 ∷ [])
      (λ n b h. refl) (λ e b rest h. one_byte (basic_request_header identity) h)
      (λ e b rest h. one_byte cyclone_header h) refl refl refl

abbrev pub client : Client
client = record { service_mapping = enhanced; sequence_number_gen = pos 0; client_guid = guid }

abbrev pub other : SampleIdentity
other = record { writer_guid = guid; sequence_number = pos 6 }

abbrev foreign : List (CacheChange Wrapper)
foreign = sample identity (some other) (40 ∷ []) ∷ []

foreign-IsForeign : All (IsForeign dds number number id client) foreign
unfolding unwrap_response
foreign-IsForeign = (((from_identity other, 40), refl, λ e. other_ne e), tt)
  where
    other_ne : from_identity other ≡ id → ⊥
    other_ne e = differ (ap (λ r. r.sequence_number) e)
      where
        differ : pos 6 ≡ pos 7 → ⊥
        differ e = cc

enhanced_exchange_example :
    ((write : WriteWithOptions Wrapper Error)
      → send_request dds number number write 21 client ≡ (
        increment_sequence_number client,
        write (wrapped (21 ∷ [])) none >>= λ sent. ok (from_identity sent),
      ))
    × (read_request dds number number enhanced (ok (sample identity none (21 ∷ []))) ≡ ok (id, 21))
    × ((write : WriteWithOptions Wrapper Error)
        → send_response dds number number write enhanced id 42
          ≡ (write (wrapped (42 ∷ [])) (some identity) >>= λ sent. ok tt))
    × (async_receive_response dds number number id
          (map ok foreign ++ ok (sample other (some identity) (42 ∷ [])) ∷ [])
          client
        ≡ ok 42)
enhanced_exchange_example =
    enhanced_exchange dds number number client identity other 21 42 (21 ∷ []) (42 ∷ []) foreign []
      refl number-IsCodec number-IsCodec refl refl (λ e. cc) foreign-IsForeign
