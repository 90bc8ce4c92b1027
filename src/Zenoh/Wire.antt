-- ===== src/Zenoh/Wire.antt =====
-- src/zenoh_backend/cdr.rs and src/zenoh_backend/attachment.rs: payloads with their encapsulation
-- header, and attachments. The crates cdr_encoding and zenoh_ext are parameters. A byte is a natural
-- number and a group id is the list of its 16 bytes.
pub mod Laws
use ros2_client.Base.{
  ℕ, ◌<◌, ◌%◌, List, [], ◌∷◌, ◌++◌, Option, none, some, ◌==◌, if◌then◌else◌, ◌≡◌, ◌>>=◌, length,
  All,
}
use ros2_client.Base.Int.{ℤ, IsI64}
use ros2_client.Base.Results.{Result, ok, err, map_err}

abbrev pub Bytes : Type 0
Bytes = List ℕ

-- `to_vec` and `from_bytes` of cdr_encoding for one type of messages, the latter with the number of
-- bytes consumed.
pub record BodyCodec (M E : Type 0) : Type 0 where
  pub to_vec : M → Result Bytes E
  pub from_bytes_le : Bytes → Result (M × ℕ) E
  pub from_bytes_be : Bytes → Result (M × ℕ) E

-- What is encoded little-endian is decoded again.
abbrev pub IsBodyCodec : {M E : Type 0} → BodyCodec M E → Type 0
IsBodyCodec {M} c =
    (m : M) (body : Bytes)
    → c.to_vec m ≡ ok body
    → (consumed : ℕ) × (c.from_bytes_le body ≡ ok (m, consumed))

pub data CdrError (E : Type 0) : Type 0 where
  encoding : E → CdrError E
  missing_header : CdrError E

abbrev pub cdr_le_header : Bytes
cdr_le_header = 0 ∷ 1 ∷ 0 ∷ 0 ∷ []

abbrev with_header : {E : Type 0} → Result Bytes E → Result Bytes (CdrError E)
with_header (ok body) = ok (cdr_le_header ++ body)
with_header (err e) = err (encoding e)

abbrev message_of : {M E : Type 0} → Result (M × ℕ) E → Result M (CdrError E)
message_of (ok (m, consumed)) = ok m
message_of (err e) = err (encoding e)

unfoldable pub to_cdr : {M E : Type 0} → BodyCodec M E → M → Result Bytes (CdrError E)
to_cdr c m = with_header (c.to_vec m)

unfoldable pub from_cdr : {M E : Type 0} → BodyCodec M E → Bytes → Result M (CdrError E)
from_cdr c (b0 ∷ b1 ∷ b2 ∷ b3 ∷ body) =
    if b1 % 2 == 1 then message_of (c.from_bytes_le body) else message_of (c.from_bytes_be body)
from_cdr c _ = err missing_header

-- `ZSerializer` and `ZDeserializer` of zenoh_ext on an i64 and on an array of 16 bytes. A read returns
-- what is left.
pub record Serializer : Type 0 where
  pub write_int : ℤ → Bytes
  pub write_gid : Bytes → Bytes
  pub read_int : Bytes → Option (ℤ × Bytes)
  pub read_gid : Bytes → Option (Bytes × Bytes)

abbrev pub IsGid : Bytes → Type 0
IsGid g = (length g ≡ 16) × All (λ b. b < 256) g

-- What is written is read again, and what follows it is left.
pub record IsSerializer (z : Serializer) : Type 0 where
  pub int : (x : ℤ) (rest : Bytes) → IsI64 x → z.read_int (z.write_int x ++ rest) ≡ some (x, rest)
  pub gid : (g rest : Bytes) → IsGid g → z.read_gid (z.write_gid g ++ rest) ≡ some (g, rest)

pub record AttachmentData : Type 0 where
  pub sequence_number : ℤ
  pub source_timestamp : ℤ
  pub source_gid : Bytes

unfoldable pub to_zbytes : Serializer → AttachmentData → Bytes
to_zbytes z a =
    z.write_int a.sequence_number ++ (z.write_int a.source_timestamp ++ z.write_gid a.source_gid)

-- `none` is the AttachmentError.
unfoldable pub from_zbytes : Serializer → Bytes → Option AttachmentData
from_zbytes z b = do
  (sequence_number, b1) ← z.read_int b
  (source_timestamp, b2) ← z.read_int b1
  (source_gid, b3) ← z.read_gid b2
  some (record {
    sequence_number = sequence_number;
    source_timestamp = source_timestamp;
    source_gid = source_gid;
  })
