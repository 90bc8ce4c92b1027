-- ===== src/Zenoh/Wire/Laws.antt =====
-- Payloads and attachments are read back (src/zenoh_backend/cdr.rs, src/zenoh_backend/attachment.rs).
use ros2_client.Base.{[], ◌++◌, some, ◌≡◌, refl, sym, append-nil, inl, inr}
use ros2_client.Base.Int.{IsI64}
use ros2_client.Base.Results.{ok, Result-cases, ok_injective, err_ne_ok}
use ros2_client.Zenoh.Wire.{
  Bytes, BodyCodec, IsBodyCodec, cdr_le_header, to_cdr, from_cdr, Serializer, IsGid, IsSerializer,
  AttachmentData, to_zbytes, from_zbytes,
}

-- A payload that `to_cdr` makes of a message is read as that message.
pub from_cdr-to_cdr :
    {M E : Type 0} (c : BodyCodec M E) (m : M) (payload : Bytes)
    → IsBodyCodec c
    → to_cdr c m ≡ ok payload
    → from_cdr c payload ≡ ok m
unfolding to_cdr from_cdr
from_cdr-to_cdr c m payload law h = elim (Result-cases (c.to_vec m)) [
  | inl (body, e) ↦
      let (consumed, back) = law m body e in
      let sent : cdr_le_header ++ body ≡ payload = ok_injective (rw e at h) in
      rw (sym sent) (rw back refl)
  | inr (x, e) ↦ err_ne_ok (rw e at h)
]

-- An attachment is read back, whatever follows it.
pub from_zbytes-to_zbytes :
    (z : Serializer) (a : AttachmentData)
    → IsSerializer z
    → IsI64 a.sequence_number
    → IsI64 a.source_timestamp
    → IsGid a.source_gid
    → from_zbytes z (to_zbytes z a) ≡ some a
unfolding to_zbytes from_zbytes
from_zbytes-to_zbytes z a law seq stamp gid =
    let g : z.read_gid (z.write_gid a.source_gid) ≡ some (a.source_gid, []) =
      rw (append-nil (z.write_gid a.source_gid)) at (law.gid a.source_gid [] gid) in
    rw
      (
        law.int a.sequence_number (z.write_int a.source_timestamp ++ z.write_gid a.source_gid) seq,
        law.int a.source_timestamp (z.write_gid a.source_gid) stamp,
        g,
      )
      refl
