-- ===== src/Zenoh/Service/Tests.antt =====
-- The theorems on services at a service that doubles numbers below 256, with the least codec that
-- keeps the laws of the crates.
use ros2_client.Base.{
  ℕ, zero, suc, ◌+◌, List, [], ◌∷◌, ◌++◌, Option, none, some, ◌≡◌, ◌≢◌, refl, arith, length,
}
use ros2_client.Base.Int.{ℤ, pos, negsuc, ◌+ℤ◌, wrap_i64}
use ros2_client.Base.Text.{codes}
use ros2_client.Base.Ordered.{get, insert, remove}
use ros2_client.Base.Results.{Result, ok, err}
use ros2_client.Zenoh.Wire.{
  Bytes, BodyCodec, IsBodyCodec, to_cdr, from_cdr, from_zbytes, Serializer, IsGid, IsSerializer,
}
use ros2_client.Zenoh.Service.{
  RmwRequestId, unknown_request, key_of, request_key, Query, Server, accept, send_response, Client,
  new_client, call, as_it_is,
}
use ros2_client.Zenoh.Service.Laws.{session, call_served}
use ros2_client.Zenoh.Service.Pending.{Op, receives, responds, run, send_response_once}

abbrev number_of : Bytes → Result (ℕ × ℕ) (Unit {0})
number_of [] = err tt
number_of (n ∷ rest) = ok (n, 1)

abbrev pub number : BodyCodec ℕ (Unit {0})
number = record { to_vec = λ n. ok (n ∷ []); from_bytes_le = number_of; from_bytes_be = number_of }

pub number-IsBodyCodec : IsBodyCodec number
number-IsBodyCodec m [] h = absurd cc
number-IsBodyCodec m (b ∷ rest) h = (1, cc)

abbrev pub read_int : Bytes → Option (ℤ × Bytes)
read_int (zero ∷ n ∷ rest) = some (pos n, rest)
read_int (suc k ∷ n ∷ rest) = some (negsuc n, rest)
read_int _ = none

abbrev pub write_int : ℤ → Bytes
write_int (pos n) = 0 ∷ n ∷ []
write_int (negsuc n) = 1 ∷ n ∷ []

abbrev cons_left : ℕ → Option (Bytes × Bytes) → Option (Bytes × Bytes)
cons_left b none = none
cons_left b (some (g, rest)) = some (b ∷ g, rest)

abbrev read_bytes : ℕ → Bytes → Option (Bytes × Bytes)
read_bytes zero b = some ([], b)
read_bytes (suc n) [] = none
read_bytes (suc n) (b ∷ rest) = cons_left b (read_bytes n rest)

read_bytes-append : (g rest : Bytes) → read_bytes (length g) (g ++ rest) ≡ some (g, rest)
read_bytes-append [] rest = refl
read_bytes-append (b ∷ g) rest = rw (read_bytes-append g rest) refl

abbrev pub serializer : Serializer
serializer = record {
  write_int = write_int;
  write_gid = λ g. g;
  read_int = read_int;
  read_gid = read_bytes 16;
}

read_int-write_int : (x : ℤ) (rest : Bytes) → read_int (write_int x ++ rest) ≡ some (x, rest)
read_int-write_int (pos n) rest = refl
read_int-write_int (negsuc n) rest = refl

pub serializer-IsSerializer : IsSerializer serializer
serializer-IsSerializer = record {
  int = λ x rest h. read_int-write_int x rest;
  gid = λ g rest h. rw h.0 at (read_bytes-append g rest);
}

abbrev pub gid : Bytes
gid = 1 ∷ 2 ∷ 3 ∷ 4 ∷ 5 ∷ 6 ∷ 7 ∷ 8 ∷ 9 ∷ 10 ∷ 11 ∷ 12 ∷ 13 ∷ 14 ∷ 15 ∷ 255 ∷ []

pub gid-IsGid : IsGid gid
gid-IsGid = ground arith

abbrev id : RmwRequestId
id = record { writer_gid = gid; sequence_number = pos 1 }

abbrev empty_server : Server
empty_server = record { pending = []; sent = [] }

call_served_example :
    let c' : Client = record { seq = wrap_i64 (pos 0 +ℤ pos 1); client_gid = gid } in
    (call serializer {Z = Unit {0}} number number
        (session serializer
          (Unit {0})
          (λ n. n + n)
          (to_cdr number)
          (from_cdr number)
          (codes "0/double"))
        (pos 9)
        21
        (new_client gid)
      ≡ (c', ok 42))
    × (call serializer {Z = Unit {0}} number number
          (session serializer {E = Unit {0}}
            (Unit {0})
            (λ p. 0 ∷ 1 ∷ 0 ∷ 0 ∷ 42 ∷ [])
            as_it_is
            as_it_is
            (codes "0/double"))
          (pos 9)
          21
          (new_client gid)
        ≡ (c', ok 42))
unfolding to_cdr
call_served_example =
    call_served serializer serializer-IsSerializer number number (λ n. n + n)
      (λ p. 0 ∷ 1 ∷ 0 ∷ 0 ∷ 42 ∷ []) (codes "0/double") (pos 9) 21 (new_client gid)
      (0 ∷ 1 ∷ 0 ∷ 0 ∷ 21 ∷ []) (0 ∷ 1 ∷ 0 ∷ 0 ∷ 42 ∷ []) number-IsBodyCodec number-IsBodyCodec
      (omega arith, omega arith) gid-IsGid refl refl refl

send_response_once_example :
    let s =
      (send_response serializer {E = Unit {0}} {Z = Unit {0}}
        (λ r. none)
        (pos 9)
        id
        (ok [])
        empty_server).0 in
    (send_response serializer {E = Unit {0}} {Z = Unit {0}} (λ r. none) (pos 10) id (ok []) s
      ≡ (s, err unknown_request))
    × ((j : RmwRequestId)
        → IsGid gid
        → IsGid j.writer_gid
        → j ≢ id
        → get (key_of j) s.pending ≡ get (key_of j) [])
send_response_once_example =
    send_response_once serializer (λ r. none) (pos 9) (pos 10) id (ok []) (ok []) empty_server

abbrev query : Query
query = record {
  key_expr = codes "0/double";
  payload = some (0 ∷ 1 ∷ 0 ∷ 0 ∷ 21 ∷ []);
  attachment = some (0 ∷ 1 ∷ 0 ∷ 9 ∷ gid);
}

abbrev response : Op (Unit {0}) (Unit {0})
response = responds (λ r. none) (pos 9) id (ok (0 ∷ 1 ∷ 0 ∷ 0 ∷ 42 ∷ []))

abbrev ops : List (Op (Unit {0}) (Unit {0}))
ops = receives query ∷ response ∷ response ∷ []

-- The second response is not sent.
run-ops : length (run serializer (Unit {0}) (from_cdr number) empty_server ops).sent ≡ 1
unfolding accept send_response from_zbytes from_cdr insert get remove
run-ops = refl
