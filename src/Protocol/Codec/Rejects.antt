-- ===== src/Protocol/Codec/Rejects.antt =====
-- What a decoder lets through, from any peer.
use log_transfer_analyzer.Prelude.{
  ◌≤◌, ◌<◌, ◌≡◌, ◌+◌, ℕ, zero, suc, refl, sym, ap, ◌∙◌, true, length, length-take, take, drop, [],
  ◌∷◌, All, Bytes, arith,
}
use log_transfer_analyzer.Protocol.{
  MessageType, type_code, upload_header, result_request, UploadHeader, ResultRequest, max_file_size,
  max_csv_size,
}
use log_transfer_analyzer.Protocol.Wire.{get_u16}
use log_transfer_analyzer.Protocol.Codec.{
  ok, err, Decoded, is_magic, check_preamble, no_forbidden, is_valid_filename, decode_upload_header,
  decode_result_request,
}

-- A decoded value, if there is one, has a property.
abbrev pub Holds {ℓ κ} : {A : Type ℓ} → (A → Type κ) → Decoded A → Type κ
Holds P (ok a) = P a
Holds P (err e) = Unit

Holds-ok {ℓ κ} : {A : Type ℓ} (P : A → Type κ) (d : Decoded A) (a : A) → Holds P d → d ≡ ok a → P a
Holds-ok P d a h e = rw e at h

-- The bytes start with the magic number, the version and the type.
abbrev pub IsStamped : ℕ → Bytes → Type 0
IsStamped code b = take 6 b ≡ 0x42 ∷ 0x59 ∷ 0x44 ∷ 0x41 ∷ 1 ∷ code ∷ []

-- No control character and no separator of paths.
abbrev pub IsPlain : ℕ → Type 0
IsPlain c = (0x1F < c) × (c ≡ 0x7F → ⊥) × (c ≡ b'/' → ⊥) × (c ≡ b'\\' → ⊥)

abbrev pub IsName : Bytes → Type 0
IsName name = (0 < length name) × (length name ≤ 255) × All IsPlain name

check_preamble-IsStamped :
    (b : Bytes) (type : MessageType) → check_preamble b type ≡ ok tt → IsStamped (type_code type) b
unfolding check_preamble is_magic
check_preamble-IsStamped [] type e = absurd (ground (arith, e))
check_preamble-IsStamped (b0 ∷ []) type e = absurd (ground (arith, e))
check_preamble-IsStamped (b0 ∷ b1 ∷ []) type e = absurd (ground (arith, e))
check_preamble-IsStamped (b0 ∷ b1 ∷ b2 ∷ []) type e = absurd (ground (arith, e))
check_preamble-IsStamped (b0 ∷ b1 ∷ b2 ∷ b3 ∷ []) type e = absurd (ground (arith, e))
check_preamble-IsStamped (b0 ∷ b1 ∷ b2 ∷ b3 ∷ b4 ∷ []) type e = absurd (ground (arith, e))
check_preamble-IsStamped (b0 ∷ b1 ∷ b2 ∷ b3 ∷ b4 ∷ b5 ∷ b) type e =
    let e0 : b0 ≡ 0x42 = ground (arith, e) in
    let e1 : b1 ≡ 0x59 = ground (arith, e) in
    let e2 : b2 ≡ 0x44 = ground (arith, e) in
    let e3 : b3 ≡ 0x41 = ground (arith, e) in
    let e4 : b4 ≡ 1 = ground (arith, e) in
    let e5 : b5 ≡ type_code type = ground (arith, e) in
    λ i. e0 i ∷ e1 i ∷ e2 i ∷ e3 i ∷ e4 i ∷ e5 i ∷ []

no_forbidden-IsPlain : (name : Bytes) → no_forbidden name ≡ true → All IsPlain name
unfolding no_forbidden
no_forbidden-IsPlain [] e = tt
no_forbidden-IsPlain (c ∷ name) e =
    let rest : no_forbidden name ≡ true = ground (arith, e) in
    let printable : 0x1F < c = ground (arith, e) in
    (
      (printable, λ k. ground (arith, e, k), λ k. ground (arith, e, k), λ k. ground (arith, e, k)),
      no_forbidden-IsPlain name rest,
    )

is_valid_filename-IsName : (name : Bytes) → is_valid_filename name ≡ true → IsName name
unfolding is_valid_filename
is_valid_filename-IsName name e =
    (ground (arith, e), ground (arith, e), no_forbidden-IsPlain name (ground (arith, e)))

-- What the guards of the decoder leave, with the name as the bytes have it.
abbrev GuardedHeader : Bytes → UploadHeader → Type 0
GuardedHeader b h =
    (check_preamble b upload_header ≡ ok tt)
    × (h.file_size ≤ max_file_size)
    × (is_valid_filename h.filename ≡ true)
    × (18 + length h.filename ≤ length b)
    × (h.filename ≡ take (get_u16 b 16) (drop 18 b))

decode_upload_header-Holds : (b : Bytes) → Holds (GuardedHeader b) (decode_upload_header b)
unfolding decode_upload_header
decode_upload_header-Holds b = ground (arith, length-take (get_u16 b 16) (drop 18 b))

take-length-take : (n : ℕ) (xs : Bytes) → take (length (take n xs)) xs ≡ take n xs
take-length-take zero xs = refl
take-length-take (suc n) [] = refl
take-length-take (suc n) (x ∷ xs) = ap (λ ys. x ∷ ys) (take-length-take n xs)

-- A part of the bytes is the part of its own length.
part_of : (n : ℕ) (name xs : Bytes) → name ≡ take n xs → name ≡ take (length name) xs
part_of n name xs e = e ∙ sym (take-length-take n xs) ∙ ap (λ part. take (length part) xs) (sym e)

-- Bytes from which an upload header is decoded start with the magic number, the version and the type;
-- they hold the name of the header behind the fixed part; the name has 1 to 255 bytes, none of them a
-- control character, a slash or a backslash; and the size is at most the limit.
pub decode_upload_header-ok :
    (b : Bytes) (h : UploadHeader)
    → decode_upload_header b ≡ ok h
    → IsStamped 1 b
      × (18 + length h.filename ≤ length b)
      × (h.filename ≡ take (length h.filename) (drop 18 b))
      × IsName h.filename
      × (h.file_size ≤ max_file_size)
decode_upload_header-ok b h e =
    let (stamp, size, name, long, there) =
      Holds-ok (GuardedHeader b) _ h (decode_upload_header-Holds b) e in
    (
      check_preamble-IsStamped b upload_header stamp,
      long,
      part_of (get_u16 b 16) h.filename (drop 18 b) there,
      is_valid_filename-IsName h.filename name,
      size,
    )

abbrev GuardedRequest : Bytes → ResultRequest → Type 0
GuardedRequest b r =
    (check_preamble b result_request ≡ ok tt)
    × (r.file_size ≤ max_file_size)
    × (r.start_offset ≤ max_csv_size)
    × (is_valid_filename r.filename ≡ true)
    × (30 + length r.filename ≤ length b)
    × (r.filename ≡ take (get_u16 b 28) (drop 30 b))

decode_result_request-Holds : (b : Bytes) → Holds (GuardedRequest b) (decode_result_request b)
unfolding decode_result_request
decode_result_request-Holds b = ground (arith, length-take (get_u16 b 28) (drop 30 b))

-- Bytes from which a result request is decoded start with the magic number, the version and the type;
-- they hold the name of the request behind the fixed part; the name has 1 to 255 bytes, none of them
-- a control character, a slash or a backslash; and the size and the offset are at most their limits.
pub decode_result_request-ok :
    (b : Bytes) (r : ResultRequest)
    → decode_result_request b ≡ ok r
    → IsStamped 7 b
      × (30 + length r.filename ≤ length b)
      × (r.filename ≡ take (length r.filename) (drop 30 b))
      × IsName r.filename
      × (r.file_size ≤ max_file_size)
      × (r.start_offset ≤ max_csv_size)
decode_result_request-ok b r e =
    let (stamp, size, offset, name, long, there) =
      Holds-ok (GuardedRequest b) _ r (decode_result_request-Holds b) e in
    (
      check_preamble-IsStamped b result_request stamp,
      long,
      part_of (get_u16 b 28) r.filename (drop 30 b) there,
      is_valid_filename-IsName r.filename name,
      size,
      offset,
    )
