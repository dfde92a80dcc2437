-- ===== src/Protocol/Wire.antt =====
-- common/protocol/Codec.cpp, the big-endian helpers.
use log_transfer_analyzer.Prelude.{
  ℕ, zero, suc, ◌+◌, ◌*◌, ◌/◌, ◌%◌, ◌^◌, ◌≤◌, ◌<◌, ◌≡◌, refl, sym, ap, ap₂, ◌∙◌, [], ◌∷◌, ◌++◌,
  get_or, length, append-nil, append_assoc, Bytes, arith,
}
use native.Mathlib.Nat.{div-div-eq-div-mul, mod-eq_of_lt}
use native.Mathlib.Numerals.{towards_suc}
use log_transfer_analyzer.Prelude.Bits.{bit_or, bit_or_disjoint}

-- `putU16`.
unfoldable pub put_u16 : Bytes → ℕ → Bytes
put_u16 out v = out ++ (v / 2 ^ 8 % 256 ∷ v % 256 ∷ [])

-- The loop of `putU32` and `putU64`: `n` bytes are left, and `shift` is `8 * (n - 1)`.
unfoldable pub put_shifts : ℕ → Bytes → ℕ → Bytes
put_shifts zero out v = out
put_shifts (suc n) out v = put_shifts n (out ++ (v / 2 ^ (8 * n) % 256 ∷ [])) v

unfoldable pub put_u32 : Bytes → ℕ → Bytes
put_u32 out v = put_shifts 4 out v

unfoldable pub put_u64 : Bytes → ℕ → Bytes
put_u64 out v = put_shifts 8 out v

-- `byteAt`. The callers check the length first; 0 stands for a read out of range.
abbrev pub byte_at : Bytes → ℕ → ℕ
byte_at buf off = get_or buf off 0

-- `getU16`.
unfoldable pub get_u16 : Bytes → ℕ → ℕ
get_u16 buf off = bit_or (byte_at buf off * 2 ^ 8) (byte_at buf (off + 1)) % 2 ^ 16

-- The loop of `getU32` and `getU64` in a word of `width` bits, with `n` bytes left.
unfoldable pub get_bytes : ℕ → ℕ → ℕ → Bytes → ℕ → ℕ
get_bytes width zero v buf off = v
get_bytes width (suc n) v buf off =
    get_bytes width n (bit_or (v * 2 ^ 8 % 2 ^ width) (byte_at buf off)) buf (off + 1)

unfoldable pub get_u32 : Bytes → ℕ → ℕ
get_u32 buf off = get_bytes 32 4 0 buf off

unfoldable pub get_u64 : Bytes → ℕ → ℕ
get_u64 buf off = get_bytes 64 8 0 buf off

-- What `put_shifts` appends.
unfoldable pub big_endian : ℕ → ℕ → Bytes
big_endian zero v = []
big_endian (suc n) v = v / 2 ^ (8 * n) % 256 ∷ big_endian n v

pub put_shifts-big_endian :
    (n : ℕ) (out : Bytes) (v : ℕ) → put_shifts n out v ≡ out ++ big_endian n v
unfolding put_shifts big_endian
put_shifts-big_endian zero out v = sym (append-nil out)
put_shifts-big_endian (suc n) out v =
    put_shifts-big_endian n (out ++ (v / 2 ^ (8 * n) % 256 ∷ [])) v
    ∙ append_assoc out (v / 2 ^ (8 * n) % 256 ∷ []) (big_endian n v)

pub put_u64-big_endian : (out : Bytes) (v : ℕ) → put_u64 out v ≡ out ++ big_endian 8 v
unfolding put_u64
put_u64-big_endian out v = put_shifts-big_endian 8 out v

pub put_u32-big_endian : (out : Bytes) (v : ℕ) → put_u32 out v ≡ out ++ big_endian 4 v
unfolding put_u32
put_u32-big_endian out v = put_shifts-big_endian 4 out v

pub length-big_endian : (n v : ℕ) → length (big_endian n v) ≡ n
unfolding big_endian
length-big_endian zero v = refl
length-big_endian (suc n) v = ap suc (length-big_endian n v)

-- Reading past a front of known length.
get_bytes-cons :
    (n width v x off : ℕ) (rest : Bytes)
    → get_bytes width n v (x ∷ rest) (suc off) ≡ get_bytes width n v rest off
unfolding get_bytes
get_bytes-cons zero width v x off rest = refl
get_bytes-cons (suc n) width v x off rest =
    ap (get_bytes width n _ (x ∷ rest)) (omega arith)
    ∙ get_bytes-cons n width (bit_or (v * 2 ^ 8 % 2 ^ width) (byte_at rest off)) x (off + 1) rest

pub get_bytes-skip :
    (front : Bytes) (width n v off : ℕ) (rest : Bytes)
    → get_bytes width n v (front ++ rest) (length front + off) ≡ get_bytes width n v rest off
get_bytes-skip [] width n v off rest = ap (get_bytes width n v rest) (omega arith)
get_bytes-skip (x ∷ front) width n v off rest =
    ap (get_bytes width n v (x ∷ (front ++ rest))) (omega arith)
    ∙ get_bytes-cons n width v x (length front + off) (front ++ rest)
    ∙ get_bytes-skip front width n v off rest

eight_more : (n : ℕ) → 2 ^ (8 * suc n) ≡ 2 ^ (8 * n) * 256
eight_more n =
    let more : 8 * suc n ≡ 8 * n + 8 = omega arith in ap (◌^◌ 2) more ∙ plus_eight (8 * n)
  where
    plus_eight : (m : ℕ) → 2 ^ (m + 8) ≡ 2 ^ m * 256
    plus_eight m = simp towards_suc (omega arith)

-- One byte shifted into a word that holds the bytes above it.
shift_in :
    (width n v : ℕ)
    → v < 2 ^ width
    → bit_or (v / 2 ^ (8 * suc n) * 2 ^ 8 % 2 ^ width) (v / 2 ^ (8 * n) % 256) ≡ v / 2 ^ (8 * n)
shift_in width n v h =
    let w = v / 2 ^ (8 * n) in
    let high : v / 2 ^ (8 * suc n) ≡ w / 256 =
      ap (λ d. v / d) (eight_more n) ∙ sym (div-div-eq-div-mul v (2 ^ (8 * n)) 256) in
    let small : w ≤ v = omega arith in
    let fits : w / 256 * 256 % 2 ^ width ≡ w / 256 * 256 = mod-eq_of_lt (omega arith) in
    rw (high, fits) (bit_or_disjoint 8 (w / 256) (w % 256) (omega arith) ∙ omega arith)

-- `n` bytes read onto the high part of a word give the word back.
pub get_bytes-big_endian :
    (n width v : ℕ) (rest : Bytes)
    → v < 2 ^ width
    → get_bytes width n (v / 2 ^ (8 * n)) (big_endian n v ++ rest) 0 ≡ v
unfolding get_bytes big_endian
get_bytes-big_endian zero width v rest h = omega arith
get_bytes-big_endian (suc n) width v rest h = rw (shift_in width n v h) (
    get_bytes-cons n width (v / 2 ^ (8 * n)) _ 0 (big_endian n v ++ rest)
    ∙ get_bytes-big_endian n width v rest h)

at_front :
    (n width : ℕ) (front : Bytes) (off v : ℕ) (rest : Bytes)
    → v / 2 ^ (8 * n) ≡ 0
    → v < 2 ^ width
    → length front ≡ off
    → get_bytes width n 0 (front ++ (big_endian n v ++ rest)) off ≡ v
at_front n width front off v rest none_above h e =
    let place : off ≡ length front + 0 = omega arith in
    rw place (
      get_bytes-skip front width n 0 0 (big_endian n v ++ rest)
      ∙ ap (λ high. get_bytes width n high (big_endian n v ++ rest) 0) (sym none_above)
      ∙ get_bytes-big_endian n width v rest h)

byte_at-skip :
    (front : Bytes) (off : ℕ) (rest : Bytes)
    → byte_at (front ++ rest) (length front + off) ≡ byte_at rest off
byte_at-skip [] off rest = ap (byte_at rest) (omega arith)
byte_at-skip (x ∷ front) off rest =
    let place : length (x ∷ front) + off ≡ suc (length front + off) = omega arith in
    ap (byte_at (x ∷ (front ++ rest))) place ∙ byte_at-skip front off rest

-- The three readers at the front of a buffer.
pub get_u64-big_endian :
    (front : Bytes) (off v : ℕ) (rest : Bytes)
    → v < 2 ^ 64
    → length front ≡ off
    → get_u64 (front ++ (big_endian 8 v ++ rest)) off ≡ v
unfolding get_u64
get_u64-big_endian front off v rest h e = at_front 8 64 front off v rest (omega arith) h e

pub get_u32-big_endian :
    (front : Bytes) (off v : ℕ) (rest : Bytes)
    → v < 2 ^ 32
    → length front ≡ off
    → get_u32 (front ++ (big_endian 4 v ++ rest)) off ≡ v
unfolding get_u32
get_u32-big_endian front off v rest h e = at_front 4 32 front off v rest (omega arith) h e

pub get_u16-pair :
    (front : Bytes) (off v : ℕ) (rest : Bytes)
    → v < 2 ^ 16
    → length front ≡ off
    → get_u16 (front ++ (v / 2 ^ 8 % 256 ∷ v % 256 ∷ rest)) off ≡ v
unfolding get_u16
get_u16-pair front off v rest h e =
    let first : off ≡ length front + 0 = omega arith in
    let second : off + 1 ≡ length front + 1 = omega arith in
    let pair = v / 2 ^ 8 % 256 ∷ v % 256 ∷ rest in
    ap₂ (λ i j. bit_or (byte_at (front ++ pair) i * 2 ^ 8) (byte_at (front ++ pair) j) % 2 ^ 16)
      first second
    ∙ ap₂ (λ x y. bit_or (x * 2 ^ 8) y % 2 ^ 16) (byte_at-skip front 0 pair)
        (byte_at-skip front 1 pair)
    ∙ ap (λ w. w % 2 ^ 16) (bit_or_disjoint 8 (v / 2 ^ 8 % 256) (v % 256) (omega arith))
    ∙ omega arith
