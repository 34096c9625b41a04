-- ===== src/Sha.antt =====
-- crypto/sha256 (FIPS 180-4) and encoding/hex, on lists of bytes and of 32-bit words.
use Prim.Native.Nat.{bit_and, bit_xor}
use distributed_p2p_ledger.Base.{
  ℕ, zero, suc, ◌+◌, ◌-◌, ◌*◌, ◌/◌, ◌%◌, ◌^◌, ◌≡◌, refl, List, [], ◌∷◌, ◌++◌, Bytes, codes, length,
  replicate, ltb, if◌then◌else◌, arith,
}

abbrev word : ℕ → ℕ
word x = x % 2 ^ 32

-- A rotation to the right of a 32-bit word; `2 ^ (32 - n)` moves the low bits to the top.
rotate : ℕ → ℕ → ℕ
rotate n x = x / 2 ^ n + x % 2 ^ n * 2 ^ (32 - n)

shift : ℕ → ℕ → ℕ
shift n x = x / 2 ^ n

xor3 : ℕ → ℕ → ℕ → ℕ
xor3 a b c = bit_xor a (bit_xor b c)

round_constants : List ℕ
round_constants =
    0x428a2f98 ∷ 0x71374491 ∷ 0xb5c0fbcf ∷ 0xe9b5dba5 ∷ 0x3956c25b ∷ 0x59f111f1 ∷ 0x923f82a4
    ∷ 0xab1c5ed5 ∷ 0xd807aa98 ∷ 0x12835b01 ∷ 0x243185be ∷ 0x550c7dc3 ∷ 0x72be5d74 ∷ 0x80deb1fe
    ∷ 0x9bdc06a7 ∷ 0xc19bf174 ∷ 0xe49b69c1 ∷ 0xefbe4786 ∷ 0x0fc19dc6 ∷ 0x240ca1cc ∷ 0x2de92c6f
    ∷ 0x4a7484aa ∷ 0x5cb0a9dc ∷ 0x76f988da ∷ 0x983e5152 ∷ 0xa831c66d ∷ 0xb00327c8 ∷ 0xbf597fc7
    ∷ 0xc6e00bf3 ∷ 0xd5a79147 ∷ 0x06ca6351 ∷ 0x14292967 ∷ 0x27b70a85 ∷ 0x2e1b2138 ∷ 0x4d2c6dfc
    ∷ 0x53380d13 ∷ 0x650a7354 ∷ 0x766a0abb ∷ 0x81c2c92e ∷ 0x92722c85 ∷ 0xa2bfe8a1 ∷ 0xa81a664b
    ∷ 0xc24b8b70 ∷ 0xc76c51a3 ∷ 0xd192e819 ∷ 0xd6990624 ∷ 0xf40e3585 ∷ 0x106aa070 ∷ 0x19a4c116
    ∷ 0x1e376c08 ∷ 0x2748774c ∷ 0x34b0bcb5 ∷ 0x391c0cb3 ∷ 0x4ed8aa4a ∷ 0x5b9cca4f ∷ 0x682e6ff3
    ∷ 0x748f82ee ∷ 0x78a5636f ∷ 0x84c87814 ∷ 0x8cc70208 ∷ 0x90befffa ∷ 0xa4506ceb ∷ 0xbef9a3f7
    ∷ 0xc67178f2 ∷ []

record Hash : Type 0 where
  a : ℕ
  b : ℕ
  c : ℕ
  d : ℕ
  e : ℕ
  f : ℕ
  g : ℕ
  h : ℕ

initial : Hash
initial = record {
  a = 0x6a09e667;
  b = 0xbb67ae85;
  c = 0x3c6ef372;
  d = 0xa54ff53a;
  e = 0x510e527f;
  f = 0x9b05688c;
  g = 0x1f83d9ab;
  h = 0x5be0cd19;
}

-- One of the 64 rounds, with its constant and its word of the schedule.
round : ℕ → ℕ → Hash → Hash
unfolding rotate xor3
round k w s =
    let s1 = xor3 (rotate 6 s.e) (rotate 11 s.e) (rotate 25 s.e) in
    let choice = bit_xor (bit_and s.e s.f) (bit_and (2 ^ 32 - 1 - s.e) s.g) in
    let t1 = s.h + s1 + choice + k + w in
    let s0 = xor3 (rotate 2 s.a) (rotate 13 s.a) (rotate 22 s.a) in
    let majority = xor3 (bit_and s.a s.b) (bit_and s.a s.c) (bit_and s.b s.c) in
    record {
      a = word (t1 + s0 + majority);
      b = s.a;
      c = s.b;
      d = s.c;
      e = word (s.d + t1);
      f = s.e;
      g = s.f;
      h = s.g;
    }

-- The next word of the schedule from the sixteen before it, the oldest first.
next_word : List ℕ → ℕ
unfolding rotate shift xor3
next_word
      (w0 ∷ w1 ∷ w2 ∷ w3 ∷ w4 ∷ w5 ∷ w6 ∷ w7 ∷ w8 ∷ w9 ∷ w10 ∷ w11 ∷ w12 ∷ w13 ∷ w14 ∷ w15 ∷ []) =
    word (
      w0
      + xor3 (rotate 7 w1) (rotate 18 w1) (shift 3 w1)
      + w9
      + xor3 (rotate 17 w14) (rotate 19 w14) (shift 10 w14))
next_word _ = 0

-- The rounds: the window holds the next sixteen words of the schedule.
rounds : List ℕ → List ℕ → Hash → Hash
unfolding round next_word
rounds [] window s = s
rounds (k ∷ ks) [] s = s
rounds (k ∷ ks) (w ∷ window) s = rounds ks (window ++ next_word (w ∷ window) ∷ []) (round k w s)

compress : List ℕ → Hash → Hash
unfolding rounds round_constants
compress block s =
    let t = rounds round_constants block s in
    record {
      a = word (s.a + t.a);
      b = word (s.b + t.b);
      c = word (s.c + t.c);
      d = word (s.d + t.d);
      e = word (s.e + t.e);
      f = word (s.f + t.f);
      g = word (s.g + t.g);
      h = word (s.h + t.h);
    }

-- Big-endian words of four bytes.
words : Bytes → List ℕ
words (p ∷ q ∷ r ∷ s ∷ rest) = (p * 2 ^ 24 + q * 2 ^ 16 + r * 2 ^ 8 + s) ∷ words rest
words _ = []

-- `x` in `n` bytes, the most significant first.
big_endian : ℕ → ℕ → Bytes
big_endian zero x = []
big_endian (suc n) x = (x / 2 ^ (8 * n) % 256) ∷ big_endian n x

-- The padded message: a bit 1, zeros up to 56 modulo 64 bytes, and the length in bits.
pad : Bytes → Bytes
unfolding big_endian
pad m = m ++ 0x80 ∷ (replicate ((119 - length m % 64) % 64) 0 ++ big_endian 8 (length m * 8))

-- The sixteen words of each block in turn.
blocks : List ℕ → Hash → Hash
unfolding compress
blocks (w0 ∷ w1 ∷ w2 ∷ w3 ∷ w4 ∷ w5 ∷ w6 ∷ w7 ∷ w8 ∷ w9 ∷ w10 ∷ w11 ∷ w12 ∷ w13 ∷ w14 ∷ w15 ∷ rest)
      s =
    let block =
      w0 ∷ w1 ∷ w2 ∷ w3 ∷ w4 ∷ w5 ∷ w6 ∷ w7 ∷ w8 ∷ w9 ∷ w10 ∷ w11 ∷ w12 ∷ w13 ∷ w14 ∷ w15 ∷ [] in
    blocks rest (compress block s)
blocks _ s = s

bytes_of : Hash → Bytes
unfolding big_endian
bytes_of s =
    big_endian 4 s.a
    ++ big_endian 4 s.b
    ++ big_endian 4 s.c
    ++ big_endian 4 s.d
    ++ big_endian 4 s.e
    ++ big_endian 4 s.f
    ++ big_endian 4 s.g
    ++ big_endian 4 s.h

-- sha256.Sum256
unfoldable pub sum256 : Bytes → Bytes
unfolding bytes_of blocks words pad initial
sum256 m = bytes_of (blocks (words (pad m)) initial)

abbrev pub hex_digit : ℕ → ℕ
hex_digit d = if ltb d 10 then b'0' + d else b'a' + (d - 10)

-- hex.EncodeToString
unfoldable pub encode_to_string : Bytes → Bytes
encode_to_string [] = []
encode_to_string (c ∷ s) = hex_digit (c / 16) ∷ hex_digit (c % 16) ∷ encode_to_string s

pub length-sum256 : (m : Bytes) → length (sum256 m) ≡ 32
unfolding bytes_of sum256 big_endian
length-sum256 m = refl

pub length-encode_to_string : (s : Bytes) → length (encode_to_string s) ≡ 2 * length s
unfolding encode_to_string
length-encode_to_string [] = refl
length-encode_to_string (c ∷ s) = omega (arith, length-encode_to_string s)

abc :
    encode_to_string (sum256 (codes "abc"))
    ≡ codes "ba7816bf8f01cfea414140de5dae2223b00361a396177a9cb410ff61f20015ad"
unfolding encode_to_string sum256
abc = refl
