-- ===== src/Protocol/Bytes.antt =====
-- common/protocol/PacketHeader.cpp, the integers in network order. `htons` and `htonl` followed
-- by a copy of the bytes is the most significant byte first.
use nebula_im.Base.{ℕ, ◌+◌, ◌*◌, ◌/◌, ◌%◌, ◌^◌, ◌<◌, ◌≡◌, List, ◌∷◌, arith}

abbrev pub append_uint16 : ℕ → List ℕ → List ℕ
append_uint16 v rest = v / 2 ^ 8 % 256 ∷ v % 256 ∷ rest

abbrev pub append_uint32 : ℕ → List ℕ → List ℕ
append_uint32 v rest = v / 2 ^ 24 % 256 ∷ v / 2 ^ 16 % 256 ∷ v / 2 ^ 8 % 256 ∷ v % 256 ∷ rest

abbrev pub read_uint16 : ℕ → ℕ → ℕ
read_uint16 a b = a * 2 ^ 8 + b

abbrev pub read_uint32 : ℕ → ℕ → ℕ → ℕ → ℕ
read_uint32 a b c d = a * 2 ^ 24 + b * 2 ^ 16 + c * 2 ^ 8 + d

pub read-append_uint16 : (v : ℕ) → v < 2 ^ 16 → read_uint16 (v / 2 ^ 8 % 256) (v % 256) ≡ v
read-append_uint16 v h = omega arith

pub read-append_uint32 :
    (v : ℕ)
    → v < 2 ^ 32
    → read_uint32 (v / 2 ^ 24 % 256) (v / 2 ^ 16 % 256) (v / 2 ^ 8 % 256) (v % 256) ≡ v
read-append_uint32 v h = omega arith

pub append-read_uint16 :
    (a b : ℕ) (rest : List ℕ)
    → a < 256
    → b < 256
    → append_uint16 (read_uint16 a b) rest ≡ a ∷ b ∷ rest
append-read_uint16 a b rest h k = ground arith

pub append-read_uint32 :
    (a b c d : ℕ) (rest : List ℕ)
    → a < 256
    → b < 256
    → c < 256
    → d < 256
    → append_uint32 (read_uint32 a b c d) rest ≡ a ∷ b ∷ c ∷ d ∷ rest
append-read_uint32 a b c d rest ha hb hc hd = ground arith
