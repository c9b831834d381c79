-- ===== src/Net/Bytes.antt =====
-- Packets as lists of bytes, and the byte order helpers of src/net/ethernet.cpp. The kernel runs on
-- x86_64, so a field of a packed header is stored with its low byte first.
use uni_os.Prelude.{ℕ, ◌+◌, ◌*◌, ◌/◌, ◌%◌, ◌^◌, ◌<◌, ◌≡◌, List, arith, get_or}

-- `(value & 0xFF) << 8` and `(value >> 8) & 0xFF` share no bit, so `|` adds them.
unfoldable pub htons : ℕ → ℕ
htons value = value % 256 * 256 + value / 256 % 256

unfoldable pub ntohs : ℕ → ℕ
unfolding htons
ntohs value = htons value

unfoldable pub htonl : ℕ → ℕ
htonl value =
    value % 256 * 2 ^ 24
    + value / 256 % 256 * 2 ^ 16
    + value / 2 ^ 16 % 256 * 256
    + value / 2 ^ 24 % 256

unfoldable pub ntohl : ℕ → ℕ
unfolding htonl
ntohl value = htonl value

-- Converting to network order and back gives the value again.
pub ntoh-hton : (s l : ℕ) → s < 2 ^ 16 → l < 2 ^ 32 → (ntohs (htons s) ≡ s) × (ntohl (htonl l) ≡ l)
unfolding ntohs ntohl
ntoh-hton s l hs hl = omega arith

-- A field at an offset of a packet.
abbrev pub byte_at : List ℕ → ℕ → ℕ
byte_at d i = get_or d i 0

abbrev pub u16_at : List ℕ → ℕ → ℕ
u16_at d i = byte_at d i + byte_at d (i + 1) * 256

abbrev pub u32_at : List ℕ → ℕ → ℕ
u32_at d i =
    byte_at d i + byte_at d (i + 1) * 256 + byte_at d (i + 2) * 2 ^ 16 + byte_at d (i + 3) * 2 ^ 24

-- The bytes of a field, low byte first.
abbrev pub byte0 : ℕ → ℕ
byte0 v = v % 256

abbrev pub byte1 : ℕ → ℕ
byte1 v = v / 256 % 256

abbrev pub byte2 : ℕ → ℕ
byte2 v = v / 2 ^ 16 % 256

abbrev pub byte3 : ℕ → ℕ
byte3 v = v / 2 ^ 24 % 256

pub join16 : (v : ℕ) → v < 2 ^ 16 → byte0 v + byte1 v * 256 ≡ v
join16 v h = omega arith

pub join32 :
    (v : ℕ) → v < 2 ^ 32 → byte0 v + byte1 v * 256 + byte2 v * 2 ^ 16 + byte3 v * 2 ^ 24 ≡ v
join32 v h = omega arith

pub htons-lt : (v : ℕ) → htons v < 2 ^ 16
unfolding htons
htons-lt v = omega arith

pub ntohs-htons : (v : ℕ) → v < 2 ^ 16 → ntohs (htons v) ≡ v
unfolding ntohs
ntohs-htons v h = omega arith
