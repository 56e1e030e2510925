-- ===== src/Platform.antt =====
-- What the program calls and does not implement: the byte order of arpa/inet.h, SHA-256 of
-- QCryptographicHash, and the two address converters. Each is a parameter with documented laws.
use connecttool_qt.Base.{ℕ, ◌^◌, ◌<◌, ◌≡◌, List, All, length}

pub record Platform : Type 0 where
  pub htons : ℕ → ℕ
  pub ntohs : ℕ → ℕ
  pub htonl : ℕ → ℕ
  pub ntohl : ℕ → ℕ
  pub sha256 : List ℕ → List ℕ

-- The documented behaviour: the conversions are inverse on their width and stay in it, and a
-- digest has 32 bytes.
pub record IsPlatform (p : Platform) : Type 0 where
  pub htons-lt : (x : ℕ) → x < 2 ^ 16 → p.htons x < 2 ^ 16
  pub ntohs-htons : (x : ℕ) → x < 2 ^ 16 → p.ntohs (p.htons x) ≡ x
  pub htonl-lt : (x : ℕ) → x < 2 ^ 32 → p.htonl x < 2 ^ 32
  pub ntohl-htonl : (x : ℕ) → x < 2 ^ 32 → p.ntohl (p.htonl x) ≡ x
  pub ntohl-lt : (x : ℕ) → x < 2 ^ 32 → p.ntohl x < 2 ^ 32
  pub length-sha256 : (m : List ℕ) → length (p.sha256 m) ≡ 32
  pub sha256_bytes : (m : List ℕ) → All (λ b. b < 256) (p.sha256 m)
