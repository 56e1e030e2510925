-- ===== src/Samples.antt =====
-- A platform to evaluate the definitions on: byte swaps as on a little-endian host, and a digest
-- that only has the documented size.
use connecttool_qt.Base.{ℕ, ◌+◌, ◌*◌, ◌/◌, ◌%◌, refl, List, ◌∷◌, replicate, take, arith}
use connecttool_qt.Platform.{Platform, IsPlatform}
use connecttool_qt.Wire.{load}

abbrev swap16 : ℕ → ℕ
swap16 x = (x % 256) * 256 + (x / 256) % 256

abbrev swap32 : ℕ → ℕ
swap32 x =
    (x % 256) * 16777216 + (x / 256 % 256) * 65536 + (x / 65536 % 256) * 256 + x / 16777216 % 256

abbrev digest : List ℕ → List ℕ
digest m = (load (take 1 m) % 256) ∷ replicate 31 0

abbrev pub platform : Platform
platform = record {
  htons = swap16;
  ntohs = swap16;
  htonl = swap32;
  ntohl = swap32;
  sha256 = digest;
}

pub platform-IsPlatform : IsPlatform platform
platform-IsPlatform = record {
  htons-lt = λ x h. omega arith;
  ntohs-htons = λ x h. omega arith;
  htonl-lt = λ x h. omega arith;
  ntohl-htonl = λ x h. omega arith;
  ntohl-lt = λ x h. omega arith;
  length-sha256 = λ m. refl;
  sha256_bytes = λ m. (omega arith, ground arith);
}
