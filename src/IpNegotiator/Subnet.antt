-- ===== src/IpNegotiator/Subnet.antt =====
-- Every candidate is a host address of the configured subnet.
use connecttool_qt.Base.{
  ℕ, ◌+◌, ◌-◌, ◌*◌, ◌/◌, ◌^◌, ◌≤◌, ◌<◌, ◌≡◌, ap, List, arith, bit_and, bit_or,
}
use connecttool_qt.Base.Bits.{bit_or-shifted, bit_and-prefix, bit_and-ones, pow-add}
use native.Mathlib.Nat.{
  pow-le-pow_right, one-le-pow, div-lt_iff_lt-mul, mul-le-mul_right, mul-add-div_right,
  mul-add-mod_self_right, mod-eq_of_lt, div-eq_of_lt,
}
use connecttool_qt.Base.Word.{not32}
use connecttool_qt.IpNegotiator.Address.{find_next_available_ip}
use connecttool_qt.IpNegotiator.Search.{find_next_available_ip_host}

-- The mask of a subnet with `k` bits for the host: ones above, and at least two host bits, so
-- that there is a host beside the network and the broadcast address.
pub record IsSubnetMask (k mask : ℕ) : Type 0 where
  pub two : 2 ≤ k
  pub fits : k ≤ 32
  pub ones : mask + 2 ^ k ≡ 2 ^ 32

-- `ip` lies in the subnet of `base`, and is neither its network nor its broadcast address.
pub record IsHost (base mask ip : ℕ) : Type 0 where
  pub in_subnet : bit_and ip mask ≡ bit_and base mask
  pub not_network : 1 ≤ bit_and ip (not32 mask)
  pub not_broadcast : bit_and ip (not32 mask) < not32 mask

module _ (k mask : ℕ) (m : IsSubnetMask k mask) where
  four-le : 4 ≤ 2 ^ k
  four-le = pow-le-pow_right (omega arith) {i = 2} {j = k} m.two

  whole : 2 ^ (32 - k + k) ≡ 2 ^ 32
  whole = ap (λ (e : ℕ). 2 ^ e) {y = 32} (omega (arith, m.fits))

  mask_shape : mask ≡ (2 ^ (32 - k) - 1) * 2 ^ k
  mask_shape =
      omega (arith, m.ones, whole, pow-add (32 - k) k, ap (λ (t : ℕ). t * 2 ^ k) ones_above)
    where
      ones_above : 2 ^ (32 - k) ≡ 2 ^ (32 - k) - 1 + 1
      ones_above = omega (arith, one-le-pow (32 - k) 2 (omega arith))

  host_mask_shape : not32 mask ≡ 2 ^ k - 1
  host_mask_shape = omega (arith, m.ones)

  network_shape : (ip : ℕ) → ip < 2 ^ 32 → bit_and ip mask ≡ ip / 2 ^ k * 2 ^ k
  network_shape ip h = rw mask_shape (bit_and-prefix (32 - k) k ip (rw whole h))

  joined_lt : (base t : ℕ) → base < 2 ^ 32 → t < 2 ^ k → base / 2 ^ k * 2 ^ k + t < 2 ^ 32
  joined_lt base t word small = omega (arith, step, pow-add (32 - k) k, whole)
    where
      quotient : base / 2 ^ k < 2 ^ (32 - k)
      quotient =
          (div-lt_iff_lt-mul (one-le-pow k 2 (omega arith))).1
            (omega (arith, pow-add (32 - k) k, whole))

      step : (base / 2 ^ k + 1) * 2 ^ k ≤ 2 ^ (32 - k) * 2 ^ k
      step = mul-le-mul_right (2 ^ k) (omega (arith, quotient))

  pub join-IsHost :
      (base t : ℕ)
      → base < 2 ^ 32
      → 1 ≤ t
      → t < not32 mask
      → IsHost base mask (bit_or (bit_and base mask) t)
  join-IsHost base t word pos below =
      let low = mul-add-mod_self_right (base / 2 ^ k) (2 ^ k) t in
      let host = mod-eq_of_lt small in
      rw (network_shape base word, bit_or-shifted k (base / 2 ^ k) t small)
        (record {
          in_subnet =
              rw
                (
                  network_shape (base / 2 ^ k * 2 ^ k + t) (joined_lt base t word small),
                  network_shape base word,
                )
                (ap (λ (q : ℕ). q * 2 ^ k) same_network);
          not_network = rw (host_mask_shape, bit_and-ones) (omega (arith, low, host));
          not_broadcast =
              rw (host_mask_shape, bit_and-ones) (omega (arith, low, host, host_mask_shape));
        })
    where
      small : t < 2 ^ k
      small = omega (arith, host_mask_shape)

      same_network : (base / 2 ^ k * 2 ^ k + t) / 2 ^ k ≡ base / 2 ^ k
      same_network = omega (
        arith,
        mul-add-div_right (one-le-pow k 2 (omega arith)) (base / 2 ^ k) t,
        div-eq_of_lt small,
      )

  -- For a mask of at least two host bits and a network below 2 ^ 32, the search returns an address
  -- of the subnet that is neither its network address nor its broadcast address.
  pub find_next_available_ip-IsHost :
      (base start : ℕ) (used : List ℕ)
      → base < 2 ^ 32
      → IsHost base mask (find_next_available_ip base mask used start)
  find_next_available_ip-IsHost base start used word =
      let (t, pos, below, e) =
        find_next_available_ip_host base mask used start
          (omega (arith, four-le, host_mask_shape)) in
      rw e (join-IsHost base t word pos below)
