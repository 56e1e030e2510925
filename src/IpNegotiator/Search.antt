-- ===== src/IpNegotiator/Search.antt =====
-- The search of findNextAvailableIP goes through every host of the subnet before it gives up.
use connecttool_qt.Base.{
  ℕ, zero, suc, ◌+◌, ◌≤◌, ◌<◌, ◌^◌, ◌≡◌, refl, ◌⊎◌, inl, inr, List, true, false, arith, bit_and,
  bit_or, Bool-cases,
}
use native.Mathlib.Decide.{ℕ_discrete, dec_le}
use connecttool_qt.Base.Word.{not32}
use connecttool_qt.Base.Set.{contains}
use connecttool_qt.Base.Key.{nat_key}
use connecttool_qt.IpNegotiator.Address.{
  max_hosts, next_host, search_ip, first_host, find_next_available_ip,
}

-- `n` rounds lead from host `h` to host `t`, going up and around.
abbrev Within : ℕ → ℕ → ℕ → ℕ → Type 0
Within host_mask n h t = ((h ≤ t) × (t ≤ h + n)) ⊎ ((t < h) × (host_mask + t ≤ h + n + 1))

next_host_bounds :
    (host_mask h : ℕ)
    → 2 ≤ host_mask
    → h < host_mask
    → host_mask < 2 ^ 32
    → (1 ≤ next_host host_mask h) × (next_host host_mask h < host_mask)
unfolding next_host
next_host_bounds host_mask h two small word = ground arith

next_host-Within :
    (host_mask n h t : ℕ)
    → 2 ≤ host_mask
    → h < host_mask
    → host_mask < 2 ^ 32
    → 1 ≤ t
    → t < host_mask
    → ((t ≡ h) → ⊥)
    → Within host_mask (suc n) h t
    → Within host_mask n (next_host host_mask h) t
unfolding next_host
next_host-Within host_mask n h t two small word pos below other w = ground arith

module _ (network host_mask : ℕ) (used : List ℕ) (two : 2 ≤ host_mask)
    (word : host_mask < 2 ^ 32) where
  search_ip-used :
      (n h t : ℕ)
      → h < host_mask
      → 1 ≤ t
      → t < host_mask
      → Within host_mask n h t
      → contains (search_ip network host_mask used n h) used ≡ true
      → contains (bit_or network t) used ≡ true
  unfolding search_ip
  search_ip-used zero h t small pos below w c = ground (arith, same_host w)
    where
      same_host : Within host_mask 0 h t → h ≡ t
      same_host (inl v) = omega arith
      same_host (inr v) = absurd (omega arith)
  search_ip-used (suc n) h t small pos below w c =
      elim (Bool-cases (contains (bit_or network h) used)) [
        | inr free ↦ cc (free, rw free at c)
        | inl taken ↦ elim (ℕ_discrete t h) [
          | yes e ↦ rw e taken
          | no other ↦
              search_ip-used n (next_host host_mask h) t
                (next_host_bounds host_mask h two small word).1 pos below
                (next_host-Within host_mask n h t two small word pos below other w) (rw taken at c)
        ]
      ]

  pub search_ip_host :
      (n h : ℕ)
      → 1 ≤ h
      → h < host_mask
      → (t : ℕ) × (1 ≤ t)
        × (t < host_mask)
        × (search_ip network host_mask used n h ≡ bit_or network t)
  unfolding search_ip
  search_ip_host zero h pos small = (h, pos, small, refl)
  search_ip_host (suc n) h pos small = elim (Bool-cases (contains (bit_or network h) used)) [
    | inl taken ↦
        rw taken (let b = next_host_bounds host_mask h two small word in search_ip_host n _ b.0 b.1)
    | inr free ↦ (h, pos, small, rw free)
  ]

-- With at least two host addresses, the search starts inside the subnet.
first_host_bounds :
    (mask start : ℕ)
    → 2 ≤ not32 mask
    → (1 ≤ first_host mask start) × (first_host mask start < not32 mask)
unfolding first_host
first_host_bounds mask start two = ground arith

-- `maxHosts` rounds lead from any host to any other.
rounds_suffice :
    (mask h t : ℕ)
    → 2 ≤ not32 mask
    → 1 ≤ h
    → h < not32 mask
    → 1 ≤ t
    → t < not32 mask
    → Within (not32 mask) (max_hosts mask) h t
unfolding max_hosts
rounds_suffice mask h t two hp hb tp tb = elim (dec_le h t) [
  | yes up ↦ inl (up, ground arith)
  | no around ↦ inr (omega arith, ground arith)
]

-- If the subnet has at least two host addresses and any of its host addresses is not in use, then
-- the search returns an address that is not in use, wherever it starts.
pub find_next_available_ip_free :
    (base mask : ℕ) (used : List ℕ) (start t : ℕ)
    → 2 ≤ not32 mask
    → 1 ≤ t
    → t < not32 mask
    → contains (bit_or (bit_and base mask) t) used ≡ false
    → contains (find_next_available_ip base mask used start) used ≡ false
unfolding find_next_available_ip
find_next_available_ip_free base mask used start t two pos below free =
    elim (Bool-cases (contains (find_next_available_ip base mask used start) used)) [
      | inr e ↦ e
      | inl e ↦
          let b = first_host_bounds mask start two in
          cc (
            free,
            search_ip-used (bit_and base mask) (not32 mask) used two (omega arith) (max_hosts mask)
                (first_host mask start) t b.1 pos below
                (rounds_suffice mask (first_host mask start) t two b.0 b.1 pos below) e,
          )
    ]

pub find_next_available_ip_host :
    (base mask : ℕ) (used : List ℕ) (start : ℕ)
    → 2 ≤ not32 mask
    → (t : ℕ) × (1 ≤ t)
      × (t < not32 mask)
      × (find_next_available_ip base mask used start ≡ bit_or (bit_and base mask) t)
unfolding find_next_available_ip
find_next_available_ip_host base mask used start two =
    let b = first_host_bounds mask start two in
    search_ip_host (bit_and base mask) (not32 mask) used two (omega arith) (max_hosts mask) _ b.0
      b.1
