-- ===== src/IpNegotiator/Address.antt =====
-- generateCandidateIP and findNextAvailableIP.
use connecttool_qt.Base.{
  ℕ, zero, suc, ◌+◌, ◌*◌, ◌%◌, ◌^◌, List, ◌||◌, if◌then◌else◌, ◌==◌, leb, bit_and, bit_or, get_or,
}
use connecttool_qt.Base.Word.{u32, add32, sub32, not32}
use connecttool_qt.Base.Set.{contains}
use connecttool_qt.Base.Key.{nat_key}
use connecttool_qt.NodeIdentity.Defs.{NodeId}

-- The number of host addresses, `~mask - 1`, but at least 1.
unfoldable pub max_hosts : ℕ → ℕ
max_hosts mask = let hosts = sub32 (not32 mask) 1 in if hosts == 0 then 1 else hosts

-- The last three bytes of the node ID, as a number.
unfoldable pub node_hash : NodeId → ℕ
node_hash id = bit_or (bit_or (get_or id 31 0) (get_or id 30 0 * 2 ^ 8)) (get_or id 29 0 * 2 ^ 16)

-- `hash` after `hash = (hash + offset) & 0x00FFFFFF`.
unfoldable pub offset_hash : NodeId → ℕ → ℕ
unfolding node_hash
offset_hash id offset = bit_and (add32 (node_hash id) offset) 0x00ff_ffff

unfoldable pub generate_candidate_ip : NodeId → ℕ → ℕ → ℕ → ℕ
unfolding offset_hash max_hosts
generate_candidate_ip id base mask offset =
    let host_part = u32 (offset_hash id offset % max_hosts mask + 1) in
    bit_or (bit_and base mask) host_part

-- `hostPart++`, back to 1 at the end of the subnet.
unfoldable pub next_host : ℕ → ℕ → ℕ
next_host host_mask host = let next = add32 host 1 in if leb host_mask next then 1 else next

-- The loop: `rounds` is `maxHosts - attempts`.
unfoldable pub search_ip : ℕ → ℕ → List ℕ → ℕ → ℕ → ℕ
search_ip network host_mask used zero host = bit_or network host
search_ip network host_mask used (suc rounds) host =
    let rest = search_ip network host_mask used rounds (next_host host_mask host) in
    if contains (bit_or network host) used then rest else bit_or network host

-- The host part at which the search starts.
unfoldable pub first_host : ℕ → ℕ → ℕ
first_host mask start =
    let host = bit_and start (not32 mask) in if host == 0 || leb (not32 mask) host then 1 else host

unfoldable pub find_next_available_ip : ℕ → ℕ → List ℕ → ℕ → ℕ
unfolding search_ip next_host max_hosts first_host
find_next_available_ip base mask used start =
    search_ip (bit_and base mask) (not32 mask) used (max_hosts mask) (first_host mask start)
