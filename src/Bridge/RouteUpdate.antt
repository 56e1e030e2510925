-- ===== src/Bridge/RouteUpdate.antt =====
-- The payload of a ROUTE_UPDATE, written by broadcastRouteUpdate and read by handleVpnMessage.
use connecttool_qt.Base.{
  false, ltb, ℕ, zero, suc, ◌+◌, ◌^◌, ◌<◌, ◌≤◌, ◌≡◌, refl, List, [], ◌∷◌, ◌++◌, map, length, take,
  drop, All, arith, length-append, take-append_left, drop-append_left,
}
use mathlib.Core.List.{append_assoc}
use connecttool_qt.Base.Map.{Map}
use connecttool_qt.Platform.{Platform, IsPlatform}
use connecttool_qt.Wire.{store, load, length-store, load-store}
use connecttool_qt.Bridge.State.{RouteEntry}
use connecttool_qt.Bridge.Routes.{encode_routes, decode_routes}

-- The Steam ID and the address of a route fit into their fields.
abbrev pub FitsFields : ℕ × RouteEntry → Type 0
FitsFields (ip, e) = (e.steam_id < 2 ^ 64) × (e.ip_address < 2 ^ 32)

module _ (p : Platform) (laws : IsPlatform p) where
  pub length-encode_routes :
      (table : Map ℕ RouteEntry) → length table + length table ≤ length (encode_routes p table)
  unfolding encode_routes
  length-encode_routes [] = omega arith
  length-encode_routes ((ip, e) ∷ table) =
      rw (length-append, length-append, length-store, length-store)
        (omega (arith, length-encode_routes table))

  -- The two fields of the first entry, and what follows it.
  first_route :
      (s a : ℕ) (rest : List ℕ)
      → s < 2 ^ 64
      → a < 2 ^ 32
      → let bytes = store 8 s ++ store 4 (p.htonl a) ++ rest in
        (load (take 8 bytes) ≡ s)
        × (p.ntohl (load (take 4 (drop 8 bytes))) ≡ a)
        × (drop 12 bytes ≡ rest)
  first_route s a rest hs ha = (
    rw
        (
          append_assoc,
          take-append_left 8 (store 8 s) (store 4 (p.htonl a) ++ rest) (length-store 8 s),
        )
        (load-store 8 s hs),
    rw
        (
          append_assoc,
          drop-append_left 8 (store 8 s) (store 4 (p.htonl a) ++ rest) (length-store 8 s),
          take-append_left 4 (store 4 (p.htonl a)) rest (length-store 4 _),
          load-store 4 (p.htonl a) (laws.htonl-lt a ha),
        )
        (laws.ntohl-htonl a ha),
    drop-append_left 12 (store 8 s ++ store 4 (p.htonl a)) rest
        (rw (length-append, length-store, length-store) refl),
  )

  -- With fuel for every entry, and whatever fuel is left over.
  decode_routes_fuel :
      (fuel : ℕ) (table : Map ℕ RouteEntry)
      → All FitsFields table
      → length table ≤ fuel
      → decode_routes p fuel (encode_routes p table)
        ≡ map (λ (e : ℕ × RouteEntry). (e.1.steam_id, e.1.ip_address)) table
  unfolding encode_routes decode_routes
  decode_routes_fuel zero [] fits h = refl
  decode_routes_fuel (suc fuel) [] fits h = refl
  decode_routes_fuel zero (e ∷ table) fits h = ground arith
  decode_routes_fuel (suc fuel) ((ip, e) ∷ table) fits h =
      let first = first_route e.steam_id e.ip_address (encode_routes p table) fits.0.0 fits.0.1 in
      let more = decode_routes_fuel fuel table fits.1 (ground arith) in
      let long : ltb (length (encode_routes p ((ip, e) ∷ table))) 12 ≡ false =
        rw (length-append, length-append, length-store, length-store) (ground arith) in
      rw (long, first.0, first.1, first.2, more)

  -- A peer reads from the payload of a route update the Steam ID and the address of every route,
  -- in the order of the table, if they fit into 64 and 32 bits.
  pub decode_routes-encode_routes :
      (table : Map ℕ RouteEntry)
      → All FitsFields table
      → decode_routes p (length (encode_routes p table)) (encode_routes p table)
        ≡ map (λ (e : ℕ × RouteEntry). (e.1.steam_id, e.1.ip_address)) table
  decode_routes-encode_routes table fits =
      decode_routes_fuel (length (encode_routes p table)) table fits
        (omega (arith, length-encode_routes table))
