-- ===== src/Bridge/Table.antt =====
-- The routing table under updateRoute and onUserLeft.
use connecttool_qt.Base.{
  ℕ, ◌≡◌, Bool, not, ◌&&◌, Option, none, some, if◌then◌else◌, ◌==◌, ==_refl, arith, Option-cases,
  inl, inr,
}
use connecttool_qt.Base.Map.{
  Map, find, erase, erase_if, find-assign, find-erase, find-erase_if, find-erase_if-none, IsSorted,
  assign-IsSorted, erase-IsSorted, erase_if-IsSorted,
}
use connecttool_qt.Base.Key.{nat_key}
use connecttool_qt.Bridge.State.{RouteEntry}
use connecttool_qt.Bridge.Routes.{put_route}

-- The routes lie under their own addresses, and a Steam ID has one route at most.
pub record IsTable (table : Map ℕ RouteEntry) : Type 0 where
  pub sorted : IsSorted table
  pub keyed : (ip : ℕ) (e : RouteEntry) → find ip table ≡ some e → e.ip_address ≡ ip
  pub single :
      (ip ip' : ℕ) (e e' : RouteEntry)
      → find ip table ≡ some e
      → find ip' table ≡ some e'
      → e.steam_id ≡ e'.steam_id
      → ip ≡ ip'

-- What a sweep leaves of the entry of a key.
abbrev pub kept : (ℕ × RouteEntry → Bool) → ℕ → Option RouteEntry → Option RouteEntry
kept q ip none = none
kept q ip (some e) = if q (ip, e) then none else some e

pub find-erase_if_kept :
    (q : ℕ × RouteEntry → Bool) (ip : ℕ) (table : Map ℕ RouteEntry)
    → IsSorted table
    → find ip (erase_if q table) ≡ kept q ip (find ip table)
find-erase_if_kept q ip table s = elim (Option-cases (find ip table)) [
  | inl h ↦ rw h (find-erase_if-none q ip table h)
  | inr h ↦ rw h.1 (find-erase_if q ip h.0 table s h.1)
]

-- A subset of the routes is as well-formed.
pub erase_if-IsTable :
    (q : ℕ × RouteEntry → Bool) (table : Map ℕ RouteEntry)
    → IsTable table
    → IsTable (erase_if q table)
erase_if-IsTable q table v = record {
  sorted = erase_if-IsSorted q table v.sorted;
  keyed = λ ip e h.
      ground
        (arith, v.keyed ip e, find-erase_if_kept q ip table v.sorted, Option-cases (find ip table));
  single = λ ip ip' e e' h h' same. ground (
    arith,
    v.single ip ip' e e',
    find-erase_if_kept q ip table v.sorted,
    find-erase_if_kept q ip' table v.sorted,
    Option-cases (find ip table),
    Option-cases (find ip' table),
  );
}

pub erase-IsTable : (ip : ℕ) (table : Map ℕ RouteEntry) → IsTable table → IsTable (erase ip table)
erase-IsTable j table v = record {
  sorted = erase-IsSorted j table v.sorted;
  keyed = λ ip e h. ground (arith, v.keyed ip e, find-erase ip j table);
  single = λ ip ip' e e' h h' same.
      ground (arith, v.single ip ip' e e', find-erase ip j table, find-erase ip' j table);
}

-- In a sorted table, after an update the address of the update has the new route, and every other
-- address keeps the route it had, unless that was a route of the same Steam ID, which is gone.
pub find-put_route :
    (entry : RouteEntry) (table : Map ℕ RouteEntry) (ip : ℕ)
    → IsSorted table
    → find ip (put_route entry table) ≡ (
        if entry.ip_address == ip
        then some entry
        else kept (λ e. e.1.steam_id == entry.steam_id) ip (find ip table))
unfolding put_route
find-put_route entry table ip s = ground (
  arith,
  find-assign ip entry.ip_address entry
      (erase_if (λ e. (e.1.steam_id == entry.steam_id) && not (e.0 == entry.ip_address)) table),
  find-erase_if_kept (λ e. (e.1.steam_id == entry.steam_id) && not (e.0 == entry.ip_address)) ip
      table s,
  Option-cases (find ip table),
)

pub put_route-IsTable :
    (entry : RouteEntry) (table : Map ℕ RouteEntry)
    → IsTable table
    → IsTable (put_route entry table)
put_route-IsTable entry table v = record {
  sorted =
      unfold put_route in
      assign-IsSorted entry.ip_address entry _ (erase_if-IsSorted _ table v.sorted);
  keyed = λ ip e h.
      ground
        (arith, v.keyed ip e, find-put_route entry table ip v.sorted, Option-cases (find ip table));
  single = λ ip ip' e e' h h' same. ground (
    arith,
    v.single ip ip' e e',
    find-put_route entry table ip v.sorted,
    find-put_route entry table ip' v.sorted,
    Option-cases (find ip table),
    Option-cases (find ip' table),
  );
}

-- The address of an update has the new route, whatever the table was.
pub find-put_route_own :
    (entry : RouteEntry) (table : Map ℕ RouteEntry)
    → find entry.ip_address (put_route entry table) ≡ some entry
unfolding put_route
find-put_route_own entry table = ground (
  arith,
  ==_refl entry.ip_address,
  find-assign entry.ip_address entry.ip_address entry
      (erase_if (λ e. (e.1.steam_id == entry.steam_id) && not (e.0 == entry.ip_address)) table),
)
