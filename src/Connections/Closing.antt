-- ===== src/Connections/Closing.antt =====
-- The connections that are left after those to a peer were closed.
use connecttool_qt.Base.{
  ℕ, ◌≡◌, refl, List, [], ◌∷◌, ◌++◌, Bool, true, false, ◌&&◌, not, All, ◌==◌, arith, if_cases, map,
  sym, ap, All-append,
}
use mathlib.Core.List.{append-nil, map-append}
use connecttool_qt.Connections.State.{Steam, Manager, Call, close_connection, accept, then_do}
use connecttool_qt.Connections.Status.{
  Change, close_duplicate, close_duplicates, accept_connection, accept_incoming,
}
use connecttool_qt.Connections.Manager.{
  is_set, leads_to, without, without_all, close_to, close_current, close_listed,
  close_connection_to_peer,
}

-- Closing more connections makes Steam know less.
without_leads :
    (steam : Steam) (peer conn c : ℕ)
    → leads_to steam peer c ≡ false
    → leads_to (without conn steam) peer c ≡ false
without_leads steam peer conn c h = ground arith

without_all_leads :
    (closed : List ℕ) (steam : Steam) (peer c : ℕ)
    → leads_to steam peer c ≡ false
    → leads_to (without_all closed steam) peer c ≡ false
unfolding without_all
without_all_leads [] steam peer c h = h
without_all_leads (conn ∷ closed) steam peer c h =
    without_all_leads closed (without conn steam) peer c (without_leads steam peer conn c h)

-- A connection that is spared, or no longer leads to the peer.
abbrev pub IsClear : (ℕ → Bool) → Steam → ℕ → ℕ → Type 0
IsClear spared steam peer c = (not (spared c) && leads_to steam peer c) ≡ false

pub close_to-IsClear :
    (spared : ℕ → Bool) (peer : ℕ) (conns : List ℕ) (steam : Steam)
    → let r = close_to spared peer conns steam in
      All (IsClear spared (without_all r.1 steam) peer) r.0
unfolding close_to without_all
close_to-IsClear spared peer [] steam = tt
close_to-IsClear spared peer (conn ∷ conns) steam =
    let kept = close_to spared peer conns steam in
    let closed = close_to spared peer conns (without conn steam) in
    if_cases (λ (r : List ℕ × List ℕ). All (IsClear spared (without_all r.1 steam) peer) r.0)
      (not (spared conn) && leads_to steam peer conn) {x = (closed.0, conn ∷ closed.1)}
      {y = (conn ∷ kept.0, kept.1)} (λ h. close_to-IsClear spared peer conns (without conn steam))
      (λ h. (
        ground (arith, without_all_leads kept.1 steam peer conn),
        close_to-IsClear spared peer conns steam,
      ))

-- What closeConnectionToPeer leaves, as Steam answers when it is done.
module _ (steam : Steam) (peer : ℕ) where
  abbrev nobody : ℕ → Bool
  nobody c = false

  -- The calls close some connections, and after them the manager has none that leads to the peer.
  abbrev pub Cleared : Manager × List Call → Type 0
  Cleared r =
      (closed : List ℕ) × (r.1 ≡ map close_connection closed)
      × All (IsClear nobody (without_all closed steam) peer) r.0.connections
      × ((is_set r.0.connection && leads_to (without_all closed steam) peer r.0.connection) ≡ false)

  -- The calls of closeConnectionToPeer for a valid user close some connections, and as Steam
  -- answers after them neither a listed nor the current connection leads to that user.
  pub close_connection_to_peer-Cleared :
      (m : Manager)
      → steam.is_valid_id peer ≡ true
      → Cleared (close_connection_to_peer steam peer m)
  unfolding close_connection_to_peer without_all then_do close_current close_listed
  close_connection_to_peer-Cleared m h =
      let left = without m.connection steam in
      let listed = close_to nobody peer m.connections steam in
      let others = close_to nobody peer m.connections left in
      if_cases Cleared (not (steam.is_valid_id peer)) {x = (m, [])} (λ no. absurd (ground arith))
        λ _.
          if_cases Cleared (is_set m.connection && leads_to steam peer m.connection)
            {x = then_do (close_current m) (close_listed nobody peer left)}
            {y = close_listed nobody peer steam m}
            (λ _. (
              m.connection ∷ others.1,
              refl,
              close_to-IsClear nobody peer m.connections left,
              refl,
            ))
            (λ e. (
              listed.1,
              refl,
              close_to-IsClear nobody peer m.connections steam,
              ground (arith, without_all_leads listed.1 steam peer m.connection),
            ))

without_all-append :
    (xs ys : List ℕ) (steam : Steam)
    → without_all (xs ++ ys) steam ≡ without_all ys (without_all xs steam)
unfolding without_all
without_all-append [] ys steam = refl
without_all-append (x ∷ xs) ys steam = without_all-append xs ys (without x steam)

IsClear-without_all :
    (spared : ℕ → Bool) (more : List ℕ) (steam : Steam) (peer : ℕ) (conns : List ℕ)
    → All (IsClear spared steam peer) conns
    → All (IsClear spared (without_all more steam) peer) conns
IsClear-without_all spared more steam peer [] h = tt
IsClear-without_all spared more steam peer (c ∷ conns) (h, hs) = (
  ground (arith, without_all_leads more steam peer c),
  IsClear-without_all spared more steam peer conns hs,
)

-- What the arrival of a connection leaves, as Steam answers when it is done.
module _ (steam : Steam) (c : Change) where
  abbrev same : ℕ → Bool
  same conn = conn == c.conn

  -- The calls close some connections and accept the new one, which is the current one, and no
  -- other listed connection leads to its peer.
  abbrev pub Accepted : Manager × List Call → Type 0
  Accepted r =
      (closed : List ℕ) × (r.1 ≡ map close_connection closed ++ accept c.conn ∷ [])
      × All (IsClear same (without_all closed steam) c.peer) r.0.connections
      × (r.0.connection ≡ c.conn)

  abbrev Deduplicated : Manager × List Call → Type 0
  Deduplicated r =
      (closed : List ℕ) × (r.1 ≡ map close_connection closed)
      × All (IsClear same (without_all closed steam) c.peer) r.0.connections

  close_duplicates-Deduplicated :
      (m : Manager) → steam.is_valid_id c.peer ≡ true → Deduplicated (close_duplicates steam c m)
  unfolding close_duplicates then_do close_duplicate close_current close_listed
  close_duplicates-Deduplicated m h =
      let listed = close_to same c.peer m.connections steam in
      let left = without_all listed.1 steam in
      let clear = close_to-IsClear same c.peer m.connections steam in
      let begun = close_listed same c.peer steam m in
      if_cases Deduplicated (steam.is_valid_id c.peer)
        {x = then_do begun (close_duplicate steam left c)} {y = (m, [])}
        (λ _.
          if_cases (λ (r : Manager × List Call). Deduplicated (r.0, begun.1 ++ r.1))
            (is_set m.connection && not (same m.connection) && leads_to left c.peer m.connection)
            {x = close_current begun.0} {y = (begun.0, [])}
            (λ _. (
              listed.1 ++ m.connection ∷ [],
              sym (map-append close_connection listed.1 (m.connection ∷ [])),
              rw (without_all-append listed.1 (m.connection ∷ []) steam)
                  (IsClear-without_all same (m.connection ∷ []) left c.peer listed.0 clear),
            ))
            (λ _. (listed.1, append-nil (map close_connection listed.1), clear)))
        (λ no. absurd (ground arith))

  accept-IsClear :
      (left : Steam) (peer : ℕ) (conns : List ℕ)
      → All (IsClear same left peer) conns
      → All (IsClear same left peer) (conns ++ c.conn ∷ [])
  accept-IsClear left peer conns h =
      All-append (IsClear same left peer) conns (c.conn ∷ []) h (ground arith, tt)

  -- When a connection from a valid user arrives, the calls close some connections and accept it;
  -- it is then the current one, and as Steam answers after these calls no other listed connection
  -- leads to that user.
  pub accept_incoming-Accepted :
      (m : Manager) → steam.is_valid_id c.peer ≡ true → Accepted (accept_incoming steam c m)
  unfolding accept_incoming then_do accept_connection
  accept_incoming-Accepted m h =
      let d = close_duplicates-Deduplicated m h in
      (
        d.0,
        ap (λ calls. calls ++ accept c.conn ∷ []) d.1,
        accept-IsClear (without_all d.0 steam) c.peer (close_duplicates steam c m).0.connections
            d.2,
        refl,
      )
