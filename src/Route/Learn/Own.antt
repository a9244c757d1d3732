-- ===== src/Route/Learn/Own.antt =====
-- peers/peer_ospf_route.rs: `update_my_conn_info`, which notes the own connections.
use peer_link.Common.{
  ℕ, ◌≡◌, ◌≢◌, refl, ap, ◌∙◌, inl, inr, Bool, not, List, [], Option, none, some, ◌==◌, ==_refl,
  if◌then◌else◌, Bool-cases,
}
use peer_link.Common.Tables.{lookup}
use peer_link.Route.{RoutePeerInfo, inc, SyncedRouteInfo}
use peer_link.Route.Synced.{unwrap_or}
use peer_link.Route.Learn.{same_peers, fill_empty_peer_info, replace_own, update_my_conn_info}
use peer_link.Route.Learn.Newer.{
  stored, stored-insert_self, stored-insert_other, ≢→==, stored-fill_empty_peer_info,
}

-- The own connections as they are to be stored: a change makes the next version.
abbrev pub noted : (connected : List ℕ) → List ℕ × ℕ → List ℕ × ℕ
noted connected old = if same_peers connected old.0 then old else (connected, inc old.1)

module _ {Raw : Type 0} where
  -- What `replace_own` makes of a state.
  abbrev Noted :
      (my_peer_id : ℕ) (connected : List ℕ) (s : SyncedRouteInfo Raw)
      → SyncedRouteInfo Raw × Bool
      → Type 0
  Noted m connected s (s', changed) =
      (stored s'.conn_map m ≡ noted connected (stored s.conn_map m))
      × (changed ≡ not (same_peers connected (stored s.conn_map m).0))
      × (s'.version ≡ (if changed then inc s.version else s.version))
      × ((p : ℕ) → p ≢ m → stored s'.conn_map p ≡ stored s.conn_map p)

  replace_own-Noted :
      (m : ℕ) (connected : List ℕ) (found : Option (List ℕ × ℕ)) (s : SyncedRouteInfo Raw)
      → lookup ◌==◌ m s.conn_map ≡ found
      → Noted m connected s (replace_own m connected found s)
  unfolding replace_own
  replace_own-Noted m connected none s e =
      let old : stored s.conn_map m ≡ ([], 0) = ap (unwrap_or ([], 0)) e in
      elim (Bool-cases (same_peers connected [])) [
        | inl a ↦
            rw (a, old, a)
              (
                stored-insert_self m m ([], 0) s.conn_map (==_refl m),
                refl,
                refl,
                λ p ne. stored-insert_other m p ([], 0) s.conn_map (≢→== p m ne),
              )
        | inr a ↦
            rw (a, old, a)
              (
                stored-insert_self m m (connected, inc 0) s.conn_map (==_refl m),
                refl,
                refl,
                λ p ne. stored-insert_other m p (connected, inc 0) s.conn_map (≢→== p m ne),
              )
      ]
  replace_own-Noted m connected (some x) s e =
      let old : stored s.conn_map m ≡ x = ap (unwrap_or ([], 0)) e in
      elim (Bool-cases (same_peers connected x.0)) [
        | inl a ↦ rw (a, old, a) (refl, refl, refl, λ p ne. refl)
        | inr a ↦
            rw (a, old, a)
              (
                stored-insert_self m m (connected, inc x.1) s.conn_map (==_refl m),
                refl,
                refl,
                λ p ne. stored-insert_other m p (connected, inc x.1) s.conn_map (≢→== p m ne),
              )
      ]

  -- The own connections are stored as given, of the next version, if they differ from those stored,
  -- which is what the call answers, and stay as they are otherwise; what is stored of the others'
  -- connections stays. The version goes up by one with a change, beside what it has gone up by in
  -- making room for the peers connected to.
  pub update_my_conn_info-noted :
      (empty : RoutePeerInfo) (m : ℕ) (connected : List ℕ) (s : SyncedRouteInfo Raw)
      → let out = update_my_conn_info empty m connected s in
        let room = fill_empty_peer_info empty connected s in
        (stored (out.0).conn_map m ≡ noted connected (stored s.conn_map m))
        × (out.1 ≡ not (same_peers connected (stored s.conn_map m).0))
        × ((out.0).version ≡ (if out.1 then inc room.version else room.version))
        × ((p : ℕ) → p ≢ m → stored (out.0).conn_map p ≡ stored s.conn_map p)
  unfolding update_my_conn_info
  update_my_conn_info-noted empty m connected s =
      let room = fill_empty_peer_info empty connected s in
      let same : (p : ℕ) → stored room.conn_map p ≡ stored s.conn_map p =
        λ p. stored-fill_empty_peer_info empty connected s p in
      let (own, changed, version, others) =
        replace_own-Noted m connected (lookup ◌==◌ m room.conn_map) room refl in
      (
        own ∙ ap (noted connected) (same m),
        changed ∙ ap (λ x. not (same_peers connected x.0)) (same m),
        version,
        λ p ne. others p ne ∙ same p,
      )
