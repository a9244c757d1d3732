-- ===== src/Route/Learn.antt =====
-- peers/peer_ospf_route.rs: what `SyncedRouteInfo` learns of connections and of foreign networks. Every
-- call takes what `RoutePeerInfo::new()` returns in it.
pub mod Newer
pub mod Own
mod Tests
use peer_link.Common.{
  ℕ, suc, Bool, true, false, List, [], ◌∷◌, ◌&&◌, ◌||◌, Option, none, some, ◌==◌, ltb,
  if◌then◌else◌, map, Exec, done, ◌>>=◌,
}
use peer_link.Common.Tables.{lookup, insert}
use peer_link.Route.{
  Timestamp, RoutePeerInfo, RouteConnBitmap, ForeignNetworkRouteInfoKey,
  ForeignNetworkRouteInfoEntry, ForeignNetworkInfo, same_network, inc, SyncedRouteInfo,
}
use peer_link.Route.Synced.{inc_if}
use peer_link.Route.Bitmap.{set_insert, get_connected_peers}

-- `.collect::<BTreeSet<_>>()`
unfoldable pub to_set : List ℕ → List ℕ
to_set [] = []
to_set (p ∷ ps) = set_insert p (to_set ps)

abbrev pub same_peers : List ℕ → List ℕ → Bool
same_peers [] [] = true
same_peers (x ∷ xs) (y ∷ ys) = x == y && same_peers xs ys
same_peers _ _ = false

-- `entry(key).or_insert(value)`, by what there is, and whether it inserted.
unfoldable pub or_insert_found :
    {V : Type 0} → Option V → ℕ → V → List (ℕ × V) → List (ℕ × V) × Bool
or_insert_found none k v t = (insert ◌==◌ k v t, true)
or_insert_found (some _) k v t = (t, false)

unfoldable pub or_insert : {V : Type 0} → ℕ → V → List (ℕ × V) → List (ℕ × V) × Bool
or_insert k v t = or_insert_found (lookup ◌==◌ k t) k v t

-- A connection list that is newer than the one there was.
unfoldable pub newer_peers :
    Option (List ℕ × ℕ)
    → (peer_id version : ℕ) (connected : List ℕ) → List (ℕ × (List ℕ × ℕ))
    → List (ℕ × (List ℕ × ℕ)) × Bool
newer_peers none peer_id version connected t = (insert ◌==◌ peer_id (connected, version) t, true)
newer_peers (some old) peer_id version connected t =
    if ltb old.1 version then (insert ◌==◌ peer_id (connected, version) t, true) else (t, false)

unfoldable pub newer_network :
    Option ForeignNetworkRouteInfoEntry
    → ForeignNetworkRouteInfoKey
    → ForeignNetworkRouteInfoEntry
    → List (ForeignNetworkRouteInfoKey × ForeignNetworkRouteInfoEntry)
    → List (ForeignNetworkRouteInfoKey × ForeignNetworkRouteInfoEntry)
newer_network none key entry t = insert same_network key entry t
newer_network (some old) key entry t =
    if ltb old.version entry.version then insert same_network key entry t else t

-- One network of a list, left out if its key or its value is missing.
unfoldable pub learn_network :
    (now : Timestamp)
    → ForeignNetworkInfo
    → List (ForeignNetworkRouteInfoKey × ForeignNetworkRouteInfoEntry)
    → List (ForeignNetworkRouteInfoKey × ForeignNetworkRouteInfoEntry)
learn_network now item t = elim item.key [
  | none ↦ t
  | some key ↦ elim item.value [
    | none ↦ t
    | some entry ↦
        newer_network (lookup same_network key t) key (record entry { last_update = some now }) t
  ]
]

unfoldable pub learn_networks :
    (now : Timestamp)
    → List ForeignNetworkInfo
    → List (ForeignNetworkRouteInfoKey × ForeignNetworkRouteInfoEntry)
    → List (ForeignNetworkRouteInfoKey × ForeignNetworkRouteInfoEntry)
learn_networks now [] t = t
learn_networks now (item ∷ items) t = learn_networks now items (learn_network now item t)

module _ {Raw : Type 0} where
  unfoldable pub update_foreign_network :
      (now : Timestamp) → List ForeignNetworkInfo → SyncedRouteInfo Raw → SyncedRouteInfo Raw
  update_foreign_network now infos s = record s {
    foreign_network = learn_networks now infos s.foreign_network;
  }

  -- The loop of `fill_empty_peer_info`, with `need_inc_version`.
  unfoldable pub fill_peers :
      (empty : RoutePeerInfo) → List ℕ → Bool → SyncedRouteInfo Raw → SyncedRouteInfo Raw × Bool
  fill_peers empty [] need s = (s, need)
  fill_peers empty (p ∷ ps) need s =
      let infos = or_insert p empty s.peer_infos in
      let conns = or_insert p ([], 0) s.conn_map in
      fill_peers empty ps (need || (infos.1 || conns.1))
        (record s { peer_infos = infos.0; conn_map = conns.0 })

  unfoldable pub fill_empty_peer_info :
      (empty : RoutePeerInfo) → List ℕ → SyncedRouteInfo Raw → SyncedRouteInfo Raw
  fill_empty_peer_info empty peer_ids s =
      let filled = fill_peers empty peer_ids false s in inc_if filled.1 filled.0

  -- The loop of `update_conn_map`, from the peer at a place on.
  unfoldable pub learn_connections :
      (empty : RoutePeerInfo)
      → RouteConnBitmap
      → (peer_idx : ℕ) → List (ℕ × ℕ)
      → Bool
      → SyncedRouteInfo Raw
      → Exec (SyncedRouteInfo Raw)
  learn_connections empty m peer_idx [] need s = done (inc_if need s)
  learn_connections empty m peer_idx ((peer_id, version) ∷ rest) need s =
      get_connected_peers m peer_idx >>= λ connected.
      let filled = fill_empty_peer_info empty connected s in
      let newer =
        newer_peers (lookup ◌==◌ peer_id filled.conn_map) peer_id version connected
          filled.conn_map in
      learn_connections empty m (suc peer_idx) rest (need || newer.1)
        (record filled { conn_map = newer.0 })

  unfoldable pub update_conn_map :
      (empty : RoutePeerInfo) → RouteConnBitmap → SyncedRouteInfo Raw → Exec (SyncedRouteInfo Raw)
  update_conn_map empty m s =
      learn_connections empty m 0 m.peer_ids false
        (fill_empty_peer_info empty (to_set (map (λ x. x.0) m.peer_ids)) s)

  -- The own connections: the answer says whether they changed.
  unfoldable pub replace_own :
      (my_peer_id : ℕ) (connected : List ℕ)
      → Option (List ℕ × ℕ)
      → SyncedRouteInfo Raw
      → SyncedRouteInfo Raw × Bool
  replace_own my_peer_id connected none s =
      if same_peers connected []
      then (record s { conn_map = insert ◌==◌ my_peer_id ([], 0) s.conn_map }, false)
      else (
        record s {
          conn_map = insert ◌==◌ my_peer_id (connected, inc 0) s.conn_map;
          version = inc s.version;
        },
        true,
      )
  replace_own my_peer_id connected (some old) s =
      if same_peers connected old.0 then (s, false) else (
        record s {
          conn_map = insert ◌==◌ my_peer_id (connected, inc old.1) s.conn_map;
          version = inc s.version;
        },
        true,
      )

  unfoldable pub update_my_conn_info :
      (empty : RoutePeerInfo) (my_peer_id : ℕ) (connected_peers : List ℕ)
      → SyncedRouteInfo Raw
      → SyncedRouteInfo Raw × Bool
  update_my_conn_info empty my_peer_id connected_peers s =
      let filled = fill_empty_peer_info empty connected_peers s in
      replace_own my_peer_id connected_peers (lookup ◌==◌ my_peer_id filled.conn_map) filled
