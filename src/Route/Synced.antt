-- ===== src/Route/Synced.antt =====
-- peers/peer_ospf_route.rs: `SyncedRouteInfo`, what a peer has learnt from all the others. A call takes
-- the present time, and the program's version where it makes an empty `RoutePeerInfo`.
use peer_link.Common.{
  ℕ, Bool, true, false, List, [], ◌∷◌, ◌&&◌, ◌||◌, not, Option, none, some, ◌==◌, ltb,
  if◌then◌else◌, Exec, done, panic, ◌>>=◌, unwrap,
}
use peer_link.Common.Tables.{lookup, insert, delete}
use peer_link.Route.{
  PeerFeatureFlag, Timestamp, RoutePeerInfo, ForeignNetworkRouteInfoKey,
  ForeignNetworkRouteInfoEntry, duplicate_peer_id, Result, ok, err, inc, SyncedRouteInfo,
}

abbrev pub option_map : {A B : Type 0} → (A → B) → Option A → Option B
option_map f none = none
option_map f (some a) = some (f a)

abbrev pub unwrap_or : {A : Type 0} → A → Option A → A
unwrap_or d none = d
unwrap_or d (some a) = a

-- `BTreeSet::contains`
abbrev pub contains : ℕ → List ℕ → Bool
contains x [] = false
contains x (y ∷ ys) = x == y || contains x ys

abbrev flag_of : Option PeerFeatureFlag → Bool
flag_of none = false
flag_of (some f) = f.avoid_relay_data

-- `foreign_network.retain(|k, _| k.peer_id != peer_id)`
unfoldable pub retain_others :
    ℕ
    → List (ForeignNetworkRouteInfoKey × ForeignNetworkRouteInfoEntry)
    → List (ForeignNetworkRouteInfoKey × ForeignNetworkRouteInfoEntry)
retain_others p [] = []
retain_others p ((k, v) ∷ rest) =
    if k.peer_id == p then retain_others p rest else (k, v) ∷ retain_others p rest

module _ {Raw : Type 0} where
  unfoldable pub get_connected_peers : ℕ → SyncedRouteInfo Raw → Option (List ℕ)
  get_connected_peers p s = option_map (λ x. x.0) (lookup ◌==◌ p s.conn_map)

  unfoldable pub remove_peer : ℕ → SyncedRouteInfo Raw → SyncedRouteInfo Raw
  remove_peer p s = record s {
    peer_infos = delete ◌==◌ p s.peer_infos;
    raw_peer_infos = delete ◌==◌ p s.raw_peer_infos;
    conn_map = delete ◌==◌ p s.conn_map;
    foreign_network = retain_others p s.foreign_network;
    group_trust_map = delete ◌==◌ p s.group_trust_map;
    group_trust_map_cache = delete ◌==◌ p s.group_trust_map_cache;
    version = inc s.version;
  }

  unfoldable pub get_peer_info_version_with_default : ℕ → SyncedRouteInfo Raw → ℕ
  get_peer_info_version_with_default p s =
      unwrap_or 0 (option_map (λ i. i.version) (lookup ◌==◌ p s.peer_infos))

  unfoldable pub get_avoid_relay_data : ℕ → SyncedRouteInfo Raw → Bool
  get_avoid_relay_data p s = elim (lookup ◌==◌ p s.peer_infos) [
    | none ↦ false
    | some i ↦ flag_of i.feature_flag
  ]

  unfoldable pub is_peer_bidirectly_connected : (src dst : ℕ) → SyncedRouteInfo Raw → Bool
  is_peer_bidirectly_connected src dst s =
      unwrap_or false (option_map (λ x. contains dst x.0) (lookup ◌==◌ src s.conn_map))

  unfoldable pub is_peer_directly_connected : (src dst : ℕ) → SyncedRouteInfo Raw → Bool
  is_peer_directly_connected src dst s =
      is_peer_bidirectly_connected src dst s || is_peer_bidirectly_connected dst src s

  -- `need_inc_version`: the version goes up.
  unfoldable pub inc_if : Bool → SyncedRouteInfo Raw → SyncedRouteInfo Raw
  inc_if need s = if need then record s { version = inc s.version } else s

  -- The part of `check_duplicate_peer_id` about the sender of the info.
  unfoldable pub check_dst : Option ℕ → RoutePeerInfo → SyncedRouteInfo Raw → Result (Unit {0})
  check_dst none info s = ok tt
  check_dst (some dst_peer_route_id) info s =
      if not (dst_peer_route_id == info.peer_route_id)
        && ltb info.version (get_peer_info_version_with_default info.peer_id s)
      then err duplicate_peer_id
      else ok tt

  unfoldable pub check_duplicate_peer_id :
      (my_peer_id my_peer_route_id dst_peer_id : ℕ) (dst_peer_route_id : Option ℕ)
      → RoutePeerInfo
      → SyncedRouteInfo Raw
      → Exec (Result (Unit {0}))
  check_duplicate_peer_id my_peer_id my_peer_route_id dst_peer_id dst_peer_route_id info s =
      if info.peer_id == my_peer_id
      then (if not (info.peer_route_id == my_peer_route_id)
            && ltb (get_peer_info_version_with_default info.peer_id s) info.version
          then panic
          else done (ok tt))
      else (if info.peer_id == dst_peer_id
          then done (check_dst dst_peer_route_id info s)
          else done (ok tt))

  -- The info and its raw message take the place of what is known of the peer.
  unfoldable pub replace_info : RoutePeerInfo → Raw → SyncedRouteInfo Raw → SyncedRouteInfo Raw
  replace_info info raw s = record s {
    peer_infos = insert ◌==◌ info.peer_id info s.peer_infos;
    raw_peer_infos = insert ◌==◌ info.peer_id raw s.raw_peer_infos;
  }

  unfoldable pub replace_older :
      Option RoutePeerInfo → RoutePeerInfo → Raw → SyncedRouteInfo Raw → SyncedRouteInfo Raw × Bool
  replace_older none info raw s = (replace_info info raw s, true)
  replace_older (some old) info raw s =
      if ltb old.version info.version then (replace_info info raw s, true) else (s, false)

module _ {Raw : Type 0} (peer_id_of : Raw → Option ℕ) (my_peer_id my_peer_route_id dst_peer_id : ℕ)
    (now : Timestamp) where
  -- A received info that is no duplicate.
  unfoldable pub receive_checked :
      Result (Unit {0})
      → RoutePeerInfo
      → Raw
      → SyncedRouteInfo Raw
      → Exec (Result (SyncedRouteInfo Raw × Bool))
  receive_checked (err e) info raw s = done (err e)
  receive_checked (ok _) info raw s = unwrap (peer_id_of raw) >>= λ peer_id_raw.
      if peer_id_raw == info.peer_id
      then done (
          ok (
            replace_older (lookup ◌==◌ info.peer_id s.peer_infos)
              (record info { last_update = some now }) raw s))
      else panic

  -- One round of the loop of `update_peer_infos`.
  unfoldable pub receive_info :
      RoutePeerInfo → Raw → SyncedRouteInfo Raw → Exec (Result (SyncedRouteInfo Raw × Bool))
  receive_info info raw s =
      check_duplicate_peer_id my_peer_id my_peer_route_id dst_peer_id
        (if info.peer_id == dst_peer_id
          then option_map (λ i. i.peer_route_id) (lookup ◌==◌ dst_peer_id s.peer_infos)
          else none)
        info s
      >>= λ checked. receive_checked checked info raw s

  -- The loop, with `need_inc_version`; an error leaves it at once.
  unfoldable pub receive_infos :
      Bool
      → List RoutePeerInfo
      → List Raw
      → SyncedRouteInfo Raw
      → Exec (SyncedRouteInfo Raw × Result (Unit {0}))
  receive_infos need [] raws s = done (inc_if need s, ok tt)
  receive_infos need (info ∷ infos) [] s = panic
  receive_infos need (info ∷ infos) (raw ∷ raws) s = receive_info info raw s >>= λ received.
      elim received [
        | err e ↦ done (s, err e)
        | ok (s', changed) ↦ receive_infos (need || changed) infos raws s'
      ]

  unfoldable pub update_peer_infos :
      List RoutePeerInfo
      → List Raw
      → SyncedRouteInfo Raw
      → Exec (SyncedRouteInfo Raw × Result (Unit {0}))
  update_peer_infos infos raws s = receive_infos false infos raws s
