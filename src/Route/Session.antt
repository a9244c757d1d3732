-- ===== src/Route/Session.antt =====
-- peers/peer_ospf_route.rs: `SyncRouteSession`, what one peer has told another and been told by it, and
-- what it still has to send. The task that runs a session is left out.
pub mod Saved
pub mod Sync
pub mod Unsent
pub mod Quiet
pub mod Restart
pub mod Exchange
use peer_link.Common.{
  ℕ, ◌+◌, ◌%◌, ◌^◌, Bool, true, false, List, [], ◌∷◌, ◌&&◌, ◌||◌, not, Option, none, some, ◌==◌,
  leb, ltb, if◌then◌else◌, Exec, done, panic, ◌>>=◌, unwrap,
}
use peer_link.Common.Tables.{lookup, insert}
use peer_link.Route.{
  RoutePeerInfo, RouteConnBitmap, ForeignNetworkRouteInfoKey, ForeignNetworkRouteInfoEntry,
  ForeignNetworkInfo, same_network, set_if_larger, SyncedRouteInfo,
}
use peer_link.Route.Synced.{unwrap_or, option_map}

pub record SyncRouteSession : Type 0 where
  pub my_peer_id : ℕ
  pub dst_peer_id : ℕ
  pub dst_saved_peer_info_versions : List (ℕ × ℕ)
  pub dst_saved_conn_bitmap_version : List (ℕ × ℕ)
  pub dst_saved_foreign_network_versions : List (ForeignNetworkRouteInfoKey × ℕ)
  pub my_session_id : ℕ
  pub dst_session_id : ℕ
  pub we_are_initiator : Bool
  pub dst_is_initiator : Bool
  pub need_sync_initiator_info : Bool
  pub rpc_tx_count : ℕ
  pub rpc_rx_count : ℕ

-- `my_session_id` is random.
unfoldable pub new_session : (my_peer_id dst_peer_id my_session_id : ℕ) → SyncRouteSession
new_session my_peer_id dst_peer_id my_session_id = record {
  my_peer_id = my_peer_id;
  dst_peer_id = dst_peer_id;
  dst_saved_peer_info_versions = [];
  dst_saved_conn_bitmap_version = [];
  dst_saved_foreign_network_versions = [];
  my_session_id = my_session_id;
  dst_session_id = 0;
  we_are_initiator = false;
  dst_is_initiator = false;
  need_sync_initiator_info = false;
  rpc_tx_count = 0;
  rpc_rx_count = 0;
}

unfoldable pub check_saved_peer_info_update_to_date :
    (peer_id version : ℕ) → SyncRouteSession → Bool
check_saved_peer_info_update_to_date peer_id version session =
    if version == 0 || peer_id == session.dst_peer_id
    then true
    else unwrap_or false
        (option_map (leb version) (lookup ◌==◌ peer_id session.dst_saved_peer_info_versions))

-- `entry(key).or_insert_with(AtomicVersion::new).set_if_larger(version)`
unfoldable pub save_version :
    {K : Type 0} → (K → K → Bool) → K → (version : ℕ) → List (K × ℕ) → List (K × ℕ)
save_version same k version t =
    insert same k (set_if_larger (unwrap_or 0 (lookup same k t)) version).0 t

unfoldable pub save_infos : List RoutePeerInfo → List (ℕ × ℕ) → List (ℕ × ℕ)
save_infos [] t = t
save_infos (info ∷ infos) t = save_infos infos (save_version ◌==◌ info.peer_id info.version t)

unfoldable pub update_dst_saved_peer_info_version :
    List RoutePeerInfo → SyncRouteSession → SyncRouteSession
update_dst_saved_peer_info_version infos session = record session {
  dst_saved_peer_info_versions = save_infos infos session.dst_saved_peer_info_versions;
}

unfoldable pub save_peers : List (ℕ × ℕ) → List (ℕ × ℕ) → List (ℕ × ℕ)
save_peers [] t = t
save_peers ((peer_id, version) ∷ rest) t = save_peers rest (save_version ◌==◌ peer_id version t)

unfoldable pub update_dst_saved_conn_bitmap_version :
    RouteConnBitmap → SyncRouteSession → SyncRouteSession
update_dst_saved_conn_bitmap_version conn_bitmap session = record session {
  dst_saved_conn_bitmap_version =
      save_peers conn_bitmap.peer_ids session.dst_saved_conn_bitmap_version;
}

-- A network without its key or its value is a panic.
unfoldable pub save_networks :
    List ForeignNetworkInfo
    → List (ForeignNetworkRouteInfoKey × ℕ)
    → Exec (List (ForeignNetworkRouteInfoKey × ℕ))
save_networks [] t = done t
save_networks (item ∷ items) t = unwrap item.key >>= λ key. unwrap item.value >>= λ entry.
    save_networks items (save_version same_network key entry.version t)

unfoldable pub update_dst_saved_foreign_network_version :
    List ForeignNetworkInfo → SyncRouteSession → Exec SyncRouteSession
update_dst_saved_foreign_network_version infos session =
    save_networks infos session.dst_saved_foreign_network_versions >>= λ saved.
    done (record session { dst_saved_foreign_network_versions = saved })

unfoldable pub update_initiator_flag : Bool → SyncRouteSession → SyncRouteSession
update_initiator_flag is_initiator session = record session {
  we_are_initiator = is_initiator;
  need_sync_initiator_info = true;
}

-- The other side has a new session: what it had saved is forgotten.
unfoldable pub update_dst_session_id : (session_id : ℕ) → SyncRouteSession → SyncRouteSession
update_dst_session_id session_id session =
    if session_id == session.dst_session_id then session else record session {
      dst_session_id = session_id;
      dst_saved_conn_bitmap_version = [];
      dst_saved_peer_info_versions = [];
    }

-- The loop of `build_route_info`; `reachable` is the route table's `peer_reachable`.
unfoldable pub infos_to_send :
    (reachable : ℕ → Bool) → SyncRouteSession → List (ℕ × RoutePeerInfo) → List RoutePeerInfo
infos_to_send reachable session [] = []
infos_to_send reachable session ((key, info) ∷ rest) =
    let later = infos_to_send reachable session rest in
    if check_saved_peer_info_update_to_date info.peer_id info.version session
    then later
    else (if reachable key then info ∷ later else later)

abbrev pub unless_empty : {A : Type 0} → List A → Option (List A)
unless_empty [] = none
unless_empty (x ∷ xs) = some (x ∷ xs)

-- Some peer's connections are not saved, or saved in an older version.
unfoldable pub has_newer : (saved local : List (ℕ × ℕ)) → Bool
has_newer saved [] = false
has_newer saved ((peer_id, local_version) ∷ rest) =
    not (unwrap_or false (option_map (leb local_version) (lookup ◌==◌ peer_id saved)))
    || has_newer saved rest

-- `build_conn_bitmap`, from the cached bitmap.
unfoldable pub build_conn_bitmap : RouteConnBitmap → SyncRouteSession → Option RouteConnBitmap
build_conn_bitmap cached session =
    if has_newer session.dst_saved_conn_bitmap_version cached.peer_ids then some cached else none

unfoldable pub networks_to_send :
    SyncRouteSession
    → List (ForeignNetworkRouteInfoKey × ForeignNetworkRouteInfoEntry)
    → List ForeignNetworkInfo
networks_to_send session [] = []
networks_to_send session ((key, entry) ∷ rest) =
    let later = networks_to_send session rest in
    if key.peer_id == session.dst_peer_id
    then later
    else (if unwrap_or false (
          option_map (leb entry.version)
            (lookup same_network key session.dst_saved_foreign_network_versions))
        then later
        else record { key = some key; value = some entry } ∷ later)

module _ {Raw : Type 0} where
  unfoldable pub build_route_info :
      (reachable : ℕ → Bool) → SyncedRouteInfo Raw → SyncRouteSession → Option (List RoutePeerInfo)
  build_route_info reachable s session = unless_empty (infos_to_send reachable session s.peer_infos)

  unfoldable pub build_foreign_network_info :
      SyncedRouteInfo Raw → SyncRouteSession → Option (List ForeignNetworkInfo)
  build_foreign_network_info s session = unless_empty (networks_to_send session s.foreign_network)
