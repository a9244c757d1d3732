-- ===== src/Route/Handler.antt =====
-- peers/peer_ospf_route.rs: `do_sync_route_info`, which takes what another peer sends. Whether the
-- service still runs and the session that is found or started are the caller's; what computes the route
-- tables and the owners of foreign networks from the synced information is a parameter on those tables.
pub mod Outcome
mod Tests
use peer_link.Common.{
  ℕ, Bool, true, false, List, [], ◌∷◌, ◌||◌, Option, none, some, if◌then◌else◌, Exec, done, panic,
  ◌>>=◌, unwrap,
}
use peer_link.Common.Tables.{Text}
use peer_link.Route.{
  Timestamp, RoutePeerInfo, new_peer_info, RouteConnBitmap, ForeignNetworkInfo, Error, Result, ok,
  err, inc, SyncedRouteInfo,
}
use peer_link.Route.Synced.{update_peer_infos}
use peer_link.Route.Learn.{update_conn_map, update_foreign_network}
use peer_link.Route.Session.{
  SyncRouteSession, update_dst_session_id, update_dst_saved_peer_info_version,
  update_dst_saved_conn_bitmap_version, update_dst_saved_foreign_network_version,
}
use peer_link.Route.Session.Sync.{SyncRouteInfoResponse}
use peer_link.Route.Trust.{GroupIdentity, verify_and_update_group_trusts}

-- What a call brings.
pub record Received (Raw : Type 0) : Type 0 where
  pub peer_infos : Option (List RoutePeerInfo)
  pub raw_peer_infos : Option (List Raw)
  pub conn_bitmap : Option RouteConnBitmap
  pub foreign_network : Option (List ForeignNetworkInfo)

-- What a call changes.
pub record Service (Raw Tables : Type 0) : Type 0 where
  pub synced_route_info : SyncedRouteInfo Raw
  pub session : SyncRouteSession
  pub tables : Tables

-- The state of the service, and the error that ends the call early, if any.
abbrev pub Stage : (Raw Tables : Type 0) → Type 0
Stage Raw Tables = Service Raw Tables × Result (Unit {0})

abbrev pub is_some : {A : Type 0} → Option A → Bool
is_some none = false
is_some (some _) = true

-- What is fixed during a call.
pub record Fixed (Raw Tables : Type 0) : Type 0 where
  pub my_peer_id : ℕ
  pub my_peer_route_id : ℕ
  pub peerlink_version : Text
  pub now : Timestamp
  pub peer_id_of : Raw → Option ℕ
  pub mac : Text → List ℕ → List ℕ
  pub acl_group_declarations : List GroupIdentity
  pub update_route_tables : SyncedRouteInfo Raw → Tables → Tables
  pub update_owner_maps : SyncedRouteInfo Raw → Tables → Tables

module _ {Raw Tables : Type 0} (fixed : Fixed Raw Tables) where
  -- After `update_peer_infos`: an error is returned at once.
  unfoldable pub after_infos :
      List RoutePeerInfo
      → SyncedRouteInfo Raw × Result (Unit {0})
      → Service Raw Tables
      → Stage Raw Tables
  after_infos infos (synced, err e) st = (record st { synced_route_info = synced }, err e)
  after_infos infos (synced, ok _) st = (
    record st {
      synced_route_info =
          verify_and_update_group_trusts fixed.mac infos fixed.acl_group_declarations synced;
      session = update_dst_saved_peer_info_version infos st.session;
    },
    ok tt,
  )

  unfoldable pub take_infos :
      (from_peer_id : ℕ)
      → Option (List RoutePeerInfo)
      → Option (List Raw)
      → Service Raw Tables
      → Exec (Stage Raw Tables)
  take_infos from_peer_id none raws st = done (st, ok tt)
  take_infos from_peer_id (some infos) raws st = unwrap raws >>= λ given.
      update_peer_infos fixed.peer_id_of fixed.my_peer_id fixed.my_peer_route_id from_peer_id
        fixed.now infos given st.synced_route_info
      >>= λ updated. done (after_infos infos updated st)

  unfoldable pub take_conn_bitmap :
      Option RouteConnBitmap → Service Raw Tables → Exec (Service Raw Tables)
  take_conn_bitmap none st = done st
  take_conn_bitmap (some m) st =
      update_conn_map (new_peer_info fixed.peerlink_version fixed.now) m st.synced_route_info
      >>= λ synced. done (record st {
        synced_route_info = synced;
        session = update_dst_saved_conn_bitmap_version m st.session;
      })

  unfoldable pub take_foreign_network :
      Option (List ForeignNetworkInfo) → Service Raw Tables → Exec (Service Raw Tables)
  take_foreign_network none st = done st
  take_foreign_network (some infos) st =
      update_dst_saved_foreign_network_version infos st.session >>= λ session. done (record st {
        synced_route_info = update_foreign_network fixed.now infos st.synced_route_info;
        session = session;
      })

  unfoldable pub refresh_tables : (needed : Bool) → Service Raw Tables → Service Raw Tables
  refresh_tables needed st =
      if needed
      then record st { tables = fixed.update_route_tables st.synced_route_info st.tables }
      else st

  unfoldable pub refresh_owners : (needed : Bool) → Service Raw Tables → Service Raw Tables
  refresh_owners needed st =
      if needed
      then record st { tables = fixed.update_owner_maps st.synced_route_info st.tables }
      else st

  abbrev answer :
      (is_initiator : Bool) → Service Raw Tables → Service Raw Tables × Result SyncRouteInfoResponse
  answer is_initiator st = (
    record st { session = record st.session { dst_is_initiator = is_initiator } },
    ok (record {
      is_initiator = st.session.we_are_initiator;
      session_id = st.session.my_session_id;
      error = none;
    }),
  )

  -- The rest of the handler, when the infos have been taken.
  unfoldable pub finish :
      (is_initiator : Bool)
      → Received Raw
      → Stage Raw Tables
      → Exec (Service Raw Tables × Result SyncRouteInfoResponse)
  finish is_initiator received (st, err e) = done (st, err e)
  finish is_initiator received (st, ok _) =
      let need_update_route_table = is_some received.peer_infos || is_some received.conn_bitmap in
      take_conn_bitmap received.conn_bitmap st >>= λ st1.
      take_foreign_network received.foreign_network (refresh_tables need_update_route_table st1)
      >>= λ st2. done (
          answer is_initiator
            (refresh_owners (need_update_route_table || is_some received.foreign_network) st2))

  unfoldable pub begin : (from_session_id : ℕ) → Service Raw Tables → Service Raw Tables
  begin from_session_id st = record st {
    session =
        update_dst_session_id from_session_id
          (record st.session { rpc_rx_count = inc st.session.rpc_rx_count });
  }

  unfoldable pub do_sync_route_info :
      (from_peer_id from_session_id : ℕ) (is_initiator : Bool)
      → Received Raw
      → Service Raw Tables
      → Exec (Service Raw Tables × Result SyncRouteInfoResponse)
  do_sync_route_info from_peer_id from_session_id is_initiator received st =
      take_infos from_peer_id received.peer_infos received.raw_peer_infos (begin from_session_id st)
      >>= λ stage. finish is_initiator received stage
