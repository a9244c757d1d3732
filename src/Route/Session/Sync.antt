-- ===== src/Route/Session/Sync.antt =====
-- peers/peer_ospf_route.rs: `sync_route_with_peer`, which sends a peer what it has not got. The call of
-- the peer is a parameter; the raw messages that go along with the infos are left out.
use peer_link.Common.{
  ℕ, Bool, true, false, List, ◌&&◌, not, Option, none, some, ◌==◌, if◌then◌else◌, Exec, done, panic,
  ◌>>=◌,
}
use peer_link.Route.{RoutePeerInfo, RouteConnBitmap, ForeignNetworkInfo, inc, SyncedRouteInfo}
use peer_link.Route.Session.{
  SyncRouteSession, update_dst_saved_peer_info_version, update_dst_saved_conn_bitmap_version,
  update_dst_saved_foreign_network_version, update_dst_session_id, build_route_info,
  build_conn_bitmap, build_foreign_network_info,
}

pub record SyncRequest : Type 0 where
  pub peer_infos : Option (List RoutePeerInfo)
  pub conn_bitmap : Option RouteConnBitmap
  pub foreign_network : Option (List ForeignNetworkInfo)

pub record SyncRouteInfoRequest : Type 0 where
  pub my_peer_id : ℕ
  pub my_session_id : ℕ
  pub is_initiator : Bool
  pub content : SyncRequest

-- `error` is the number of a `SyncRouteInfoError`.
pub record SyncRouteInfoResponse : Type 0 where
  pub is_initiator : Bool
  pub session_id : ℕ
  pub error : Option ℕ

pub data Reply : Type 0 where
  failed : Reply
  answered : SyncRouteInfoResponse → Reply

abbrev pub is_none : {A : Type 0} → Option A → Bool
is_none none = true
is_none (some _) = false

abbrev pub has_nothing : SyncRequest → Bool
has_nothing r = is_none r.peer_infos && (is_none r.conn_bitmap && is_none r.foreign_network)

abbrev duplicate_peer_id_code : ℕ
duplicate_peer_id_code = 0

-- What was sent is recorded.
unfoldable pub save_sent_infos : Option (List RoutePeerInfo) → SyncRouteSession → SyncRouteSession
save_sent_infos none session = session
save_sent_infos (some infos) session = update_dst_saved_peer_info_version infos session

unfoldable pub save_sent_conns : Option RouteConnBitmap → SyncRouteSession → SyncRouteSession
save_sent_conns none session = session
save_sent_conns (some m) session = update_dst_saved_conn_bitmap_version m session

unfoldable pub save_sent_networks :
    Option (List ForeignNetworkInfo) → SyncRouteSession → Exec SyncRouteSession
save_sent_networks none session = done session
save_sent_networks (some infos) session = update_dst_saved_foreign_network_version infos session

unfoldable pub record_sent :
    SyncRequest → SyncRouteInfoResponse → SyncRouteSession → Exec SyncRouteSession
record_sent request resp session = save_sent_networks request.foreign_network (
    save_sent_conns request.conn_bitmap (
      save_sent_infos request.peer_infos (
        update_dst_session_id resp.session_id (record session {
          rpc_tx_count = inc session.rpc_tx_count;
          dst_is_initiator = resp.is_initiator;
        }))))

unfoldable pub handle_error :
    (is_public_server : Bool)
    → SyncRequest
    → SyncRouteInfoResponse
    → Option ℕ
    → SyncRouteSession
    → Exec SyncRouteSession
handle_error is_public_server request resp none session = record_sent request resp session
handle_error is_public_server request resp (some code) session =
    if code == duplicate_peer_id_code
    then (if is_public_server then done session else panic)
    else done (record session { need_sync_initiator_info = true })

unfoldable pub handle_reply :
    (is_public_server : Bool) → SyncRequest → Reply → SyncRouteSession → Exec SyncRouteSession
handle_reply is_public_server request failed session =
    done (record session { need_sync_initiator_info = true })
handle_reply is_public_server request (answered resp) session =
    handle_error is_public_server request resp resp.error session

module _ {Raw : Type 0} (reachable : ℕ → Bool) (s : SyncedRouteInfo Raw) (cached : RouteConnBitmap)
    (is_public_server : Bool) (rpc : SyncRouteInfoRequest → Reply) where
  unfoldable pub build_sync_request : SyncRouteSession → SyncRequest
  build_sync_request session = record {
    peer_infos = build_route_info reachable s session;
    conn_bitmap = build_conn_bitmap cached session;
    foreign_network = build_foreign_network_info s session;
  }

  -- The request is built, and the flag that is sent cleared.
  unfoldable pub send_request : SyncRequest → SyncRouteSession → Exec (Bool × SyncRouteSession)
  send_request request session =
      handle_reply is_public_server request
        (rpc (record {
          my_peer_id = session.my_peer_id;
          my_session_id = session.my_session_id;
          is_initiator = session.we_are_initiator;
          content = request;
        }))
        (record session { need_sync_initiator_info = false })
      >>= λ session'. done (false, session')

  -- The answer `true` ends the loop that synchronises.
  unfoldable pub sync_route_with_peer :
      (sync_as_initiator : Bool) → SyncRouteSession → Exec (Bool × SyncRouteSession)
  sync_route_with_peer sync_as_initiator session =
      let request = build_sync_request session in
      if has_nothing request
        && (not session.need_sync_initiator_info
            && not (sync_as_initiator && session.we_are_initiator))
      then done (true, session)
      else send_request request session
