-- ===== src/Route/Session/Quiet.antt =====
-- peers/peer_ospf_route.rs: the loop that synchronises with a peer comes to rest.
use peer_link.Common.{
  ℕ, ◌≡◌, refl, ap, ◌∙◌, inl, inr, Bool, true, false, not, List, [], ◌∷◌, none, ==_iff,
  if◌then◌else◌, Bool-cases, Exec, done, ◌>>=◌, ◌&&◌,
}
use peer_link.Common.Tables.{AllOf}
use peer_link.Route.{
  RoutePeerInfo, RouteConnBitmap, ForeignNetworkRouteInfoKey, ForeignNetworkInfo, same_network, inc,
  SyncedRouteInfo,
}
use peer_link.Route.Session.{
  SyncRouteSession, infos_to_send, has_newer, networks_to_send, unless_empty,
  update_dst_saved_peer_info_version, update_dst_saved_conn_bitmap_version,
  update_dst_saved_foreign_network_version, update_dst_session_id, build_route_info,
  build_conn_bitmap, build_foreign_network_info, save_infos, save_peers, save_networks,
}
use peer_link.Route.Session.Saved.{
  IsSavedNetwork, save_infos-IsSaved, IsSaved-save_infos, save_peers-IsSaved, save_networks-IsSaved,
}
use peer_link.Route.Session.Unsent.{
  KeepsSaved, infos_to_send-none, has_newer-none, networks_to_send-IsWhole, networks_to_send-none,
}
use peer_link.Route.Session.Sync.{
  SyncRequest, SyncRouteInfoRequest, SyncRouteInfoResponse, Reply, answered, has_nothing,
  save_sent_infos, save_sent_conns, save_sent_networks, record_sent, handle_error, handle_reply,
  build_sync_request, send_request, sync_route_with_peer,
}

and-true : (a b : Bool) → (a && b) ≡ true → (a ≡ true) × (b ≡ true)
and-true true b h = (refl, h)
and-true false b h = cc h

not-true : (a : Bool) → not a ≡ true → a ≡ false
not-true true h = cc h
not-true false h = refl

-- The connections saved when the bitmap is sent where it is needed.
abbrev saved_conns : (peers saved : List (ℕ × ℕ)) → List (ℕ × ℕ)
saved_conns peers saved = if has_newer saved peers then save_peers peers saved else saved

saved_conns-quiet : (peers saved : List (ℕ × ℕ)) → has_newer (saved_conns peers saved) peers ≡ false
saved_conns-quiet peers saved = elim (Bool-cases (has_newer saved peers)) [
  | inl e ↦ rw e (has_newer-none (save_peers peers saved) peers (save_peers-IsSaved peers saved))
  | inr e ↦ rw e e
]

save_sent_infos_lem :
    (sent : List RoutePeerInfo) (session : SyncRouteSession)
    → save_sent_infos (unless_empty sent) session ≡ record session {
      dst_saved_peer_info_versions = save_infos sent session.dst_saved_peer_info_versions;
    }
unfolding save_sent_infos save_infos update_dst_saved_peer_info_version
save_sent_infos_lem [] session = refl
save_sent_infos_lem (i ∷ is) session = refl

save_sent_conns_lem :
    (cached : RouteConnBitmap) (session other : SyncRouteSession)
    → session.dst_saved_conn_bitmap_version ≡ other.dst_saved_conn_bitmap_version
    → save_sent_conns (build_conn_bitmap cached session) other ≡ record other {
      dst_saved_conn_bitmap_version =
          saved_conns cached.peer_ids other.dst_saved_conn_bitmap_version;
    }
unfolding save_sent_conns build_conn_bitmap update_dst_saved_conn_bitmap_version
save_sent_conns_lem cached session other same =
    rw same (elim (Bool-cases (has_newer other.dst_saved_conn_bitmap_version cached.peer_ids)) [
      | inl e ↦ rw e refl
      | inr e ↦ rw e refl
    ])

save_sent_networks_lem :
    (sent : List ForeignNetworkInfo) (session : SyncRouteSession)
    → save_sent_networks (unless_empty sent) session ≡ (
        save_networks sent session.dst_saved_foreign_network_versions >>= λ saved.
        done (record session { dst_saved_foreign_network_versions = saved }))
unfolding save_sent_networks save_networks update_dst_saved_foreign_network_version
save_sent_networks_lem [] session = refl
save_sent_networks_lem (i ∷ is) session = refl

update_dst_session_id_same :
    (id : ℕ) (session : SyncRouteSession)
    → id ≡ session.dst_session_id
    → update_dst_session_id id session ≡ session
unfolding update_dst_session_id
update_dst_session_id_same id session e = rw ((==_iff id session.dst_session_id).1 e) refl

handle_reply-answered :
    (is_public_server : Bool) (request : SyncRequest) (resp : SyncRouteInfoResponse)
    (session : SyncRouteSession)
    → resp.error ≡ none
    → handle_reply is_public_server request (answered resp) session
      ≡ record_sent request resp session
unfolding handle_reply handle_error
handle_reply-answered is_public_server request resp session ok =
    ap (λ x. handle_error is_public_server request resp x session) ok

module _ {Raw : Type 0} (reachable : ℕ → Bool) (s : SyncedRouteInfo Raw) (cached : RouteConnBitmap)
    (is_public_server : Bool) where
  -- The session when the three parts of a request are recorded.
  abbrev settled :
      SyncRouteInfoResponse
      → List (ForeignNetworkRouteInfoKey × ℕ)
      → SyncRouteSession
      → SyncRouteSession
  settled resp networks session = record session {
    dst_saved_peer_info_versions =
        save_infos (infos_to_send reachable session s.peer_infos)
          session.dst_saved_peer_info_versions;
    dst_saved_conn_bitmap_version =
        saved_conns cached.peer_ids session.dst_saved_conn_bitmap_version;
    dst_saved_foreign_network_versions = networks;
    need_sync_initiator_info = false;
    rpc_tx_count = inc session.rpc_tx_count;
    dst_is_initiator = resp.is_initiator;
  }

  record_sent_lem :
      (resp : SyncRouteInfoResponse) (networks : List (ForeignNetworkRouteInfoKey × ℕ))
      (session : SyncRouteSession)
      → resp.session_id ≡ session.dst_session_id
      → save_networks
          (networks_to_send session s.foreign_network)
          session.dst_saved_foreign_network_versions
        ≡ done networks
      → (rpc : SyncRouteInfoRequest → Reply)
      → record_sent
          (build_sync_request reachable s cached is_public_server rpc session)
          resp
          (record session { need_sync_initiator_info = false })
        ≡ done (settled resp networks session)
  unfolding record_sent build_sync_request build_route_info build_foreign_network_info
  record_sent_lem resp networks session same saved rpc =
      let base : SyncRouteSession = record session {
        need_sync_initiator_info = false;
        rpc_tx_count = inc session.rpc_tx_count;
        dst_is_initiator = resp.is_initiator;
      } in
      let infos = infos_to_send reachable session s.peer_infos in
      let nets = networks_to_send session s.foreign_network in
      ap
        (λ x. save_sent_networks (unless_empty nets) (
          save_sent_conns (build_conn_bitmap cached session)
            (save_sent_infos (unless_empty infos) x)))
        (update_dst_session_id_same resp.session_id base same)
      ∙ ap
          (λ x.
            save_sent_networks (unless_empty nets)
              (save_sent_conns (build_conn_bitmap cached session) x))
          (save_sent_infos_lem infos base)
      ∙ ap (save_sent_networks (unless_empty nets)) (save_sent_conns_lem cached session _ refl)
      ∙ save_sent_networks_lem nets _
      ∙ ap (λ x. x >>= λ saved. done (settled resp saved session)) saved

  settled-quiet :
      (resp : SyncRouteInfoResponse) (networks : List (ForeignNetworkRouteInfoKey × ℕ))
      (session : SyncRouteSession) (rpc : SyncRouteInfoRequest → Reply)
      → KeepsSaved same_network session.dst_saved_foreign_network_versions networks
      → AllOf (IsSavedNetwork networks) (networks_to_send session s.foreign_network)
      → has_nothing (
          build_sync_request reachable s cached is_public_server rpc
            (settled resp networks session))
        ≡ true
  unfolding build_sync_request build_route_info build_foreign_network_info build_conn_bitmap
  settled-quiet resp networks session rpc keeps all =
      let infos = infos_to_send reachable session s.peer_infos in
      let i =
        infos_to_send-none reachable session (settled resp networks session) s.peer_infos refl
          (λ k v h. IsSaved-save_infos k v infos session.dst_saved_peer_info_versions h)
          (save_infos-IsSaved infos session.dst_saved_peer_info_versions) in
      let n =
        networks_to_send-none session (settled resp networks session) s.foreign_network refl keeps
          all in
      rw i
        (rw (saved_conns-quiet cached.peer_ids session.dst_saved_conn_bitmap_version) (rw n refl))

  module _ (rpc : SyncRouteInfoRequest → Reply) where
    abbrev sync : Bool → SyncRouteSession → Exec (Bool × SyncRouteSession)
    sync = sync_route_with_peer reachable s cached is_public_server rpc

    sync-nothing :
        (session : SyncRouteSession)
        → has_nothing (build_sync_request reachable s cached is_public_server rpc session) ≡ true
        → session.need_sync_initiator_info ≡ false
        → sync false session ≡ done (true, session)
    unfolding sync_route_with_peer
    sync-nothing session a b = rw a (rw b refl)

    send_request-answered :
        (resp : SyncRouteInfoResponse) (session : SyncRouteSession)
        → ((request : SyncRouteInfoRequest) → rpc request ≡ answered resp)
        → resp.error ≡ none
        → resp.session_id ≡ session.dst_session_id
        → (session' : SyncRouteSession) × (send_request reachable s cached is_public_server rpc
              (build_sync_request reachable s cached is_public_server rpc session)
              session
            ≡ done (false, session'))
          × (sync false session' ≡ done (true, session'))
    unfolding send_request
    send_request-answered resp session answers ok same =
        let nets = networks_to_send session s.foreign_network in
        let (networks, e, keeps, all) =
          save_networks-IsSaved nets session.dst_saved_foreign_network_versions
            (networks_to_send-IsWhole session s.foreign_network) in
        let r = record_sent_lem resp networks session same e rpc in
        (
          settled resp networks session,
          rw
              (answers (record {
                my_peer_id = session.my_peer_id;
                my_session_id = session.my_session_id;
                is_initiator = session.we_are_initiator;
                content = build_sync_request reachable s cached is_public_server rpc session;
              }))
              (rw (handle_reply-answered is_public_server _ resp _ ok) (rw r refl)),
          sync-nothing (settled resp networks session)
              (settled-quiet resp networks session rpc keeps all) refl,
        )

    -- When the peer answers without an error and with the session id it is known by, a call of
    -- `sync_route_with_peer` returns, and the next one, which is not made to show who is the initiator,
    -- finds nothing to send and ends the loop, with the session as it is.
    pub sync_route_with_peer-twice :
        (resp : SyncRouteInfoResponse) (sync_as_initiator : Bool) (session : SyncRouteSession)
        → ((request : SyncRouteInfoRequest) → rpc request ≡ answered resp)
        → resp.error ≡ none
        → resp.session_id ≡ session.dst_session_id
        → (finished : Bool) × (session' : SyncRouteSession) × (sync_route_with_peer reachable s
              cached is_public_server rpc sync_as_initiator session
            ≡ done (finished, session'))
          × (sync_route_with_peer reachable s cached is_public_server rpc false session'
              ≡ done (true, session'))
    unfolding sync_route_with_peer
    sync_route_with_peer-twice resp first session answers ok same =
        let request = build_sync_request reachable s cached is_public_server rpc session in
        elim (Bool-cases (
          has_nothing request
          && (not session.need_sync_initiator_info && not (first && session.we_are_initiator)))) [
            | inl e ↦
                let (a, b) = and-true _ _ e in
                let (c, d) = and-true _ _ b in
                (
                  true,
                  session,
                  rw e refl,
                  sync-nothing session a (not-true session.need_sync_initiator_info c),
                )
            | inr e ↦
                let (session', f, g) = send_request-answered resp session answers ok same in
                (false, session', rw e f, g)
          ]
