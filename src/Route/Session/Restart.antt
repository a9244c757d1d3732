-- ===== src/Route/Session/Restart.antt =====
-- peers/peer_ospf_route.rs: what is sent to a peer that has a new session.
use peer_link.Common.{
  ℕ, ◌≡◌, ◌≢◌, refl, ap, inl, inr, Bool, true, not, List, [], ◌∷◌, some, ◌==◌, ==_iff,
  if◌then◌else◌, Bool-cases, ◌&&◌,
}
use peer_link.Common.Tables.{lookup}
use peer_link.Route.{
  RoutePeerInfo, RouteConnBitmap, ForeignNetworkRouteInfoKey, ForeignNetworkRouteInfoEntry,
  SyncedRouteInfo,
}
use peer_link.Route.Session.{
  SyncRouteSession, check_saved_peer_info_update_to_date, infos_to_send, unless_empty, has_newer,
  update_dst_session_id, build_route_info, build_conn_bitmap, build_foreign_network_info,
  networks_to_send,
}

-- The infos of the reachable peers but the receiver itself, and without those only heard of.
abbrev pub all_infos :
    (reachable : ℕ → Bool) (dst_peer_id : ℕ) → List (ℕ × RoutePeerInfo) → List RoutePeerInfo
all_infos reachable d [] = []
all_infos reachable d ((key, info) ∷ rest) =
    if not (info.version == 0) && (not (info.peer_id == d) && reachable key)
    then info ∷ all_infos reachable d rest
    else all_infos reachable d rest

infos_to_send_fresh :
    (reachable : ℕ → Bool) (session : SyncRouteSession) (t : List (ℕ × RoutePeerInfo))
    → session.dst_saved_peer_info_versions ≡ []
    → infos_to_send reachable session t ≡ all_infos reachable session.dst_peer_id t
unfolding infos_to_send check_saved_peer_info_update_to_date lookup
infos_to_send_fresh reachable session [] e = refl
infos_to_send_fresh reachable session ((key, info) ∷ rest) e =
    let ih = infos_to_send_fresh reachable session rest e in
    elim (Bool-cases (info.version == 0)) [
      | inl a ↦ rw a ih
      | inr a ↦ elim (Bool-cases (info.peer_id == session.dst_peer_id)) [
        | inl b ↦ rw a (rw b ih)
        | inr b ↦ elim (Bool-cases (reachable key)) [
          | inl c ↦ rw a (rw b (rw e (rw c (ap (◌∷◌ info) ih))))
          | inr c ↦ rw a (rw b (rw e (rw c ih)))
        ]
      ]
    ]

has_newer_fresh : (peers : List (ℕ × ℕ)) → peers ≢ [] → has_newer [] peers ≡ true
unfolding has_newer lookup
has_newer_fresh [] h = absurd (h refl)
has_newer_fresh ((p, v) ∷ rest) h = refl

update_dst_session_id_other :
    (id : ℕ) (session : SyncRouteSession)
    → id ≢ session.dst_session_id
    → update_dst_session_id id session ≡ record session {
      dst_session_id = id;
      dst_saved_conn_bitmap_version = [];
      dst_saved_peer_info_versions = [];
    }
unfolding update_dst_session_id
update_dst_session_id_other id session h = elim (Bool-cases (id == session.dst_session_id)) [
  | inl e ↦ absurd (h ((==_iff id session.dst_session_id).0 e))
  | inr e ↦ rw e refl
]

networks_to_send_same :
    (session session' : SyncRouteSession)
    (t : List (ForeignNetworkRouteInfoKey × ForeignNetworkRouteInfoEntry))
    → session'.dst_peer_id ≡ session.dst_peer_id
    → session'.dst_saved_foreign_network_versions ≡ session.dst_saved_foreign_network_versions
    → networks_to_send session' t ≡ networks_to_send session t
unfolding networks_to_send
networks_to_send_same session session' [] d e = refl
networks_to_send_same session session' ((key, entry) ∷ rest) d e =
    rw d (rw e (rw (networks_to_send_same session session' rest d e) refl))

-- When a peer comes with another session id, everything known of the reachable peers but itself is sent
-- to it again, of the version 0 nothing, and so is the bitmap of connections if it names any peer; but
-- of the foreign networks only those are sent that would have been sent before.
pub update_dst_session_id-sends :
    {Raw : Type 0} (reachable : ℕ → Bool) (s : SyncedRouteInfo Raw) (cached : RouteConnBitmap)
    (session_id : ℕ) (session : SyncRouteSession)
    → session_id ≢ session.dst_session_id
    → (build_route_info reachable s (update_dst_session_id session_id session)
        ≡ unless_empty (all_infos reachable session.dst_peer_id s.peer_infos))
      × (cached.peer_ids ≢ []
          → build_conn_bitmap cached (update_dst_session_id session_id session) ≡ some cached)
      × (build_foreign_network_info s (update_dst_session_id session_id session)
          ≡ build_foreign_network_info s session)
unfolding build_route_info build_conn_bitmap build_foreign_network_info
update_dst_session_id-sends reachable s cached id session h =
    rw (update_dst_session_id_other id session h) (
      ap unless_empty (
          infos_to_send_fresh reachable
            (record session {
              dst_session_id = id;
              dst_saved_conn_bitmap_version = [];
              dst_saved_peer_info_versions = [];
            })
            s.peer_infos refl),
      (λ n. rw (has_newer_fresh cached.peer_ids n) refl),
      ap unless_empty (
          networks_to_send_same session
            (record session {
              dst_session_id = id;
              dst_saved_conn_bitmap_version = [];
              dst_saved_peer_info_versions = [];
            })
            s.foreign_network refl refl),
    )
