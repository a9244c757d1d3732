-- ===== src/Route/Handler/Outcome.antt =====
-- peers/peer_ospf_route.rs: how a call of `do_sync_route_info` ends.
use peer_link.Common.{
  inl, inr, ℕ, max, ◌≡◌, ◌≢◌, refl, ap, ◌∙◌, Bool, List, [], ◌∷◌, ◌++◌, Option, none, some, ◌==◌,
  done, length,
}
use peer_link.Common.Tables.{Text, lookup}
use peer_link.Route.{
  RoutePeerInfo, RouteConnBitmap, ForeignNetworkInfo, ok, err, duplicate_peer_id, SyncedRouteInfo,
}
use peer_link.Route.Known.{known, knows, offered, Clean, Routed, KnowsNewest, TakesNewest}
use peer_link.Route.Newest.{update_peer_infos-knows}
use peer_link.Route.Duplicate.{Stale, update_peer_infos-Stale}
use peer_link.Route.Session.{update_dst_saved_peer_info_version}
use peer_link.Route.Trust.{store_trusted, trust_peer, trust_peers, verify_and_update_group_trusts}
use peer_link.Route.Handler.{
  Service, Fixed, after_infos, take_infos, take_conn_bitmap, take_foreign_network, refresh_tables,
  refresh_owners, finish, begin, do_sync_route_info,
}

-- The infos of the peers and their raw messages are the same.
abbrev SameInfos : {Raw : Type 0} → (s s' : SyncedRouteInfo Raw) → Type 0
SameInfos s s' = (s'.peer_infos ≡ s.peer_infos) × (s'.raw_peer_infos ≡ s.raw_peer_infos)

module _ {Raw Tables : Type 0} (fixed : Fixed Raw Tables) where
  store_trusted-SameInfos :
      (p : ℕ) (trusted : List (Text × List ℕ)) (s : SyncedRouteInfo Raw)
      → SameInfos s (store_trusted fixed.mac p trusted s)
  unfolding store_trusted
  store_trusted-SameInfos p [] s = (refl, refl)
  store_trusted-SameInfos p (g ∷ gs) s = (refl, refl)

  trust_peer-SameInfos :
      (old : Option (List (Text × List ℕ))) (p : ℕ) (trusted : List (Text × List ℕ))
      (s : SyncedRouteInfo Raw)
      → SameInfos s (trust_peer fixed.mac old p trusted s)
  unfolding trust_peer
  trust_peer-SameInfos none p [] s = (refl, refl)
  trust_peer-SameInfos none p (g ∷ gs) s = store_trusted-SameInfos p (g ∷ gs) s
  trust_peer-SameInfos (some old) p trusted s = store_trusted-SameInfos p trusted s

  trust_peers-SameInfos :
      (declared : List (Text × Text)) (infos : List RoutePeerInfo) (s : SyncedRouteInfo Raw)
      → SameInfos s (trust_peers fixed.mac declared infos s)
  unfolding trust_peers
  trust_peers-SameInfos declared [] s = (refl, refl)
  trust_peers-SameInfos declared (i ∷ is) s =
      let first = trust_peer-SameInfos _ i.peer_id _ s in
      let rest = trust_peers-SameInfos declared is _ in (rest.0 ∙ first.0, rest.1 ∙ first.1)

  verify_and_update_group_trusts-KnowsNewest :
      (infos : List RoutePeerInfo) (raws : List Raw) (before s : SyncedRouteInfo Raw)
      → KnowsNewest fixed.now infos raws before s
      → KnowsNewest fixed.now infos raws before
          (verify_and_update_group_trusts fixed.mac infos fixed.acl_group_declarations s)
  unfolding verify_and_update_group_trusts
  verify_and_update_group_trusts-KnowsNewest infos raws before s k p =
      let same = trust_peers-SameInfos _ infos s in
      let of_infos = ap (lookup ◌==◌ p) same.0 in
      let of_raws = ap (lookup ◌==◌ p) same.1 in
      (
        ap known of_infos ∙ (k p).0,
        elim (k p).1 [
          | inl kept ↦ inl (of_infos ∙ kept.0, of_raws ∙ kept.1)
          | inr (n, i, r, a, b, c, d, e) ↦
              inr (n, i, r, a, b, c, d, (of_infos ∙ e.0, of_raws ∙ e.1))
        ],
      )

module _ {Raw Tables : Type 0} (fixed : Fixed Raw Tables)
    (from_peer_id from_session_id dst_peer_route_id : ℕ) (is_initiator : Bool)
    (st : Service Raw Tables) where
  -- When the infos of a call are as `update_peer_infos` takes them up to one that gives the sender,
  -- who is not the receiver, another route id and a version older than the newest known, the call
  -- is answered with `DuplicatePeerId`, whatever else it brings, with the infos before taken: of
  -- each peer, either what was known and its raw message stay, or an info of those given that is
  -- newer than what was known stands there whole, with the time and with its own raw message;
  -- either way the version known is the newest of what was known and what the infos say; and
  -- nothing else of the synced information changes, not even its version. The session has only
  -- taken note of the call and of the session id, and no table is computed again.
  pub do_sync_route_info-Stale :
      (infos : List RoutePeerInfo) (raws : List Raw) (bad : RoutePeerInfo) (bad_raw : Raw)
      (infos' : List RoutePeerInfo) (raws' : List Raw) (conn_bitmap : Option RouteConnBitmap)
      (foreign_network : Option (List ForeignNetworkInfo))
      → from_peer_id ≢ fixed.my_peer_id
      → length infos ≡ length raws
      → Clean fixed.peer_id_of fixed.my_peer_id fixed.my_peer_route_id from_peer_id
          dst_peer_route_id infos raws
      → Routed from_peer_id dst_peer_route_id st.synced_route_info
      → Stale from_peer_id dst_peer_route_id bad
          (max (knows from_peer_id st.synced_route_info) (offered from_peer_id infos))
      → (st' : Service Raw Tables) × (do_sync_route_info fixed from_peer_id from_session_id
            is_initiator
            (record {
              peer_infos = some (infos ++ bad ∷ infos');
              raw_peer_infos = some (raws ++ bad_raw ∷ raws');
              conn_bitmap = conn_bitmap;
              foreign_network = foreign_network;
            })
            st
          ≡ done (st', err duplicate_peer_id))
        × TakesNewest fixed.now infos raws st.synced_route_info st'.synced_route_info
        × (st'.synced_route_info.version ≡ st.synced_route_info.version)
        × (st'.session ≡ (begin fixed from_session_id st).session)
        × (st'.tables ≡ st.tables)
  unfolding do_sync_route_info take_infos after_infos finish begin
  do_sync_route_info-Stale infos raws bad bad_raw infos' raws' conns nets other len clean routed
        stale =
      let (synced, e, k, v) =
        update_peer_infos-Stale fixed.peer_id_of fixed.my_peer_id fixed.my_peer_route_id
          from_peer_id dst_peer_route_id fixed.now infos raws bad bad_raw infos' raws'
          st.synced_route_info other len clean routed stale in
      (
        record (begin fixed from_session_id st) { synced_route_info = synced },
        (rw e refl),
        k,
        v,
        refl,
        refl,
      )

  -- When a call brings infos as `update_peer_infos` takes them and nothing else, it is answered
  -- with the session's own id and whether it is the initiator. Of each peer, either what was known
  -- and its raw message stay, or an info of those given that is newer than what was known stands
  -- there whole, with the time and with its own raw message; either way the version known is the
  -- newest of what was known and what the infos say. The synced information is that after the
  -- infos, which changes nothing but these and the version, with the trusted groups of the peers
  -- verified for the infos and the local declarations; the tables of routes and then of owners are
  -- computed again from it; and the session has recorded that the sender knows the infos.
  pub do_sync_route_info-knows :
      (infos : List RoutePeerInfo) (raws : List Raw)
      → Clean fixed.peer_id_of fixed.my_peer_id fixed.my_peer_route_id from_peer_id
          dst_peer_route_id infos raws
      → Routed from_peer_id dst_peer_route_id st.synced_route_info
      → (st' : Service Raw Tables) × (do_sync_route_info fixed from_peer_id from_session_id
            is_initiator
            (record {
              peer_infos = some infos;
              raw_peer_infos = some raws;
              conn_bitmap = none;
              foreign_network = none;
            })
            st
          ≡ done (
            st',
            ok (record {
              is_initiator = (begin fixed from_session_id st).session.we_are_initiator;
              session_id = (begin fixed from_session_id st).session.my_session_id;
              error = none;
            }),
          ))
        × KnowsNewest fixed.now infos raws st.synced_route_info st'.synced_route_info
        × ((synced : SyncedRouteInfo Raw) × TakesNewest fixed.now infos raws st.synced_route_info
              synced
            × (st'.synced_route_info
                ≡ verify_and_update_group_trusts fixed.mac infos fixed.acl_group_declarations
                    synced))
        × (st'.tables
            ≡ fixed.update_owner_maps st'.synced_route_info
                (fixed.update_route_tables st'.synced_route_info st.tables))
        × (st'.session
            ≡ record (update_dst_saved_peer_info_version infos
                (begin fixed from_session_id st).session) { dst_is_initiator = is_initiator })
  unfolding do_sync_route_info take_infos after_infos finish begin take_conn_bitmap
      take_foreign_network refresh_tables refresh_owners update_dst_saved_peer_info_version
  do_sync_route_info-knows infos raws clean routed =
      let (synced, e, k, out) =
        update_peer_infos-knows fixed.peer_id_of fixed.my_peer_id fixed.my_peer_route_id
          from_peer_id dst_peer_route_id fixed.now infos raws st.synced_route_info clean routed in
      let st1 = begin fixed from_session_id st in
      let trusted =
        verify_and_update_group_trusts fixed.mac infos fixed.acl_group_declarations synced in
      (
        record st1 {
          synced_route_info = trusted;
          session = record (update_dst_saved_peer_info_version infos st1.session) {
            dst_is_initiator = is_initiator;
          };
          tables = fixed.update_owner_maps trusted (fixed.update_route_tables trusted st1.tables);
        },
        (rw e refl),
        verify_and_update_group_trusts-KnowsNewest fixed infos raws st.synced_route_info synced k.0,
        (synced, k, refl),
        refl,
        refl,
      )
