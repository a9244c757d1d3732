-- ===== src/Route/Tests.antt =====
-- peers/peer_ospf_route.rs, peers/graph_algo.rs: concrete peers, and the theorems at them.
use peer_link.Common.{
  ℕ, zero, suc, Bool-cases, ◌≤◌, ◌<◌, max, ◌≡◌, ◌≢◌, ◌⊎◌, refl, ap, inl, inr, Bool, true, false,
  List, [], ◌∷◌, ◌++◌, ◌&&◌, none, some, ◌==◌, done, arith, get_elem?,
}
use peer_link.Common.Tables.{lookup, AllOf}
use peer_link.Route.{
  RoutePeerInfo, RouteConnBitmap, ok, err, duplicate_peer_id, inc, SyncedRouteInfo,
}
use peer_link.Route.Samples.{noon, info, raw_id, state, sender}
use peer_link.Route.Synced.{contains, update_peer_infos}
use peer_link.Route.Known.{TakesNewest, knows, offered, Clean, Routed}
use peer_link.Route.Newest.{update_peer_infos-knows}
use peer_link.Route.Duplicate.{Stale, update_peer_infos-Stale}
use peer_link.Route.Bitmap.{get_connected_peers, new_conn_bitmap}
use peer_link.Route.Bitmap.Rows.{connections}
use peer_link.Route.Bitmap.RoundTrip.{mentions, get_connected_peers-new_conn_bitmap}
use peer_link.Route.Session.{
  SyncRouteSession, infos_to_send, unless_empty, check_saved_peer_info_update_to_date,
  update_dst_session_id, update_dst_saved_peer_info_version, build_route_info, build_conn_bitmap,
  build_foreign_network_info,
}
use peer_link.Route.Session.Sync.{
  SyncRouteInfoRequest, SyncRouteInfoResponse, Reply, answered, sync_route_with_peer,
}
use peer_link.Route.Session.Quiet.{sync_route_with_peer-twice}
use peer_link.Route.Session.Restart.{all_infos, update_dst_session_id-sends}
use peer_link.Route.Session.Exchange.{SavedIsKnown, IsTold, update_peer_infos-infos_to_send}
use peer_link.Route.Graph.{dijkstra_with_first_hop}
use peer_link.Route.Graph.Heap.{In}
use peer_link.Route.Graph.Invariant.{Walk}
use peer_link.Route.Graph.Shortest.{dijkstra_with_first_hop-shortest}

-- The receiver 1 has an old info of the sender 2, and a new one of 3.
abbrev pub before : SyncedRouteInfo ℕ
before = state ((2, info 2 22 5) ∷ (3, info 3 33 9) ∷ [])

pub before-Routed : Routed 2 22 before
unfolding lookup
before-Routed old e = inr (cc e)

abbrev pub received : List RoutePeerInfo
received = info 2 22 6 ∷ info 3 33 8 ∷ []

pub received-Clean : Clean raw_id 1 11 2 22 received (2 ∷ 3 ∷ [])
received-Clean = (
  refl,
  (λ e. absurd (omega (arith, e))),
  (λ e. refl),
  (refl, (λ e. absurd (omega (arith, e))), (λ e. absurd (omega (arith, e))), tt),
)

update_peer_infos-knows_example :
    (s' : SyncedRouteInfo ℕ) × (update_peer_infos raw_id 1 11 2 noon received (2 ∷ 3 ∷ []) before
      ≡ done (s', ok tt))
    × TakesNewest noon received (2 ∷ 3 ∷ []) before s'
    × ((s' ≡ before)
        ⊎ ((s'.version ≡ inc before.version) × ((p : ℕ) × (knows p before < knows p s'))))
update_peer_infos-knows_example =
    update_peer_infos-knows raw_id 1 11 2 22 noon received (2 ∷ 3 ∷ []) before received-Clean
      before-Routed

pub bad-Stale : Stale 2 22 (info 2 99 1) (max (knows 2 before) (offered 2 received))
unfolding lookup
bad-Stale = (refl, (λ e. absurd (omega (arith, e))), omega arith)

update_peer_infos-Stale_example :
    (s' : SyncedRouteInfo ℕ) × (update_peer_infos raw_id 1 11 2 noon
        (received ++ info 2 99 1 ∷ [])
        ((2 ∷ 3 ∷ []) ++ 2 ∷ [])
        before
      ≡ done (s', err duplicate_peer_id))
    × TakesNewest noon received (2 ∷ 3 ∷ []) before s'
    × (s'.version ≡ before.version)
update_peer_infos-Stale_example =
    update_peer_infos-Stale raw_id 1 11 2 22 noon received (2 ∷ 3 ∷ []) (info 2 99 1) 2 [] [] before
      (λ e. absurd (omega (arith, e))) refl received-Clean before-Routed bad-Stale

abbrev peers : List (ℕ × ℕ)
peers = (1, 4) ∷ (2, 5) ∷ (3, 0) ∷ []

get_connected_peers-new_conn_bitmap_example :
    (m : RouteConnBitmap) × (new_conn_bitmap before.conn_map peers ≡ done m)
    × (m.peer_ids ≡ peers)
    × ((i p v : ℕ)
        → get_elem? peers i ≡ some (p, v)
        → (found : List ℕ) × (get_connected_peers m i ≡ done found)
          × ((q : ℕ)
              → contains q found
                ≡ (mentions q peers && contains q (connections before.conn_map p))))
get_connected_peers-new_conn_bitmap_example =
    get_connected_peers-new_conn_bitmap before.conn_map peers

-- The session of 2 with 1, which has told it of an older version of itself.
abbrev pub session : SyncRouteSession
session = record {
  my_peer_id = 2;
  dst_peer_id = 1;
  dst_saved_peer_info_versions = (2, 5) ∷ [];
  dst_saved_conn_bitmap_version = [];
  dst_saved_foreign_network_versions = [];
  my_session_id = 700;
  dst_session_id = 800;
  we_are_initiator = true;
  dst_is_initiator = false;
  need_sync_initiator_info = false;
  rpc_tx_count = 0;
  rpc_rx_count = 0;
}

abbrev everywhere : ℕ → Bool
everywhere p = true

abbrev cached : RouteConnBitmap
cached = record { peer_ids = peers; bitmap = 42 ∷ 0 ∷ [] }

abbrev fine : SyncRouteInfoResponse
fine = record { is_initiator = false; session_id = 800; error = none }

abbrev answer : SyncRouteInfoRequest → Reply
answer request = answered fine

sync_route_with_peer-twice_example :
    (finished : Bool) × (session' : SyncRouteSession) × (sync_route_with_peer everywhere sender
        cached false answer true session
      ≡ done (finished, session'))
    × (sync_route_with_peer everywhere sender cached false answer false session'
        ≡ done (true, session'))
sync_route_with_peer-twice_example =
    sync_route_with_peer-twice everywhere sender cached false answer fine true session
      (λ request. refl) refl refl

update_dst_session_id-sends_example :
    (build_route_info everywhere sender (update_dst_session_id 801 session)
      ≡ unless_empty (all_infos everywhere 1 sender.peer_infos))
    × (cached.peer_ids ≢ []
        → build_conn_bitmap cached (update_dst_session_id 801 session) ≡ some cached)
    × (build_foreign_network_info sender (update_dst_session_id 801 session)
        ≡ build_foreign_network_info sender session)
update_dst_session_id-sends_example =
    update_dst_session_id-sends everywhere sender cached 801 session
      (λ e. absurd (omega (arith, e)))

saved-known : SavedIsKnown session.dst_saved_peer_info_versions before
unfolding lookup
saved-known p v (w, e, l) = elim (Bool-cases (p == 2)) [
  | inl a ↦
      let f : some 5 ≡ some w = rw a at e in let g : w ≡ 5 = cc f in rw a (omega (arith, g, l))
  | inr a ↦ let f : none ≡ some w = rw a at e in cc f
]

sent-Clean :
    Clean raw_id 1 11 2 22 (infos_to_send everywhere session sender.peer_infos) (2 ∷ 3 ∷ [])
unfolding infos_to_send check_saved_peer_info_update_to_date lookup
sent-Clean = received-Clean

update_peer_infos-infos_to_send_example :
    (receiver' : SyncedRouteInfo ℕ) × (update_peer_infos raw_id 1 11 2 noon
        (infos_to_send everywhere session sender.peer_infos)
        (2 ∷ 3 ∷ [])
        before
      ≡ done (receiver', ok tt))
    × AllOf (IsTold everywhere 1 receiver') sender.peer_infos
    × SavedIsKnown
        (update_dst_saved_peer_info_version
          (infos_to_send everywhere session sender.peer_infos)
          session).dst_saved_peer_info_versions
        receiver'
update_peer_infos-infos_to_send_example =
    update_peer_infos-infos_to_send raw_id 22 11 noon everywhere session sender before (2 ∷ 3 ∷ [])
      saved-known sent-Clean before-Routed

-- 0 → 1 costs 5, and by 2 it costs 3.
abbrev edges : ℕ → List (ℕ × ℕ)
edges zero = (1, 5) ∷ (2, 1) ∷ []
edges (suc (suc zero)) = (1, 2) ∷ (0, 1) ∷ []
edges _ = []

edges_below : (u w c : ℕ) → In (w, c) (edges u) → w < 3
edges_below zero w c (inl e) = let f : w ≡ 1 = ap (λ z. z.0) e in omega (arith, f)
edges_below zero w c (inr (inl e)) = let f : w ≡ 2 = ap (λ z. z.0) e in omega (arith, f)
edges_below zero w c (inr (inr h)) = absurd h
edges_below (suc zero) w c h = absurd h
edges_below (suc (suc zero)) w c (inl e) = let f : w ≡ 1 = ap (λ z. z.0) e in omega (arith, f)
edges_below (suc (suc zero)) w c (inr (inl e)) = let f : w ≡ 0 = ap (λ z. z.0) e in omega (arith, f)
edges_below (suc (suc zero)) w c (inr (inr h)) = absurd h
edges_below (suc (suc (suc u))) w c h = absurd h

dijkstra_with_first_hop-shortest_example :
    (scores : List (ℕ × ℕ)) × (first_hop : List (ℕ × (ℕ × ℕ))) × (dijkstra_with_first_hop edges 0 6
      ≡ done (scores, first_hop))
    × (lookup ◌==◌ 0 scores ≡ some 0)
    × (lookup ◌==◌ 0 first_hop ≡ some (0, 0))
    × ((w : ℕ) (hop : ℕ × ℕ)
        → lookup ◌==◌ w first_hop ≡ some hop
        → (d : ℕ) × (lookup ◌==◌ w scores ≡ some d))
    × ((w d : ℕ)
        → lookup ◌==◌ w scores ≡ some d
        → ((w ≡ 0) × (d ≡ 0))
          ⊎ ((first : ℕ) × (hops : ℕ) × (lookup ◌==◌ w first_hop ≡ some (first, hops))
              × Walk edges 0 first hops d w))
    × ((first hops cost w : ℕ)
        → Walk edges 0 first hops cost w
        → (d : ℕ) × (lookup ◌==◌ w scores ≡ some d) × (d ≤ cost))
dijkstra_with_first_hop-shortest_example =
    dijkstra_with_first_hop-shortest edges 0 3 6 (omega arith) edges_below (omega arith)
