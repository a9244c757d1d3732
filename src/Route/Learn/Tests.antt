-- ===== src/Route/Learn/Tests.antt =====
-- peers/peer_ospf_route.rs: concrete connections that a peer learns.
use peer_link.Common.{ℕ, ◌≡◌, ◌≢◌, List, [], ◌∷◌, ◌&&◌, not, if◌then◌else◌, some, done, get_elem?}
use peer_link.Route.{RouteConnBitmap, SyncedRouteInfo}
use peer_link.Route.Synced.{contains}
use peer_link.Route.Bitmap.{new_conn_bitmap}
use peer_link.Route.Bitmap.Rows.{connections}
use peer_link.Route.Bitmap.RoundTrip.{mentions}
use peer_link.Route.Samples.{info, sender}
use peer_link.Route.{inc}
use peer_link.Route.Learn.{update_conn_map, update_my_conn_info, fill_empty_peer_info, same_peers}
use peer_link.Route.Learn.Own.{noted, update_my_conn_info-noted}
use peer_link.Route.Learn.Newer.{stored, newer, IsOnly, update_conn_map-new_conn_bitmap}

abbrev peers : List (ℕ × ℕ)
peers = (1, 4) ∷ (2, 6) ∷ (3, 1) ∷ []

abbrev there : List (ℕ × (List ℕ × ℕ))
there = (1, (2 ∷ [], 4)) ∷ (2, (1 ∷ 3 ∷ 9 ∷ [], 6)) ∷ (3, (2 ∷ [], 1)) ∷ []

update_conn_map-new_conn_bitmap_example :
    (m : RouteConnBitmap) × (s' : SyncedRouteInfo ℕ) × (new_conn_bitmap there peers ≡ done m)
    × (update_conn_map (info 0 0 0) m sender ≡ done s')
    × ((i p v : ℕ)
        → get_elem? peers i ≡ some (p, v)
        → v ≢ 0
        → IsOnly i p peers
        → (found : List ℕ) × ((q : ℕ)
            → contains q found ≡ (mentions q peers && contains q (connections there p)))
          × (stored s'.conn_map p ≡ newer v found (stored sender.conn_map p)))
    × ((p : ℕ)
        → ((j w : ℕ) → get_elem? peers j ≢ some (p, w))
        → stored s'.conn_map p ≡ stored sender.conn_map p)
update_conn_map-new_conn_bitmap_example =
    update_conn_map-new_conn_bitmap (info 0 0 0) there peers sender

update_my_conn_info-noted_example :
    let out = update_my_conn_info (info 0 0 0) 1 (2 ∷ 3 ∷ []) sender in
    let room = fill_empty_peer_info (info 0 0 0) (2 ∷ 3 ∷ []) sender in
    (stored (out.0).conn_map 1 ≡ noted (2 ∷ 3 ∷ []) (stored sender.conn_map 1))
    × (out.1 ≡ not (same_peers (2 ∷ 3 ∷ []) (stored sender.conn_map 1).0))
    × ((out.0).version ≡ (if out.1 then inc room.version else room.version))
    × ((p : ℕ) → p ≢ 1 → stored (out.0).conn_map p ≡ stored sender.conn_map p)
update_my_conn_info-noted_example = update_my_conn_info-noted (info 0 0 0) 1 (2 ∷ 3 ∷ []) sender
