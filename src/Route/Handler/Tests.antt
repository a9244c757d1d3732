-- ===== src/Route/Handler/Tests.antt =====
-- peers/peer_ospf_route.rs: concrete calls of `do_sync_route_info`.
use peer_link.Common.{ℕ, ◌≡◌, refl, ◌+◌, true, [], ◌∷◌, ◌++◌, none, some, done, arith}
use peer_link.Route.{ok, err, duplicate_peer_id, SyncedRouteInfo}
use peer_link.Route.Trust.{verify_and_update_group_trusts}
use peer_link.Route.Known.{KnowsNewest, TakesNewest}
use peer_link.Route.Samples.{noon, info, raw_id}
use peer_link.Route.Tests.{before, received, before-Routed, received-Clean, bad-Stale, session}
use peer_link.Route.Session.{update_dst_saved_peer_info_version}
use peer_link.Route.Handler.{Service, Fixed, begin, do_sync_route_info}
use peer_link.Route.Handler.Outcome.{do_sync_route_info-Stale, do_sync_route_info-knows}

-- The tables count how often they are computed.
abbrev fixed : Fixed ℕ ℕ
fixed = record {
  my_peer_id = 1;
  my_peer_route_id = 11;
  peerlink_version = [];
  now = noon;
  peer_id_of = raw_id;
  mac = λ secret bytes. secret ++ bytes;
  acl_group_declarations = [];
  update_route_tables = λ s n. n + 1;
  update_owner_maps = λ s n. n + 1;
}

abbrev service : Service ℕ ℕ
service = record {
  synced_route_info = before;
  session = record session { my_peer_id = 1; dst_peer_id = 2 };
  tables = 0;
}

do_sync_route_info-Stale_example :
    (st' : Service ℕ ℕ) × (do_sync_route_info fixed 2 800 true
        (record {
          peer_infos = some (received ++ info 2 99 1 ∷ []);
          raw_peer_infos = some ((2 ∷ 3 ∷ []) ++ 2 ∷ []);
          conn_bitmap = none;
          foreign_network = some [];
        })
        service
      ≡ done (st', err duplicate_peer_id))
    × TakesNewest noon received (2 ∷ 3 ∷ []) before st'.synced_route_info
    × (st'.synced_route_info.version ≡ before.version)
    × (st'.session ≡ (begin fixed 800 service).session)
    × (st'.tables ≡ 0)
do_sync_route_info-Stale_example =
    do_sync_route_info-Stale fixed 2 800 22 true service received (2 ∷ 3 ∷ []) (info 2 99 1) 2 [] []
      none (some []) (λ e. absurd (omega (arith, e))) refl received-Clean before-Routed bad-Stale

do_sync_route_info-knows_example :
    (st' : Service ℕ ℕ) × (do_sync_route_info fixed 2 800 true
        (record {
          peer_infos = some received;
          raw_peer_infos = some (2 ∷ 3 ∷ []);
          conn_bitmap = none;
          foreign_network = none;
        })
        service
      ≡ done (
        st',
        ok (record {
          is_initiator = (begin fixed 800 service).session.we_are_initiator;
          session_id = (begin fixed 800 service).session.my_session_id;
          error = none;
        }),
      ))
    × KnowsNewest noon received (2 ∷ 3 ∷ []) before st'.synced_route_info
    × ((synced : SyncedRouteInfo ℕ) × TakesNewest noon received (2 ∷ 3 ∷ []) before synced
        × (st'.synced_route_info
            ≡ verify_and_update_group_trusts fixed.mac received fixed.acl_group_declarations
                synced))
    × (st'.tables ≡ 2)
    × (st'.session
        ≡ record (update_dst_saved_peer_info_version received (begin fixed 800 service).session) {
          dst_is_initiator = true;
        })
do_sync_route_info-knows_example =
    do_sync_route_info-knows fixed 2 800 22 true service received (2 ∷ 3 ∷ []) received-Clean
      before-Routed
