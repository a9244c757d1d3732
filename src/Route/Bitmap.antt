-- ===== src/Route/Bitmap.antt =====
-- peers/peer_ospf_route.rs: `RouteConnBitmap`, who is connected to whom, a bit for each pair of peers.
pub mod Bits
pub mod Rows
pub mod RoundTrip
use Prim.Native.Nat.{bit_and, bit_or}
use peer_link.Common.{
  ℕ, suc, ◌+◌, ◌*◌, ◌/◌, ◌%◌, ◌^◌, Bool, true, false, List, [], ◌∷◌, Option, none, some, ◌==◌, ltb,
  if◌then◌else◌, Exec, done, ◌>>=◌, unwrap, get_elem?, set, replicate, length,
}
use peer_link.Common.Tables.{lookup}
use peer_link.Route.{RouteConnBitmap}
use peer_link.Route.Synced.{contains}

-- `BTreeSet::insert`
unfoldable pub set_insert : ℕ → List ℕ → List ℕ
set_insert x [] = x ∷ []
set_insert x (y ∷ ys) =
    if ltb x y then x ∷ y ∷ ys else (if x == y then y ∷ ys else y ∷ set_insert x ys)

-- A byte that does not exist is a panic.
unfoldable pub get_bit : List ℕ → (idx : ℕ) → Exec Bool
get_bit bitmap idx =
    unwrap (get_elem? bitmap (idx / 8)) >>= λ byte. done (bit_and (byte / 2 ^ (idx % 8)) 1 == 1)

-- The loop of `get_connected_peers`, from the bit at `idx` on.
unfoldable pub collect_row : List ℕ → (idx : ℕ) → List (ℕ × ℕ) → List ℕ → Exec (List ℕ)
collect_row bitmap idx [] connected = done connected
collect_row bitmap idx ((peer_id, _) ∷ rest) connected = get_bit bitmap idx >>= λ on.
    collect_row bitmap (suc idx) rest (if on then set_insert peer_id connected else connected)

unfoldable pub get_connected_peers : RouteConnBitmap → (peer_idx : ℕ) → Exec (List ℕ)
get_connected_peers m peer_idx = collect_row m.bitmap (peer_idx * length m.peer_ids) m.peer_ids []

-- `bitmap[bit_idx / 8] |= 1 << (bit_idx % 8)`
unfoldable pub set_bit : (bit_idx : ℕ) → List ℕ → Exec (List ℕ)
set_bit bit_idx bitmap = unwrap (get_elem? bitmap (bit_idx / 8)) >>= λ byte.
    done (set bitmap (bit_idx / 8) (bit_or byte (2 ^ (bit_idx % 8))))

-- The inner loop of `update_route_table_and_cached_local_conn_bitmap`, from `bit_idx` on.
unfoldable pub fill_row : (connected : List ℕ) (bit_idx : ℕ) → List (ℕ × ℕ) → List ℕ → Exec (List ℕ)
fill_row connected bit_idx [] bitmap = done bitmap
fill_row connected bit_idx ((other_peer_id, _) ∷ rest) bitmap =
    (if contains other_peer_id connected then set_bit bit_idx bitmap else done bitmap) >>= λ filled.
    fill_row connected (suc bit_idx) rest filled

-- The row of a peer; a peer that is not in the map any more is left out.
unfoldable pub fill_peer :
    Option (List ℕ × ℕ) → (bit_idx : ℕ) → List (ℕ × ℕ) → List ℕ → Exec (List ℕ)
fill_peer none bit_idx all_peer_ids bitmap = done bitmap
fill_peer (some connected) bit_idx all_peer_ids bitmap =
    fill_row connected.0 bit_idx all_peer_ids bitmap

-- The outer loop.
unfoldable pub fill_rows :
    (conn_map : List (ℕ × (List ℕ × ℕ))) (all_peer_ids : List (ℕ × ℕ)) (peer_idx : ℕ)
    → List (ℕ × ℕ)
    → List ℕ
    → Exec (List ℕ)
fill_rows conn_map all_peer_ids peer_idx [] bitmap = done bitmap
fill_rows conn_map all_peer_ids peer_idx ((peer_id, _) ∷ rest) bitmap =
    fill_peer (lookup ◌==◌ peer_id conn_map) (peer_idx * length all_peer_ids) all_peer_ids bitmap
    >>= λ filled. fill_rows conn_map all_peer_ids (suc peer_idx) rest filled

unfoldable pub new_conn_bitmap :
    (conn_map : List (ℕ × (List ℕ × ℕ))) → List (ℕ × ℕ) → Exec RouteConnBitmap
new_conn_bitmap conn_map all_peer_ids =
    fill_rows conn_map all_peer_ids 0 all_peer_ids
      (replicate ((length all_peer_ids * length all_peer_ids + 7) / 8) 0)
    >>= λ bitmap. done (record { peer_ids = all_peer_ids; bitmap = bitmap })
