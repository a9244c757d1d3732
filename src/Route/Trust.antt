-- ===== src/Route/Trust.antt =====
-- peers/peer_ospf_route.rs, proto/peer_rpc.rs: which groups a peer is trusted to be in. The keyed hash
-- (HMAC-SHA256) is a parameter, `mac secret data`; `verify_slice` compares with it. A hash map is an
-- association list.
pub mod Genuine
mod Tests
use peer_link.Common.{
  ℕ, ◌/◌, ◌%◌, ◌^◌, Bool, true, false, List, [], ◌∷◌, ◌++◌, Option, none, some, ◌==◌, if◌then◌else◌,
  map,
}
use peer_link.Common.Tables.{Text, same_text, lookup, insert, delete}
use peer_link.Route.{PeerGroupInfo, RoutePeerInfo, SyncedRouteInfo}

pub record GroupIdentity : Type 0 where
  pub group_name : Text
  pub group_secret : Text

-- `u32::to_be_bytes`
abbrev pub to_be_bytes : ℕ → List ℕ
to_be_bytes p = p / 2 ^ 24 % 256 ∷ p / 2 ^ 16 % 256 ∷ p / 2 ^ 8 % 256 ∷ p % 256 ∷ []

abbrev pub data_to_sign : (group_name : Text) (peer_id : ℕ) → List ℕ
data_to_sign name peer_id = name ++ 0 ∷ to_be_bytes peer_id

-- `.collect::<HashMap<&str, &str>>()`: the last secret of a name stays.
unfoldable pub secrets : List GroupIdentity → List (Text × Text) → List (Text × Text)
secrets [] t = t
secrets (g ∷ gs) t = secrets gs (insert same_text g.group_name g.group_secret t)

abbrev pub same_proof : Option (List ℕ) → List ℕ → Bool
same_proof none proof = false
same_proof (some old) proof = same_text old proof

module _ (mac : Text → List ℕ → List ℕ) where
  unfoldable pub generate_with_proof : (group_name group_secret : Text) → ℕ → PeerGroupInfo
  generate_with_proof name secret peer_id = record {
    group_name = name;
    group_proof = mac secret (data_to_sign name peer_id);
  }

  unfoldable pub verify : PeerGroupInfo → (group_secret : Text) (peer_id : ℕ) → Bool
  verify g secret peer_id = same_text (mac secret (data_to_sign g.group_name peer_id)) g.group_proof

  -- The proof is the one that was trusted before.
  unfoldable pub is_unchanged : Option (List (Text × List ℕ)) → PeerGroupInfo → Bool
  is_unchanged none g = false
  is_unchanged (some old) g = same_proof (lookup same_text g.group_name old) g.group_proof

  unfoldable pub is_proved : Option Text → PeerGroupInfo → (peer_id : ℕ) → Bool
  is_proved none g peer_id = false
  is_proved (some secret) g peer_id = verify g secret peer_id

  -- The loop of `verify_groups`.
  unfoldable pub verify_groups :
      List (Text × Text)
      → Option (List (Text × List ℕ))
      → (peer_id : ℕ) → List PeerGroupInfo
      → List (Text × List ℕ)
      → List (Text × List ℕ)
  verify_groups declared old peer_id [] trusted = trusted
  verify_groups declared old peer_id (g ∷ gs) trusted = verify_groups declared old peer_id gs (
      if is_unchanged old g
      then insert same_text g.group_name g.group_proof trusted
      else (if is_proved (lookup same_text g.group_name declared) g peer_id
          then insert same_text g.group_name g.group_proof trusted
          else trusted))

  abbrev pub keys : {V : Type 0} → List (Text × V) → List Text
  keys t = map (λ x. x.0) t

  -- The maps hold what is trusted, if anything is.
  unfoldable pub store_trusted :
      {Raw : Type 0}
      → (peer_id : ℕ) → List (Text × List ℕ)
      → SyncedRouteInfo Raw
      → SyncedRouteInfo Raw
  store_trusted peer_id [] s = record s {
    group_trust_map = delete ◌==◌ peer_id s.group_trust_map;
    group_trust_map_cache = delete ◌==◌ peer_id s.group_trust_map_cache;
  }
  store_trusted peer_id (g ∷ gs) s = record s {
    group_trust_map = insert ◌==◌ peer_id (g ∷ gs) s.group_trust_map;
    group_trust_map_cache = insert ◌==◌ peer_id (keys (g ∷ gs)) s.group_trust_map_cache;
  }

  -- An entry that is vacant and stays so leaves the cache alone.
  unfoldable pub trust_peer :
      {Raw : Type 0}
      → Option (List (Text × List ℕ))
      → (peer_id : ℕ) → List (Text × List ℕ)
      → SyncedRouteInfo Raw
      → SyncedRouteInfo Raw
  trust_peer none peer_id [] s = s
  trust_peer none peer_id (g ∷ gs) s = store_trusted peer_id (g ∷ gs) s
  trust_peer (some old) peer_id trusted s = store_trusted peer_id trusted s

  unfoldable pub trust_peers :
      {Raw : Type 0}
      → List (Text × Text)
      → List RoutePeerInfo
      → SyncedRouteInfo Raw
      → SyncedRouteInfo Raw
  trust_peers declared [] s = s
  trust_peers declared (info ∷ infos) s =
      let old = lookup ◌==◌ info.peer_id s.group_trust_map in
      trust_peers declared infos
        (trust_peer old info.peer_id (verify_groups declared old info.peer_id info.groups []) s)

  unfoldable pub verify_and_update_group_trusts :
      {Raw : Type 0}
      → List RoutePeerInfo
      → List GroupIdentity
      → SyncedRouteInfo Raw
      → SyncedRouteInfo Raw
  verify_and_update_group_trusts infos local_group_declarations s =
      trust_peers (secrets local_group_declarations []) infos s

-- The groups by which the packet filter knows a peer.
unfoldable pub get_peer_groups : {Raw : Type 0} → ℕ → SyncedRouteInfo Raw → List Text
get_peer_groups p s = elim (lookup ◌==◌ p s.group_trust_map_cache) [
  | none ↦ []
  | some names ↦ names
]
