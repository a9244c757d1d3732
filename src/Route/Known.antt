-- ===== src/Route/Known.antt =====
-- peers/peer_ospf_route.rs: what is known of a peer, and what it is to take in infos.
use peer_link.Common.{
  ℕ, suc, ◌<◌, max, ◌≡◌, ◌⊎◌, inl, refl, List, [], ◌∷◌, get_elem?, Option, none, some, ◌==◌, ==_iff,
  ==_refl, if◌then◌else◌, arith,
}
use peer_link.Common.Tables.{lookup, insert, lookup-insert}
use peer_link.Route.{Timestamp, RoutePeerInfo, SyncedRouteInfo}

-- How much is known of a peer: nothing, or the info of a version.
abbrev pub known : Option RoutePeerInfo → ℕ
known none = 0
known (some info) = suc info.version

abbrev pub knows : {Raw : Type 0} → ℕ → SyncedRouteInfo Raw → ℕ
knows p s = known (lookup ◌==◌ p s.peer_infos)

-- The most the infos say of a peer.
abbrev pub offered : ℕ → List RoutePeerInfo → ℕ
offered p [] = 0
offered p (info ∷ infos) = max (if p == info.peer_id then suc info.version else 0) (offered p infos)

pub lookup-insert_num :
    {V : Type 0} (j k : ℕ) (v : V) (t : List (ℕ × V))
    → lookup ◌==◌ k (insert ◌==◌ j v t) ≡ (if k == j then some v else lookup ◌==◌ k t)
lookup-insert_num j k v t = lookup-insert ◌==◌ ==_refl (λ a b. (==_iff a b).0) j k v t

-- The info as it is stored.
abbrev pub at_now : Timestamp → RoutePeerInfo → RoutePeerInfo
at_now now info = record info { last_update = some now }

-- Every info has its raw message, and nobody else uses the sender's or the receiver's number: their
-- infos have the route ids the two have.
abbrev pub Clean :
    {Raw : Type 0}
    → (Raw → Option ℕ)
    → (my_peer_id my_peer_route_id dst_peer_id dst_peer_route_id : ℕ) → List RoutePeerInfo
    → List Raw
    → Type 0
Clean peer_id_of m mr d dr [] raws = Unit {0}
Clean peer_id_of m mr d dr (info ∷ infos) [] = ⊥
Clean peer_id_of m mr d dr (info ∷ infos) (raw ∷ raws) =
    (peer_id_of raw ≡ some info.peer_id)
    × (info.peer_id ≡ m → info.peer_route_id ≡ mr)
    × (info.peer_id ≡ d → info.peer_route_id ≡ dr)
    × Clean peer_id_of m mr d dr infos raws

-- What is known of a peer has this route id, or is the empty info of a peer only heard of.
abbrev pub Routed : {Raw : Type 0} → ℕ → ℕ → SyncedRouteInfo Raw → Type 0
Routed d dr s =
    (old : RoutePeerInfo)
    → lookup ◌==◌ d s.peer_infos ≡ some old
    → (old.version ≡ 0) ⊎ (old.peer_route_id ≡ dr)

module _ {Raw : Type 0} where
  -- The two tables have what they had of a peer.
  abbrev pub Kept : ℕ → (s s' : SyncedRouteInfo Raw) → Type 0
  Kept p s s' =
      (lookup ◌==◌ p s'.peer_infos ≡ lookup ◌==◌ p s.peer_infos)
      × (lookup ◌==◌ p s'.raw_peer_infos ≡ lookup ◌==◌ p s.raw_peer_infos)

  -- The two tables have an info as it is stored, with its raw message.
  abbrev pub Stored : Timestamp → ℕ → RoutePeerInfo → Raw → SyncedRouteInfo Raw → Type 0
  Stored now p info raw s =
      (lookup ◌==◌ p s.peer_infos ≡ some (at_now now info))
      × (lookup ◌==◌ p s.raw_peer_infos ≡ some raw)

  -- A given info of the peer, newer than what was known, with the raw message in its place.
  abbrev pub Learnt :
      Timestamp → ℕ → List RoutePeerInfo → List Raw → (s s' : SyncedRouteInfo Raw) → Type 0
  Learnt now p infos raws s s' =
      (n : ℕ) × (info : RoutePeerInfo) × (raw : Raw) × (get_elem? infos n ≡ some info)
      × (get_elem? raws n ≡ some raw)
      × (p ≡ info.peer_id)
      × (knows p s < suc info.version)
      × Stored now p info raw s'

  -- Of each peer, what was known is kept, with its raw message, or a newer info of those given stands
  -- there whole, with its own; and its version is the newest there is.
  abbrev pub KnowsNewest :
      Timestamp → List RoutePeerInfo → List Raw → (s s' : SyncedRouteInfo Raw) → Type 0
  KnowsNewest now infos raws s s' =
      (p : ℕ)
      → (knows p s' ≡ max (knows p s) (offered p infos))
        × (Kept p s s' ⊎ Learnt now p infos raws s s')

  -- Nothing else differs but the version of the whole.
  abbrev pub TakesNewest :
      Timestamp → List RoutePeerInfo → List Raw → (s s' : SyncedRouteInfo Raw) → Type 0
  TakesNewest now infos raws s s' =
      KnowsNewest now infos raws s s'
      × (s' ≡ record s {
        peer_infos = s'.peer_infos;
        raw_peer_infos = s'.raw_peer_infos;
        version = s'.version;
      })

  pub TakesNewest-refl :
      (now : Timestamp) (raws : List Raw) (s : SyncedRouteInfo Raw) → TakesNewest now [] raws s s
  TakesNewest-refl now raws s = (λ p. (omega arith, inl (refl, refl)), refl)
