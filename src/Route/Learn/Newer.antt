-- ===== src/Route/Learn/Newer.antt =====
-- peers/peer_ospf_route.rs: the rows of a bitmap of connections that `update_conn_map` takes.
use peer_link.Common.{
  ℕ, zero, suc, ◌+◌, ◌≡◌, ◌≢◌, ◌⊎◌, refl, sym, ap, ap₂, ◌∙◌, subst, inl, inr, Bool, true, false,
  List, [], ◌∷◌, Option, none, some, ◌==◌, ==_iff, ==_refl, ltb, if◌then◌else◌, Bool-cases, done,
  arith, get_elem?, ◌&&◌, ◌||◌, map,
}
use peer_link.Common.Tables.{lookup, insert}
use peer_link.Route.{RoutePeerInfo, RouteConnBitmap, SyncedRouteInfo}
use peer_link.Route.Synced.{unwrap_or, inc_if, contains}
use peer_link.Route.Known.{lookup-insert_num}
use peer_link.Route.Bitmap.{get_connected_peers, new_conn_bitmap}
use peer_link.Route.Bitmap.Rows.{connections}
use peer_link.Route.Bitmap.RoundTrip.{mentions, get_connected_peers-new_conn_bitmap}
use peer_link.Route.Learn.{
  to_set, or_insert, or_insert_found, newer_peers, fill_peers, fill_empty_peer_info,
  learn_connections, update_conn_map,
}

-- What is stored of a peer's connections, with its version: none of version 0 where there is nothing.
abbrev pub stored : List (ℕ × (List ℕ × ℕ)) → ℕ → List ℕ × ℕ
stored t p = unwrap_or ([], 0) (lookup ◌==◌ p t)

abbrev pub newer : (version : ℕ) (connected : List ℕ) → List ℕ × ℕ → List ℕ × ℕ
newer version connected old = if ltb old.1 version then (connected, version) else old

pub stored-insert_other :
    (k p : ℕ) (new : List ℕ × ℕ) (t : List (ℕ × (List ℕ × ℕ)))
    → (p == k) ≡ false
    → stored (insert ◌==◌ k new t) p ≡ stored t p
stored-insert_other k p new t e = ap (unwrap_or ([], 0)) (lookup-insert_num k p new t) ∙ (rw e refl)

pub stored-insert_self :
    (k p : ℕ) (new : List ℕ × ℕ) (t : List (ℕ × (List ℕ × ℕ)))
    → (p == k) ≡ true
    → stored (insert ◌==◌ k new t) p ≡ new
stored-insert_self k p new t e = ap (unwrap_or ([], 0)) (lookup-insert_num k p new t) ∙ (rw e refl)

stored-or_insert_found :
    (found : Option (List ℕ × ℕ)) (k p : ℕ) (t : List (ℕ × (List ℕ × ℕ)))
    → lookup ◌==◌ k t ≡ found
    → stored (or_insert_found found k ([], 0) t).0 p ≡ stored t p
unfolding or_insert_found
stored-or_insert_found none k p t e = elim (Bool-cases (p == k)) [
  | inl a ↦
      let f : lookup ◌==◌ p t ≡ none = ap (λ x. lookup ◌==◌ x t) ((==_iff p k).0 a) ∙ e in
      stored-insert_self k p ([], 0) t a ∙ (rw f refl)
  | inr a ↦ stored-insert_other k p ([], 0) t a
]
stored-or_insert_found (some x) k p t e = refl

stored-newer_peers :
    (found : Option (List ℕ × ℕ)) (k version : ℕ) (connected : List ℕ) (t : List (ℕ × (List ℕ × ℕ)))
    → version ≢ 0
    → lookup ◌==◌ k t ≡ found
    → stored (newer_peers found k version connected t).0 k
      ≡ newer version connected (unwrap_or ([], 0) found)
unfolding newer_peers
stored-newer_peers none k v c t nz e =
    let l : ltb 0 v ≡ true = ground (arith, nz) in
    ap (unwrap_or ([], 0)) (lookup-insert_num k k (c, v) t) ∙ (rw (==_refl k) (rw l refl))
stored-newer_peers (some x) k v c t nz e = elim (Bool-cases (ltb x.1 v)) [
  | inl l ↦ rw l (ap (unwrap_or ([], 0)) (lookup-insert_num k k (c, v) t) ∙ (rw (==_refl k) refl))
  | inr l ↦ rw l (ap (unwrap_or ([], 0)) e)
]

stored-newer_peers_other :
    (found : Option (List ℕ × ℕ)) (k p version : ℕ) (connected : List ℕ)
    (t : List (ℕ × (List ℕ × ℕ)))
    → (p == k) ≡ false
    → stored (newer_peers found k version connected t).0 p ≡ stored t p
unfolding newer_peers
stored-newer_peers_other none k p v c t ne = stored-insert_other k p (c, v) t ne
stored-newer_peers_other (some x) k p v c t ne = elim (Bool-cases (ltb x.1 v)) [
  | inl l ↦ rw l (stored-insert_other k p (c, v) t ne)
  | inr l ↦ rw l refl
]

pub ≢→== : (a b : ℕ) → a ≢ b → (a == b) ≡ false
≢→== a b h = elim (Bool-cases (a == b)) [ inl e ↦ absurd (h ((==_iff a b).0 e)) | inr e ↦ e ]

ℕ-cases : (j : ℕ) → (j ≡ 0) ⊎ ((i : ℕ) × (j ≡ suc i))
ℕ-cases zero = inl refl
ℕ-cases (suc i) = inr (i, refl)

-- No other row is of the peer.
abbrev pub IsOnly : (i p : ℕ) → List (ℕ × ℕ) → Type 0
IsOnly i p ids = (j w : ℕ) → get_elem? ids j ≡ some (p, w) → j ≡ i

abbrev peer_of : Option (ℕ × ℕ) → ℕ
peer_of none = 0
peer_of (some x) = x.0

abbrev version_of : Option (ℕ × ℕ) → ℕ
version_of none = 0
version_of (some x) = x.1

same_found : (a b : List ℕ) → done a ≡ done b → a ≡ b
same_found a b e = cc e

module _ {Raw : Type 0} (empty : RoutePeerInfo) where
  inc_if-conn_map : (need : Bool) (s : SyncedRouteInfo Raw) → (inc_if need s).conn_map ≡ s.conn_map
  unfolding inc_if
  inc_if-conn_map true s = refl
  inc_if-conn_map false s = refl

  stored-fill_peers :
      (ps : List ℕ) (need : Bool) (s : SyncedRouteInfo Raw) (p : ℕ)
      → stored (fill_peers empty ps need s).0.conn_map p ≡ stored s.conn_map p
  unfolding fill_peers or_insert
  stored-fill_peers [] need s p = refl
  stored-fill_peers (q ∷ qs) need s p =
      stored-fill_peers qs _ _ p
      ∙ stored-or_insert_found (lookup ◌==◌ q s.conn_map) q p s.conn_map refl

  -- Filling in the peers heard of changes no connections.
  pub stored-fill_empty_peer_info :
      (ps : List ℕ) (s : SyncedRouteInfo Raw) (p : ℕ)
      → stored (fill_empty_peer_info empty ps s).conn_map p ≡ stored s.conn_map p
  unfolding fill_empty_peer_info
  stored-fill_empty_peer_info ps s p =
      let filled = fill_peers empty ps false s in
      ap (λ t. stored t p) (inc_if-conn_map filled.1 filled.0) ∙ stored-fill_peers ps false s p

  learn_connections_lem :
      (m : RouteConnBitmap) (at : ℕ) (rest : List (ℕ × ℕ)) (need : Bool) (s : SyncedRouteInfo Raw)
      → ((j q w : ℕ)
          → get_elem? rest j ≡ some (q, w)
          → (found : List ℕ) × (get_connected_peers m (at + j) ≡ done found))
      → (s' : SyncedRouteInfo Raw) × (learn_connections empty m at rest need s ≡ done s')
        × ((p : ℕ)
            → ((j w : ℕ) → get_elem? rest j ≢ some (p, w))
            → stored s'.conn_map p ≡ stored s.conn_map p)
        × ((j p v : ℕ) (found : List ℕ)
            → get_elem? rest j ≡ some (p, v)
            → v ≢ 0
            → IsOnly j p rest
            → get_connected_peers m (at + j) ≡ done found
            → stored s'.conn_map p ≡ newer v found (stored s.conn_map p))
  unfolding learn_connections
  learn_connections_lem m at [] need s rows = (
    inc_if need s,
    refl,
    (λ p none_of. ap (λ t. stored t p) (inc_if-conn_map need s)),
    λ j p v found e. cc e,
  )
  learn_connections_lem m at ((q, w) ∷ rest) need s rows =
      let (c, e) = rows 0 q w refl in
      let e' : get_connected_peers m at ≡ done c = ap (get_connected_peers m) (omega arith) ∙ e in
      let filled = fill_empty_peer_info empty c s in
      let step = newer_peers (lookup ◌==◌ q filled.conn_map) q w c filled.conn_map in
      let s1 = record filled { conn_map = step.0 } in
      let (s', f, others, own) =
        learn_connections_lem m (suc at) rest (need || step.1) s1 (λ j x y g.
          let (found, h) = rows (suc j) x y g in
          (found, ap (get_connected_peers m) (omega arith) ∙ h)) in
      let other : (p : ℕ) → p ≢ q → stored step.0 p ≡ stored s.conn_map p = λ p ne.
        stored-newer_peers_other (lookup ◌==◌ q filled.conn_map) q p w c filled.conn_map
          (≢→== p q ne)
        ∙ stored-fill_empty_peer_info c s p in
      (
        s',
        (rw e' f),
        (λ p none_of.
            others p (λ j x. none_of (suc j) x)
            ∙ other p (λ k. none_of 0 w (ap (λ z. some (z, w)) (sym k)))),
        (λ j p v found g nz only h. elim (ℕ-cases j) [
          | inl z ↦
              let g' = subst (λ x. get_elem? ((q, w) ∷ rest) x ≡ some (p, v)) z g in
              let a : q ≡ p = ap peer_of g' in
              let b : w ≡ v = ap version_of g' in
              let d : c ≡ found =
                same_found c found (sym e ∙ ap (λ x. get_connected_peers m (at + x)) (sym z) ∙ h) in
              let here : stored step.0 q ≡ newer w c (stored s.conn_map q) =
                stored-newer_peers (lookup ◌==◌ q filled.conn_map) q w c filled.conn_map
                  (λ k. nz (sym b ∙ k)) refl
                ∙ ap (newer w c) (stored-fill_empty_peer_info c s q) in
              let moved : stored step.0 p ≡ newer v found (stored s.conn_map p) =
                subst (λ x. stored step.0 x ≡ newer v found (stored s.conn_map x)) a
                  (here ∙ ap₂ (λ x y. newer x y (stored s.conn_map q)) b d) in
              others p (λ i x k. let l = only (suc i) x k in omega (arith, l, z)) ∙ moved
          | inr (i, z) ↦
              let g' = subst (λ x. get_elem? ((q, w) ∷ rest) x ≡ some (p, v)) z g in
              let ne : p ≢ q =
                λ k. let l = only 0 w (ap (λ x. some (x, w)) (sym k)) in omega (arith, l, z) in
              own i p v found g' nz (λ k x f. let l = only (suc k) x f in omega (arith, l, z))
                (ap (get_connected_peers m) (omega (arith, z)) ∙ h)
              ∙ ap (newer v found) (other p ne)
        ]),
      )

-- A peer that is sent the bitmap of any connections takes it without a panic. Of a peer that has one row
-- in it, with a version that is not 0, it then stores the row's version and exactly the connections of
-- this peer to peers of the bitmap, if this version is newer than the one it had, and else what it had;
-- what it stores of peers that have no row stays.
pub update_conn_map-new_conn_bitmap :
    {Raw : Type 0} (empty : RoutePeerInfo) (conn_map : List (ℕ × (List ℕ × ℕ)))
    (peer_ids : List (ℕ × ℕ)) (s : SyncedRouteInfo Raw)
    → (m : RouteConnBitmap) × (s' : SyncedRouteInfo Raw) × (new_conn_bitmap conn_map peer_ids
        ≡ done m)
      × (update_conn_map empty m s ≡ done s')
      × ((i p v : ℕ)
          → get_elem? peer_ids i ≡ some (p, v)
          → v ≢ 0
          → IsOnly i p peer_ids
          → (found : List ℕ) × ((q : ℕ)
              → contains q found ≡ (mentions q peer_ids && contains q (connections conn_map p)))
            × (stored s'.conn_map p ≡ newer v found (stored s.conn_map p)))
      × ((p : ℕ)
          → ((j w : ℕ) → get_elem? peer_ids j ≢ some (p, w))
          → stored s'.conn_map p ≡ stored s.conn_map p)
unfolding update_conn_map
update_conn_map-new_conn_bitmap empty conn ids s =
    let (m, e, same, rows) = get_connected_peers-new_conn_bitmap conn ids in
    let before = fill_empty_peer_info empty (to_set (map (λ x. x.0) m.peer_ids)) s in
    let (s', f, others, own) = learn_connections_lem empty m 0 ids false before (λ j q w g.
      let (found, h, c) = rows j q w g in (found, ap (get_connected_peers m) (omega arith) ∙ h)) in
    let kept : (p : ℕ) → stored before.conn_map p ≡ stored s.conn_map p =
      stored-fill_empty_peer_info empty (to_set (map (λ x. x.0) m.peer_ids)) s in
    (
      m,
      s',
      e,
      ap (λ x. learn_connections empty m 0 x false before) same ∙ f,
      (λ i p v g nz only.
          let (found, h, c) = rows i p v g in
          (
            found,
            c,
            own i p v found g nz only (ap (get_connected_peers m) (omega arith) ∙ h)
                ∙ ap (newer v found) (kept p),
          )),
      (λ p none_of. others p none_of ∙ kept p),
    )
