-- ===== src/Route/Duplicate.antt =====
-- peers/peer_ospf_route.rs: `update_peer_infos` on infos among which one shows that the sender's number
-- is used twice.
use peer_link.Common.{
  lt→ltb, ℕ, suc, ◌<◌, max, ◌≡◌, ◌≢◌, ◌⊎◌, inl, inr, refl, sym, ap, ◌∙◌, Bool, true, false, List,
  [], ◌∷◌, ◌++◌, ◌||◌, Option, none, some, ◌==◌, ==_iff, Bool-cases, done, arith, length,
}
use peer_link.Common.Tables.{lookup}
use peer_link.Route.{Timestamp, RoutePeerInfo, err, duplicate_peer_id, SyncedRouteInfo}
use peer_link.Route.Synced.{
  option_map, check_duplicate_peer_id, check_dst, get_peer_info_version_with_default, replace_older,
  receive_checked, receive_info, receive_infos, update_peer_infos,
}
use peer_link.Route.Known.{
  known, knows, offered, Clean, Routed, TakesNewest, TakesNewest-refl, at_now,
}
use peer_link.Route.Taken.{TakesNewest-Step, replace_older-Step}
use peer_link.Route.Newest.{replace_older-Routed, receive_info-Clean}

≢→== : (a b : ℕ) → a ≢ b → (a == b) ≡ false
≢→== a b h = elim (Bool-cases (a == b)) [ inl e ↦ absurd (h ((==_iff a b).0 e)) | inr e ↦ e ]

-- An info of the sender with another route id, older than what is known.
abbrev pub Stale : (dst_peer_id dst_peer_route_id : ℕ) → RoutePeerInfo → (newest : ℕ) → Type 0
Stale d dr info newest =
    (info.peer_id ≡ d) × (info.peer_route_id ≢ dr) × (suc info.version < newest)

module _ {Raw : Type 0} (peer_id_of : Raw → Option ℕ)
    (my_peer_id my_peer_route_id dst_peer_id dst_peer_route_id : ℕ) (now : Timestamp) where
  check_dst-Stale :
      (found : Option RoutePeerInfo) (info : RoutePeerInfo) (s : SyncedRouteInfo Raw)
      → lookup ◌==◌ info.peer_id s.peer_infos ≡ found
      → ((old : RoutePeerInfo)
          → found ≡ some old
          → (old.version ≡ 0) ⊎ (old.peer_route_id ≡ dst_peer_route_id))
      → info.peer_route_id ≢ dst_peer_route_id
      → suc info.version < known found
      → check_dst (option_map (λ i. i.peer_route_id) found) info s ≡ err duplicate_peer_id
  unfolding check_dst get_peer_info_version_with_default
  check_dst-Stale none info s e r ne l = absurd (omega (arith, l))
  check_dst-Stale (some old) info s e r ne l = elim (r old refl) [
    | inl z ↦ absurd (omega (arith, l, z))
    | inr q ↦
        let d : (old.peer_route_id == info.peer_route_id) ≡ false =
          ≢→== old.peer_route_id info.peer_route_id (λ f. ne (sym f ∙ q)) in
        rw e (rw d (rw (lt→ltb info.version old.version (omega (arith, l))) refl))
  ]

  receive_info-Stale :
      (info : RoutePeerInfo) (raw : Raw) (s : SyncedRouteInfo Raw)
      → dst_peer_id ≢ my_peer_id
      → Routed dst_peer_id dst_peer_route_id s
      → Stale dst_peer_id dst_peer_route_id info (knows dst_peer_id s)
      → receive_info peer_id_of my_peer_id my_peer_route_id dst_peer_id now info raw s
        ≡ done (err duplicate_peer_id)
  unfolding receive_info receive_checked check_duplicate_peer_id
  receive_info-Stale info raw s other r (at_dst, ne, l) =
      let m = ≢→== info.peer_id my_peer_id (λ f. other (sym at_dst ∙ f)) in
      let c =
        check_dst-Stale (lookup ◌==◌ dst_peer_id s.peer_infos) info s
          (ap (λ p. lookup ◌==◌ p s.peer_infos) at_dst) r ne l in
      let d : (info.peer_id == dst_peer_id) ≡ true = (==_iff info.peer_id dst_peer_id).1 at_dst in
      rw m (rw d (rw c refl))

  receive_infos-Stale :
      (need : Bool) (infos : List RoutePeerInfo) (raws : List Raw) (bad : RoutePeerInfo)
      (bad_raw : Raw) (infos' : List RoutePeerInfo) (raws' : List Raw) (s : SyncedRouteInfo Raw)
      → dst_peer_id ≢ my_peer_id
      → length infos ≡ length raws
      → Clean peer_id_of my_peer_id my_peer_route_id dst_peer_id dst_peer_route_id infos raws
      → Routed dst_peer_id dst_peer_route_id s
      → Stale dst_peer_id dst_peer_route_id bad
          (max (knows dst_peer_id s) (offered dst_peer_id infos))
      → (s' : SyncedRouteInfo Raw) × (receive_infos peer_id_of my_peer_id my_peer_route_id
            dst_peer_id now need
            (infos ++ bad ∷ infos')
            (raws ++ bad_raw ∷ raws')
            s
          ≡ done (s', err duplicate_peer_id))
        × TakesNewest now infos raws s s'
        × (s'.version ≡ s.version)
  unfolding receive_infos
  receive_infos-Stale need [] [] bad bad_raw infos' raws' s other l c r (d, ne, h) = (
    s,
    (rw (receive_info-Stale bad bad_raw s other r (d, ne, omega (arith, h))) refl),
    TakesNewest-refl now [] s,
    refl,
  )
  receive_infos-Stale need [] (raw ∷ raws) bad bad_raw infos' raws' s other l c r h =
      absurd (omega (arith, l))
  receive_infos-Stale need (info ∷ infos) [] bad bad_raw infos' raws' s other l c r h = absurd c
  receive_infos-Stale need (info ∷ infos) (raw ∷ raws) bad bad_raw infos' raws' s other l
        (hr, hm, hd, c) r (d, ne, h) =
      let found = lookup ◌==◌ info.peer_id s.peer_infos in
      let step = replace_older found (at_now now info) raw s in
      let st = replace_older-Step now found info raw s refl in
      let (s', e, k, v) =
        receive_infos-Stale (need || step.1) infos raws bad bad_raw infos' raws' step.0 other
          (omega (arith, l)) c
          (replace_older-Routed peer_id_of my_peer_id my_peer_route_id dst_peer_id dst_peer_route_id
            now found info raw s hd r)
          (d, ne, omega (arith, h, st.0 dst_peer_id)) in
      (
        s',
        (rw
            (receive_info-Clean peer_id_of my_peer_id my_peer_route_id dst_peer_id dst_peer_route_id
              now info raw s hr hm hd r)
            e),
        TakesNewest-Step now info raw infos raws s step.0 s' step.1 st k,
        v ∙ st.1,
      )

  -- When `update_peer_infos` comes to an info that gives the sender another route id than the one
  -- it is known by, and an older version than the newest known of it, it returns `DuplicatePeerId`,
  -- with the infos before taken: of each peer, either what was known and its raw message stay, or
  -- an info of those given that is newer than what was known stands there whole, with the time and
  -- with its own raw message; either way the version known is the newest of what was known and what
  -- the infos say; and nothing else of the synced information changes, not even its version. The
  -- infos before are as in the case of success, and the sender is not the receiver.
  pub update_peer_infos-Stale :
      (infos : List RoutePeerInfo) (raws : List Raw) (bad : RoutePeerInfo) (bad_raw : Raw)
      (infos' : List RoutePeerInfo) (raws' : List Raw) (s : SyncedRouteInfo Raw)
      → dst_peer_id ≢ my_peer_id
      → length infos ≡ length raws
      → Clean peer_id_of my_peer_id my_peer_route_id dst_peer_id dst_peer_route_id infos raws
      → Routed dst_peer_id dst_peer_route_id s
      → Stale dst_peer_id dst_peer_route_id bad
          (max (knows dst_peer_id s) (offered dst_peer_id infos))
      → (s' : SyncedRouteInfo Raw) × (update_peer_infos peer_id_of my_peer_id my_peer_route_id
            dst_peer_id now
            (infos ++ bad ∷ infos')
            (raws ++ bad_raw ∷ raws')
            s
          ≡ done (s', err duplicate_peer_id))
        × TakesNewest now infos raws s s'
        × (s'.version ≡ s.version)
  unfolding update_peer_infos
  update_peer_infos-Stale infos raws bad bad_raw infos' raws' s other l c r h =
      receive_infos-Stale false infos raws bad bad_raw infos' raws' s other l c r h
