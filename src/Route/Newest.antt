-- ===== src/Route/Newest.antt =====
-- peers/peer_ospf_route.rs: what `update_peer_infos` leaves of the infos it is given.
use peer_link.Common.{
  ℕ, ◌<◌, ◌≡◌, ◌⊎◌, inl, inr, refl, sym, ap, ◌∙◌, subst, Bool, true, false, List, [], ◌∷◌, ◌||◌,
  Option, none, some, ◌==◌, ==_iff, ==_refl, ltb, if◌then◌else◌, Bool-cases, done, arith,
}
use peer_link.Common.Tables.{lookup}
use peer_link.Route.{Timestamp, RoutePeerInfo, ok, inc, SyncedRouteInfo}
use peer_link.Route.Known.{
  knows, lookup-insert_num, at_now, Clean, Routed, TakesNewest, TakesNewest-refl,
}
use peer_link.Route.Taken.{Step, TakesNewest-Step, replace_older-Step}
use peer_link.Route.Synced.{
  option_map, inc_if, check_duplicate_peer_id, check_dst, get_peer_info_version_with_default,
  replace_info, replace_older, receive_checked, receive_info, receive_infos, update_peer_infos,
}

pub ltb_zero : (n : ℕ) → ltb n 0 ≡ false
ltb_zero n = ground arith

module _ {Raw : Type 0} (peer_id_of : Raw → Option ℕ)
    (my_peer_id my_peer_route_id dst_peer_id dst_peer_route_id : ℕ) (now : Timestamp) where
  check_dst-Routed :
      (found : Option RoutePeerInfo) (info : RoutePeerInfo) (s : SyncedRouteInfo Raw)
      → lookup ◌==◌ info.peer_id s.peer_infos ≡ found
      → ((old : RoutePeerInfo)
          → found ≡ some old
          → (old.version ≡ 0) ⊎ (old.peer_route_id ≡ info.peer_route_id))
      → check_dst (option_map (λ i. i.peer_route_id) found) info s ≡ ok tt
  unfolding check_dst get_peer_info_version_with_default
  check_dst-Routed none info s e h = refl
  check_dst-Routed (some old) info s e h = elim (h old refl) [
    | inl z ↦ rw e (
        rw z (elim (Bool-cases (old.peer_route_id == info.peer_route_id)) [
          | inl a ↦ rw a refl
          | inr a ↦ rw a (rw (ltb_zero info.version) refl)
        ]))
    | inr q ↦ rw q (rw (==_refl info.peer_route_id) refl)
  ]

  check-Clean :
      (info : RoutePeerInfo) (s : SyncedRouteInfo Raw)
      → (info.peer_id ≡ my_peer_id → info.peer_route_id ≡ my_peer_route_id)
      → (info.peer_id ≡ dst_peer_id → info.peer_route_id ≡ dst_peer_route_id)
      → Routed dst_peer_id dst_peer_route_id s
      → check_duplicate_peer_id my_peer_id my_peer_route_id dst_peer_id
          (if info.peer_id == dst_peer_id
            then option_map (λ i. i.peer_route_id) (lookup ◌==◌ dst_peer_id s.peer_infos)
            else none)
          info
          s
        ≡ done (ok tt)
  unfolding check_duplicate_peer_id
  check-Clean info s hm hd r = elim (Bool-cases (info.peer_id == my_peer_id)) [
    | inl e ↦
        let q : info.peer_route_id ≡ my_peer_route_id = hm ((==_iff info.peer_id my_peer_id).0 e) in
        rw e (rw q (rw (==_refl my_peer_route_id) refl))
    | inr e ↦ elim (Bool-cases (info.peer_id == dst_peer_id)) [
      | inl f ↦
          let q = hd ((==_iff info.peer_id dst_peer_id).0 f) in
          let c =
            check_dst-Routed (lookup ◌==◌ dst_peer_id s.peer_infos) info s
              (ap (λ p. lookup ◌==◌ p s.peer_infos) ((==_iff info.peer_id dst_peer_id).0 f))
              (λ old g. elim (r old g) [ inl z ↦ inl z | inr k ↦ inr (k ∙ sym q) ]) in
          rw e (rw f (ap done c))
      | inr f ↦ rw e (rw f refl)
    ]
  ]

  pub receive_info-Clean :
      (info : RoutePeerInfo) (raw : Raw) (s : SyncedRouteInfo Raw)
      → peer_id_of raw ≡ some info.peer_id
      → (info.peer_id ≡ my_peer_id → info.peer_route_id ≡ my_peer_route_id)
      → (info.peer_id ≡ dst_peer_id → info.peer_route_id ≡ dst_peer_route_id)
      → Routed dst_peer_id dst_peer_route_id s
      → receive_info peer_id_of my_peer_id my_peer_route_id dst_peer_id now info raw s
        ≡ done (ok (replace_older (lookup ◌==◌ info.peer_id s.peer_infos) (at_now now info) raw s))
  unfolding receive_info receive_checked
  receive_info-Clean info raw s hr hm hd r =
      rw (check-Clean info s hm hd r) (rw hr (rw (==_refl info.peer_id) refl))

  replace_info-Routed :
      (info : RoutePeerInfo) (raw : Raw) (s : SyncedRouteInfo Raw)
      → (info.peer_id ≡ dst_peer_id → info.peer_route_id ≡ dst_peer_route_id)
      → Routed dst_peer_id dst_peer_route_id s
      → Routed dst_peer_id dst_peer_route_id (replace_info info raw s)
  unfolding replace_info
  replace_info-Routed info raw s hd r old e =
      let f = sym (lookup-insert_num info.peer_id dst_peer_id info s.peer_infos) ∙ e in
      elim (Bool-cases (dst_peer_id == info.peer_id)) [
        | inl a ↦
            let g : some info ≡ some old = rw a at f in
            let h : info ≡ old = cc g in
            inr (
              subst (λ i. i.peer_route_id ≡ dst_peer_route_id) h
                (hd (sym ((==_iff dst_peer_id info.peer_id).0 a))))
        | inr a ↦ r old (rw a at f)
      ]

  pub replace_older-Routed :
      (found : Option RoutePeerInfo) (info : RoutePeerInfo) (raw : Raw) (s : SyncedRouteInfo Raw)
      → (info.peer_id ≡ dst_peer_id → info.peer_route_id ≡ dst_peer_route_id)
      → Routed dst_peer_id dst_peer_route_id s
      → Routed dst_peer_id dst_peer_route_id (replace_older found (at_now now info) raw s).0
  unfolding replace_older
  replace_older-Routed none info raw s hd r = replace_info-Routed (at_now now info) raw s hd r
  replace_older-Routed (some old) info raw s hd r =
      elim (Bool-cases (ltb old.version info.version)) [
        | inl l ↦ rw l (replace_info-Routed (at_now now info) raw s hd r)
        | inr l ↦ rw l r
      ]

  -- What is left of the infos by the loop: `need` says whether the version goes up anyway.
  abbrev Received :
      (need : Bool) (infos : List RoutePeerInfo) (raws : List Raw) (s s' : SyncedRouteInfo Raw)
      → Type 0
  Received need infos raws s s' =
      TakesNewest now infos raws s s'
      × (((need ≡ false) × (s' ≡ s))
          ⊎ ((s'.version ≡ inc s.version) × ((need ≡ true) ⊎ ((p : ℕ) × (knows p s < knows p s')))))

  Out-Step :
      (need changed : Bool) (info : RoutePeerInfo) (raw : Raw) (infos : List RoutePeerInfo)
      (raws : List Raw) (s t s' : SyncedRouteInfo Raw)
      → Step now info raw s t changed
      → Received (need || changed) infos raws t s'
      → ((need ≡ false) × (s' ≡ s))
        ⊎ ((s'.version ≡ inc s.version) × ((need ≡ true) ⊎ ((p : ℕ) × (knows p s < knows p s'))))
  Out-Step true changed info raw infos raws s t s' a (k, inl (off, e)) = cc off
  Out-Step true changed info raw infos raws s t s' a (k, inr (v, why)) =
      inr (v ∙ ap inc a.1, inl refl)
  Out-Step false true info raw infos raws s t s' a (k, inl (off, e)) = cc off
  Out-Step false true info raw infos raws s t s' a (k, inr (v, why)) =
      inr (v ∙ ap inc a.1, inr (info.peer_id, omega (arith, a.3 refl, (k.0 info.peer_id).0)))
  Out-Step false false info raw infos raws s t s' a (k, inl (off, e)) = inl (refl, e ∙ a.2 refl)
  Out-Step false false info raw infos raws s t s' a (k, inr (v, inl why)) = cc why
  Out-Step false false info raw infos raws s t s' a (k, inr (v, inr (p, l))) =
      inr (v ∙ ap inc a.1, inr (p, subst (λ x. knows p x < knows p s') (a.2 refl) l))

  version_up :
      (raws : List Raw) (s : SyncedRouteInfo Raw)
      → TakesNewest now [] raws s (record s { version = inc s.version })
  version_up raws s = (λ p. (omega arith, inl (refl, refl)), refl)

  receive_infos-Clean :
      (need : Bool) (infos : List RoutePeerInfo) (raws : List Raw) (s : SyncedRouteInfo Raw)
      → Clean peer_id_of my_peer_id my_peer_route_id dst_peer_id dst_peer_route_id infos raws
      → Routed dst_peer_id dst_peer_route_id s
      → (s' : SyncedRouteInfo Raw) × (receive_infos peer_id_of my_peer_id my_peer_route_id
            dst_peer_id now need infos raws s
          ≡ done (s', ok tt))
        × Received need infos raws s s'
  unfolding receive_infos inc_if
  receive_infos-Clean true [] raws s c r = (_, refl, (version_up raws s, inr (refl, inl refl)))
  receive_infos-Clean false [] raws s c r =
      (s, refl, (TakesNewest-refl now raws s, inl (refl, refl)))
  receive_infos-Clean need (info ∷ infos) [] s c r = absurd c
  receive_infos-Clean need (info ∷ infos) (raw ∷ raws) s (hr, hm, hd, c) r =
      let found = lookup ◌==◌ info.peer_id s.peer_infos in
      let step = replace_older found (at_now now info) raw s in
      let st = replace_older-Step now found info raw s refl in
      let (s', e, rest) =
        receive_infos-Clean (need || step.1) infos raws step.0 c
          (replace_older-Routed found info raw s hd r) in
      (
        s',
        (rw (receive_info-Clean info raw s hr hm hd r) e),
        (
          TakesNewest-Step now info raw infos raws s step.0 s' step.1 st rest.0,
          Out-Step need step.1 info raw infos raws s step.0 s' st rest,
        ),
      )

  -- When every info has its raw message and those about the sender and the receiver have the route
  -- ids the two are known by, `update_peer_infos` succeeds: of each peer, either what was known and
  -- its raw message stay, or an info of those given that is newer than what was known stands there
  -- whole, with the time and with its own raw message; either way the version known is the newest
  -- of what was known and what the infos say; and nothing else of the synced information changes
  -- but its version, which goes up by one exactly when more is known of some peer; otherwise the
  -- state is the one before.
  pub update_peer_infos-knows :
      (infos : List RoutePeerInfo) (raws : List Raw) (s : SyncedRouteInfo Raw)
      → Clean peer_id_of my_peer_id my_peer_route_id dst_peer_id dst_peer_route_id infos raws
      → Routed dst_peer_id dst_peer_route_id s
      → (s' : SyncedRouteInfo Raw) × (update_peer_infos peer_id_of my_peer_id my_peer_route_id
            dst_peer_id now infos raws s
          ≡ done (s', ok tt))
        × TakesNewest now infos raws s s'
        × ((s' ≡ s) ⊎ ((s'.version ≡ inc s.version) × ((p : ℕ) × (knows p s < knows p s'))))
  unfolding update_peer_infos
  update_peer_infos-knows infos raws s c r =
      let (s', e, k) = receive_infos-Clean false infos raws s c r in
      (
        s',
        e,
        k.0,
        elim k.1 [
          | inl (off, same) ↦ inl same
          | inr (v, inl on) ↦ cc on
          | inr (v, inr more) ↦ inr (v, more)
        ],
      )
