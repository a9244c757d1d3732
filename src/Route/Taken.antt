-- ===== src/Route/Taken.antt =====
-- peers/peer_ospf_route.rs: what one received info adds to what is known.
use peer_link.Common.{
  ℕ, suc, ◌<◌, max, ◌≤◌, ◌≡◌, inl, inr, refl, sym, ap, ◌∙◌, subst, Bool, true, false, List, [], ◌∷◌,
  zero, Option, none, some, ◌==◌, ==_iff, ==_refl, ltb, if◌then◌else◌, Bool-cases, arith,
}
use peer_link.Common.Tables.{lookup}
use peer_link.Route.{Timestamp, RoutePeerInfo, SyncedRouteInfo}
use peer_link.Route.Synced.{replace_info, replace_older}
use peer_link.Route.Known.{known, knows, lookup-insert_num, at_now, Kept, Stored, TakesNewest}

module _ {Raw : Type 0} where
  -- Nothing but the infos and the raw messages differs, or nothing at all.
  abbrev pub Step : Timestamp → RoutePeerInfo → Raw → (s s' : SyncedRouteInfo Raw) → Bool → Type 0
  Step now info raw s s' changed =
      ((p : ℕ) → knows p s' ≡ max (knows p s) (if p == info.peer_id then suc info.version else 0))
      × (s'.version ≡ s.version)
      × (changed ≡ false → s' ≡ s)
      × (changed ≡ true → knows info.peer_id s < knows info.peer_id s')
      × TakesNewest now (info ∷ []) (raw ∷ []) s s'

  -- The first info taken, and then the others.
  pub TakesNewest-Step :
      (now : Timestamp) (info : RoutePeerInfo) (raw : Raw) (infos : List RoutePeerInfo)
      (raws : List Raw) (s t s' : SyncedRouteInfo Raw) (changed : Bool)
      → Step now info raw s t changed
      → TakesNewest now infos raws t s'
      → TakesNewest now (info ∷ infos) (raw ∷ raws) s s'
  TakesNewest-Step now info raw infos raws s t s' changed st rest = (
    λ p. (
      omega (arith, st.0 p, (rest.0 p).0),
      elim (rest.0 p).1 [
        | inl kept ↦ elim (st.4.0 p).1 [
          | inl before ↦ inl (kept.0 ∙ before.0, kept.1 ∙ before.1)
          | inr (zero, i, r, a, b, c, d, e) ↦
              inr (0, i, r, a, b, c, d, (kept.0 ∙ e.0, kept.1 ∙ e.1))
          | inr (suc n, i, r, a, b, c, d, e) ↦ cc a
        ]
        | inr (n, i, r, a, b, c, d, e) ↦ inr (suc n, i, r, a, b, c, omega (arith, st.0 p, d), e)
      ],
    ),
    rest.1
        ∙ ap {A = SyncedRouteInfo Raw} {B = SyncedRouteInfo Raw}
            (λ x. record x {
              peer_infos = s'.peer_infos;
              raw_peer_infos = s'.raw_peer_infos;
              version = s'.version;
            })
            st.4.1,
  )

  knows-replace :
      (p : ℕ) (info : RoutePeerInfo) (raw : Raw) (s : SyncedRouteInfo Raw)
      → knows p (replace_info info raw s)
        ≡ (if p == info.peer_id then suc info.version else knows p s)
  unfolding replace_info
  knows-replace p info raw s =
      ap known (lookup-insert_num info.peer_id p info s.peer_infos)
      ∙ (elim (Bool-cases (p == info.peer_id)) [ inl e ↦ rw e refl | inr e ↦ rw e refl ])

  replace_info-version :
      (info : RoutePeerInfo) (raw : Raw) (s : SyncedRouteInfo Raw)
      → (replace_info info raw s).version ≡ s.version
  unfolding replace_info
  replace_info-version info raw s = refl

  replace_info-Stored :
      (now : Timestamp) (info : RoutePeerInfo) (raw : Raw) (s : SyncedRouteInfo Raw)
      → Stored now info.peer_id info raw (replace_info (at_now now info) raw s)
  unfolding replace_info
  replace_info-Stored now info raw s = (
    lookup-insert_num info.peer_id info.peer_id (at_now now info) s.peer_infos
        ∙ (rw (==_refl info.peer_id) refl),
    lookup-insert_num info.peer_id info.peer_id raw s.raw_peer_infos
        ∙ (rw (==_refl info.peer_id) refl),
  )

  replace_info-Kept :
      (p : ℕ) (info : RoutePeerInfo) (raw : Raw) (s : SyncedRouteInfo Raw)
      → (p == info.peer_id) ≡ false
      → Kept p s (replace_info info raw s)
  unfolding replace_info
  replace_info-Kept p info raw s e = (
    lookup-insert_num info.peer_id p info s.peer_infos ∙ (rw e refl),
    lookup-insert_num info.peer_id p raw s.raw_peer_infos ∙ (rw e refl),
  )

  replace_info-others :
      (info : RoutePeerInfo) (raw : Raw) (s : SyncedRouteInfo Raw)
      → replace_info info raw s ≡ record s {
        peer_infos = (replace_info info raw s).peer_infos;
        raw_peer_infos = (replace_info info raw s).raw_peer_infos;
        version = (replace_info info raw s).version;
      }
  unfolding replace_info
  replace_info-others info raw s = refl

  kept :
      (now : Timestamp) (old info : RoutePeerInfo) (raw : Raw) (s : SyncedRouteInfo Raw)
      → lookup ◌==◌ info.peer_id s.peer_infos ≡ some old
      → info.version ≤ old.version
      → Step now info raw s s false
  kept now old info raw s e h =
      let grows : (p : ℕ)
          → knows p s ≡ max (knows p s) (if p == info.peer_id then suc info.version else 0) =
        λ p. elim (Bool-cases (p == info.peer_id)) [
          | inl f ↦
              let k : knows p s ≡ suc old.version =
                ap (λ q. knows q s) ((==_iff p info.peer_id).0 f) ∙ ap known e in
              rw f (omega (arith, k, h))
          | inr f ↦ rw f (omega arith)
        ] in
      (
        grows,
        refl,
        λ _. refl,
        λ f. cc f,
        (λ p. (let g = grows p in omega (arith, g), inl (refl, refl)), refl),
      )

  replace_info-Step :
      (now : Timestamp) (info : RoutePeerInfo) (raw : Raw) (s : SyncedRouteInfo Raw)
      → knows info.peer_id s ≤ info.version
      → Step now info raw s (replace_info (at_now now info) raw s) true
  replace_info-Step now info raw s h =
      let t = replace_info (at_now now info) raw s in
      let self : knows info.peer_id t ≡ suc info.version =
        knows-replace info.peer_id (at_now now info) raw s ∙ (rw (==_refl info.peer_id) refl) in
      let below : (p : ℕ) → (p == info.peer_id) ≡ true → knows p s ≤ info.version =
        λ p e. subst (λ q. knows q s ≤ info.version) (sym ((==_iff p info.peer_id).0 e)) h in
      let grows : (p : ℕ)
          → knows p t ≡ max (knows p s) (if p == info.peer_id then suc info.version else 0) =
        λ p. knows-replace p (at_now now info) raw s ∙ (elim (Bool-cases (p == info.peer_id)) [
          | inl e ↦ rw e (let l = below p e in omega (arith, l))
          | inr e ↦ rw e (omega arith)
        ]) in
      (
        grows,
        replace_info-version (at_now now info) raw s,
        λ e. cc e,
        λ e. omega (arith, h, self),
        (
          λ p. (
            let g = grows p in omega (arith, g),
            elim (Bool-cases (p == info.peer_id)) [
              | inl e ↦
                  let at : p ≡ info.peer_id = (==_iff p info.peer_id).0 e in
                  inr (
                    0,
                    info,
                    raw,
                    refl,
                    refl,
                    at,
                    let l = below p e in omega (arith, l),
                    subst (λ q. Stored now q info raw t) (sym at)
                        (replace_info-Stored now info raw s),
                  )
              | inr e ↦ inl (replace_info-Kept p (at_now now info) raw s e)
            ],
          ),
          replace_info-others (at_now now info) raw s,
        ),
      )

  pub replace_older-Step :
      (now : Timestamp) (found : Option RoutePeerInfo) (info : RoutePeerInfo) (raw : Raw)
      (s : SyncedRouteInfo Raw)
      → lookup ◌==◌ info.peer_id s.peer_infos ≡ found
      → let step = replace_older found (at_now now info) raw s in Step now info raw s step.0 step.1
  unfolding replace_older
  replace_older-Step now none info raw s e =
      replace_info-Step now info raw s
        (subst (λ k. k ≤ info.version) (sym (ap known e)) (omega arith))
  replace_older-Step now (some old) info raw s e =
      elim (Bool-cases (ltb old.version info.version)) [
        | inl l ↦
            let h : suc old.version ≤ info.version = ground arith in
            rw l (
              replace_info-Step now info raw s (subst (λ k. k ≤ info.version) (sym (ap known e)) h))
        | inr l ↦ rw l (kept now old info raw s e (ground arith))
      ]
