-- ===== src/Route/Session/Exchange.antt =====
-- peers/peer_ospf_route.rs: what the receiver knows when it has been sent the infos it has not got.
use peer_link.Common.{
  ℕ, suc, ◌≤◌, ◌<◌, max, ◌≡◌, ◌≢◌, ◌⊎◌, refl, sym, ap, ◌∙◌, inl, inr, Bool, true, List, [], ◌∷◌,
  Option, none, some, ◌==◌, ==_iff, ==_refl, ltb, if◌then◌else◌, Bool-cases, arith, done,
}
use peer_link.Common.Tables.{lookup, AllOf, AllOf-map}
use peer_link.Route.{Timestamp, RoutePeerInfo, ok, set_if_larger, SyncedRouteInfo}
use peer_link.Route.Synced.{unwrap_or, update_peer_infos}
use peer_link.Route.Known.{knows, offered, Clean, Routed, lookup-insert_num}
use peer_link.Route.Newest.{update_peer_infos-knows}
use peer_link.Route.Session.{
  SyncRouteSession, check_saved_peer_info_update_to_date, infos_to_send, save_version, save_infos,
  update_dst_saved_peer_info_version,
}
use peer_link.Route.Session.Saved.{IsSaved, leb-IsSaved}

-- What is saved of a peer is known there.
abbrev pub SavedIsKnown : {Raw : Type 0} → List (ℕ × ℕ) → SyncedRouteInfo Raw → Type 0
SavedIsKnown saved s = (p v : ℕ) → IsSaved ◌==◌ p v saved → v < knows p s

-- What the sender has of a reachable peer that is not the receiver is known there.
abbrev pub IsTold :
    {Raw : Type 0}
    → (ℕ → Bool)
    → (dst_peer_id : ℕ) → SyncedRouteInfo Raw
    → ℕ × RoutePeerInfo
    → Type 0
IsTold reachable d s (key, info) =
    reachable key ≡ true → info.version ≢ 0 → info.peer_id ≢ d → info.version < knows info.peer_id s

larger :
    (found : Option ℕ) (u v w : ℕ)
    → (set_if_larger (unwrap_or 0 found) v).0 ≡ w
    → u ≤ w
    → (u ≤ v) ⊎ ((x : ℕ) × (found ≡ some x) × (u ≤ x))
unfolding set_if_larger
larger none u v w e l = elim (Bool-cases (ltb 0 v)) [
  | inl a ↦ let f : v ≡ w = rw a at e in inl (omega (arith, f, l))
  | inr a ↦ let f : 0 ≡ w = rw a at e in inl (omega (arith, f, l))
]
larger (some x) u v w e l = elim (Bool-cases (ltb x v)) [
  | inl a ↦ let f : v ≡ w = rw a at e in inl (omega (arith, f, l))
  | inr a ↦ let f : x ≡ w = rw a at e in inr (x, refl, omega (arith, f, l))
]

IsSaved-save_version_inv :
    (j u k v : ℕ) (t : List (ℕ × ℕ))
    → IsSaved ◌==◌ j u (save_version ◌==◌ k v t)
    → ((j ≡ k) × (u ≤ v)) ⊎ IsSaved ◌==◌ j u t
unfolding save_version set_if_larger
IsSaved-save_version_inv j u k v t (w, e, l) =
    let n = (set_if_larger (unwrap_or 0 (lookup ◌==◌ k t)) v).0 in
    let f = sym (lookup-insert_num k j n t) ∙ e in
    elim (Bool-cases (j == k)) [
      | inl a ↦
          let j≡k : j ≡ k = (==_iff j k).0 a in
          let g : some n ≡ some w = rw a at f in
          let h : n ≡ w = cc g in
          elim (larger (lookup ◌==◌ k t) u v w h l) [
            | inl m ↦ inl (j≡k, m)
            | inr (x, found, m) ↦ inr (x, ap (λ q. lookup ◌==◌ q t) j≡k ∙ found, m)
          ]
      | inr a ↦ inr (w, rw a at f, l)
    ]

save_infos-offered :
    (j u : ℕ) (infos : List RoutePeerInfo) (t : List (ℕ × ℕ))
    → IsSaved ◌==◌ j u (save_infos infos t)
    → (u < offered j infos) ⊎ IsSaved ◌==◌ j u t
unfolding save_infos
save_infos-offered j u [] t h = inr h
save_infos-offered j u (i ∷ is) t h =
    elim (save_infos-offered j u is (save_version ◌==◌ i.peer_id i.version t) h) [
      | inl l ↦ inl (omega (arith, l))
      | inr g ↦ elim (IsSaved-save_version_inv j u i.peer_id i.version t g) [
        | inl (e, l) ↦ inl (rw e (rw (==_refl i.peer_id) (omega (arith, l))))
        | inr k ↦ inr k
      ]
    ]

unsaved :
    (p v : ℕ) (session : SyncRouteSession)
    → v ≢ 0
    → p ≢ session.dst_peer_id
    → check_saved_peer_info_update_to_date p v session ≡ true
    → IsSaved ◌==◌ p v session.dst_saved_peer_info_versions
unfolding check_saved_peer_info_update_to_date
unsaved p v session nz nd h = elim (Bool-cases (v == 0)) [
  | inl a ↦ absurd (nz ((==_iff v 0).0 a))
  | inr a ↦ elim (Bool-cases (p == session.dst_peer_id)) [
    | inl b ↦ absurd (nd ((==_iff p session.dst_peer_id).0 b))
    | inr b ↦ leb-IsSaved ◌==◌ p v session.dst_saved_peer_info_versions (rw b at (rw a at h))
  ]
]

module _ (reachable : ℕ → Bool) (session : SyncRouteSession) where
  -- Each info is saved, or is among those that are sent.
  infos_to_send-all :
      (known_there : ℕ → ℕ) (t : List (ℕ × RoutePeerInfo))
      → ((p v : ℕ) → IsSaved ◌==◌ p v session.dst_saved_peer_info_versions → v < known_there p)
      → ((p : ℕ) → offered p (infos_to_send reachable session t) ≤ known_there p)
      → AllOf
          (λ x.
            reachable x.0 ≡ true
            → x.1.version ≢ 0
            → x.1.peer_id ≢ session.dst_peer_id
            → x.1.version < known_there x.1.peer_id)
          t
  unfolding infos_to_send
  infos_to_send-all known_there [] saved sent = tt
  infos_to_send-all known_there ((key, i) ∷ rest) saved sent =
      elim (Bool-cases (check_saved_peer_info_update_to_date i.peer_id i.version session)) [
        | inl e ↦ (
          (λ r nz nd. saved i.peer_id i.version (unsaved i.peer_id i.version session nz nd e)),
          infos_to_send-all known_there rest saved (rw e at sent),
        )
        | inr e ↦ elim (Bool-cases (reachable key)) [
          | inl r ↦
              let a = rw r at (rw e at sent) in
              (
                (λ _ nz nd.
                    here i (infos_to_send reachable session rest) (known_there i.peer_id)
                      (a i.peer_id)),
                infos_to_send-all known_there rest saved (λ p. omega (arith, a p)),
              )
          | inr r ↦
              let a = rw r at (rw e at sent) in
              ((λ q nz nd. cc (q, r)), infos_to_send-all known_there rest saved a)
        ]
      ]
    where
      here :
          (i : RoutePeerInfo) (later : List RoutePeerInfo) (k : ℕ)
          → max (if i.peer_id == i.peer_id then suc i.version else 0) (offered i.peer_id later) ≤ k
          → i.version < k
      here i later k h = let g = rw (==_refl i.peer_id) at h in omega (arith, g)

-- When what the session has saved is known to the receiver, and the infos it sends are as
-- `update_peer_infos` takes them, the receiver takes them all, then knows of every reachable peer but
-- itself at least the version the sender has, unless this is 0, and what the session saves after the
-- sending is known to the receiver again.
pub update_peer_infos-infos_to_send :
    {Raw : Type 0} (peer_id_of : Raw → Option ℕ) (sender_route_id receiver_route_id : ℕ)
    (now : Timestamp) (reachable : ℕ → Bool) (session : SyncRouteSession)
    (sender receiver : SyncedRouteInfo Raw) (raws : List Raw)
    → SavedIsKnown session.dst_saved_peer_info_versions receiver
    → Clean peer_id_of session.dst_peer_id receiver_route_id session.my_peer_id sender_route_id
        (infos_to_send reachable session sender.peer_infos)
        raws
    → Routed session.my_peer_id sender_route_id receiver
    → (receiver' : SyncedRouteInfo Raw) × (update_peer_infos peer_id_of session.dst_peer_id
          receiver_route_id session.my_peer_id now
          (infos_to_send reachable session sender.peer_infos)
          raws
          receiver
        ≡ done (receiver', ok tt))
      × AllOf (IsTold reachable session.dst_peer_id receiver') sender.peer_infos
      × SavedIsKnown
          (update_dst_saved_peer_info_version
            (infos_to_send reachable session sender.peer_infos)
            session).dst_saved_peer_info_versions
          receiver'
unfolding update_dst_saved_peer_info_version
update_peer_infos-infos_to_send {Raw} peer_id_of sr rr now reachable session sender receiver raws
      saved clean routed =
    let infos = infos_to_send reachable session sender.peer_infos in
    let (receiver', e, k, out) =
      update_peer_infos-knows peer_id_of session.dst_peer_id rr session.my_peer_id sr now infos raws
        receiver clean routed in
    (
      receiver',
      e,
      AllOf-map _ (IsTold reachable session.dst_peer_id receiver') sender.peer_infos (λ x f. f)
          (infos_to_send-all reachable session (λ p. knows p receiver') sender.peer_infos
            (λ p v h. omega (arith, saved p v h, (k.0 p).0)) (λ p. omega (arith, (k.0 p).0))),
      λ p v h. elim (save_infos-offered p v infos session.dst_saved_peer_info_versions h) [
        | inl l ↦ omega (arith, l, (k.0 p).0)
        | inr g ↦ omega (arith, saved p v g, (k.0 p).0)
      ],
    )
