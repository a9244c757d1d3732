-- ===== src/Route/Session/Unsent.antt =====
-- peers/peer_ospf_route.rs: a session that has saved what was sent has nothing of it left to send.
use peer_link.Common.{
  ℕ, ◌≡◌, refl, ap, ◌∙◌, subst, inl, inr, Bool, true, false, List, [], ◌∷◌, ◌==◌, leb, Bool-cases,
  ◌||◌,
}
use peer_link.Common.Tables.{lookup, AllOf}
use peer_link.Route.{
  RoutePeerInfo, ForeignNetworkRouteInfoKey, ForeignNetworkRouteInfoEntry, same_network,
}
use peer_link.Route.Synced.{unwrap_or, option_map}
use peer_link.Route.Session.{
  SyncRouteSession, check_saved_peer_info_update_to_date, infos_to_send, has_newer,
  networks_to_send,
}
use peer_link.Route.Session.Saved.{IsSaved, IsSaved-leb, leb-IsSaved, IsSavedNetwork, IsWhole}

-- The second session has saved all that the first has.
abbrev pub KeepsSaved : {K : Type 0} → (K → K → Bool) → (t t' : List (K × ℕ)) → Type 0
KeepsSaved {K} same t t' = (k : K) (v : ℕ) → IsSaved same k v t → IsSaved same k v t'

pub check-IsSaved :
    (p v : ℕ) (session : SyncRouteSession)
    → IsSaved ◌==◌ p v session.dst_saved_peer_info_versions
    → check_saved_peer_info_update_to_date p v session ≡ true
unfolding check_saved_peer_info_update_to_date
check-IsSaved p v session h = elim (Bool-cases (v == 0 || p == session.dst_peer_id)) [
  | inl e ↦ rw e refl
  | inr e ↦ rw e (IsSaved-leb ◌==◌ p v session.dst_saved_peer_info_versions h)
]

exempt :
    (p v : ℕ) (session : SyncRouteSession)
    → (v == 0 || p == session.dst_peer_id) ≡ true
    → check_saved_peer_info_update_to_date p v session ≡ true
unfolding check_saved_peer_info_update_to_date
exempt p v session e = rw e refl

asked :
    (p v : ℕ) (session : SyncRouteSession)
    → (v == 0 || p == session.dst_peer_id) ≡ false
    → check_saved_peer_info_update_to_date p v session ≡ true
    → unwrap_or false (option_map (leb v) (lookup ◌==◌ p session.dst_saved_peer_info_versions))
      ≡ true
unfolding check_saved_peer_info_update_to_date
asked p v session e h = rw e at h

pub check-KeepsSaved :
    (p v : ℕ) (session session' : SyncRouteSession)
    → session'.dst_peer_id ≡ session.dst_peer_id
    → KeepsSaved ◌==◌ session.dst_saved_peer_info_versions session'.dst_saved_peer_info_versions
    → check_saved_peer_info_update_to_date p v session ≡ true
    → check_saved_peer_info_update_to_date p v session' ≡ true
check-KeepsSaved p v session session' d keeps h =
    elim (Bool-cases (v == 0 || p == session.dst_peer_id)) [
      | inl e ↦ exempt p v session' (ap (λ x. v == 0 || p == x) d ∙ e)
      | inr e ↦ check-IsSaved p v session' (
          keeps p v
            (leb-IsSaved ◌==◌ p v session.dst_saved_peer_info_versions (asked p v session e h)))
    ]

pub infos_to_send-none :
    (reachable : ℕ → Bool) (session session' : SyncRouteSession) (rest : List (ℕ × RoutePeerInfo))
    → session'.dst_peer_id ≡ session.dst_peer_id
    → KeepsSaved ◌==◌ session.dst_saved_peer_info_versions session'.dst_saved_peer_info_versions
    → AllOf
        (λ i. IsSaved ◌==◌ i.peer_id i.version session'.dst_saved_peer_info_versions)
        (infos_to_send reachable session rest)
    → infos_to_send reachable session' rest ≡ []
unfolding infos_to_send
infos_to_send-none reachable session session' [] d keeps all = refl
infos_to_send-none reachable session session' ((key, i) ∷ rest) d keeps all =
    let later = infos_to_send-none reachable session session' rest d keeps in
    elim (Bool-cases (check_saved_peer_info_update_to_date i.peer_id i.version session)) [
      | inl e ↦
          rw (check-KeepsSaved i.peer_id i.version session session' d keeps e) (later (rw e at all))
      | inr e ↦ elim (Bool-cases (reachable key)) [
        | inl r ↦
            let a = rw r at (rw e at all) in
            rw (check-IsSaved i.peer_id i.version session' a.0) (later a.1)
        | inr r ↦
            let a = rw r at (rw e at all) in
            elim (Bool-cases (check_saved_peer_info_update_to_date i.peer_id i.version session')) [
              | inl f ↦ rw f (later a)
              | inr f ↦ rw f (rw r (later a))
            ]
      ]
    ]

pub has_newer-none :
    (saved peers : List (ℕ × ℕ))
    → AllOf (λ x. IsSaved ◌==◌ x.0 x.1 saved) peers
    → has_newer saved peers ≡ false
unfolding has_newer
has_newer-none saved [] all = refl
has_newer-none saved ((p, v) ∷ rest) all =
    rw (IsSaved-leb ◌==◌ p v saved all.0) (has_newer-none saved rest all.1)

pub networks_to_send-IsWhole :
    (session : SyncRouteSession)
    (rest : List (ForeignNetworkRouteInfoKey × ForeignNetworkRouteInfoEntry))
    → AllOf IsWhole (networks_to_send session rest)
unfolding networks_to_send
networks_to_send-IsWhole session [] = tt
networks_to_send-IsWhole session ((key, entry) ∷ rest) =
    let later = networks_to_send-IsWhole session rest in
    let saved = session.dst_saved_foreign_network_versions in
    elim (Bool-cases (key.peer_id == session.dst_peer_id)) [
      | inl e ↦ rw e later
      | inr e ↦
          elim (Bool-cases
            (unwrap_or false (option_map (leb entry.version) (lookup same_network key saved)))) [
              | inl f ↦ rw e (rw f later)
              | inr f ↦ rw e (rw f ((key, entry, refl, refl), later))
            ]
    ]

pub networks_to_send-none :
    (session session' : SyncRouteSession)
    (rest : List (ForeignNetworkRouteInfoKey × ForeignNetworkRouteInfoEntry))
    → session'.dst_peer_id ≡ session.dst_peer_id
    → KeepsSaved same_network session.dst_saved_foreign_network_versions
        session'.dst_saved_foreign_network_versions
    → AllOf
        (IsSavedNetwork session'.dst_saved_foreign_network_versions)
        (networks_to_send session rest)
    → networks_to_send session' rest ≡ []
unfolding networks_to_send
networks_to_send-none session session' [] d keeps all = refl
networks_to_send-none session session' ((key, entry) ∷ rest) d keeps all =
    let later = networks_to_send-none session session' rest d keeps in
    let saved = session.dst_saved_foreign_network_versions in
    let saved' = session'.dst_saved_foreign_network_versions in
    elim (Bool-cases (key.peer_id == session.dst_peer_id)) [
      | inl e ↦ rw d (rw e (later (rw e at all)))
      | inr e ↦
          elim (Bool-cases
            (unwrap_or false (option_map (leb entry.version) (lookup same_network key saved)))) [
              | inl f ↦
                  let g = IsSaved-leb same_network key entry.version saved' (
                    keeps key entry.version (leb-IsSaved same_network key entry.version saved f)) in
                  rw d (rw e (rw g (later (rw f at (rw e at all)))))
              | inr f ↦
                  let a = rw f at (rw e at all) in
                  let (k, x, ek, ex, sv) = a.0 in
                  let hk : k ≡ key = cc ek in
                  let hx : x ≡ entry = cc ex in
                  let sk : IsSaved same_network key entry.version saved' =
                    subst (λ z. IsSaved same_network z entry.version saved') hk
                      (subst
                        (λ (z : ForeignNetworkRouteInfoEntry).
                          IsSaved same_network k z.version saved')
                        hx sv) in
                  rw d
                    (rw e (rw (IsSaved-leb same_network key entry.version saved' sk) (later a.1)))
            ]
    ]
