-- ===== src/Route/Trust/Genuine.antt =====
-- peers/peer_ospf_route.rs: a peer is trusted to be in a group only by a proof that verifies.
use peer_link.Common.{
  ℕ, ◌≡◌, ◌⊎◌, refl, sym, ap, ◌∙◌, subst, inl, inr, true, List, [], ◌∷◌, Option, none, some, ◌==◌,
  ==_iff, ==_refl, if◌then◌else◌, Bool-cases,
}
use peer_link.Common.Tables.{
  Text, same_text, same_text_refl, same_text-≡, lookup, insert, delete, lookup-insert,
  lookup-delete,
}
use peer_link.Route.{PeerGroupInfo, RoutePeerInfo, SyncedRouteInfo}
use peer_link.Route.Synced.{option_map}
use peer_link.Route.Graph.Heap.{In}
use peer_link.Route.Known.{lookup-insert_num}
use peer_link.Route.Trust.{
  GroupIdentity, secrets, verify, same_proof, is_unchanged, is_proved, verify_groups, keys,
  store_trusted, trust_peer, trust_peers, verify_and_update_group_trusts,
}

module _ (mac : Text → List ℕ → List ℕ) (Declared : Text → Text → Type 0) where
  -- A proof that the peer is in the group, under a secret declared for it.
  abbrev pub IsGenuine : (peer_id : ℕ) → Text → List ℕ → Type 0
  IsGenuine p name proof =
      (secret : Text) × Declared name secret
      × (verify mac (record { group_name = name; group_proof = proof }) secret p ≡ true)

  abbrev pub AllGenuine : (peer_id : ℕ) → List (Text × List ℕ) → Type 0
  AllGenuine p groups =
      (name : Text) (proof : List ℕ)
      → lookup same_text name groups ≡ some proof
      → IsGenuine p name proof

  -- Everything trusted is proved, and the cache holds the names of what is trusted.
  abbrev pub IsSound : {Raw : Type 0} → SyncedRouteInfo Raw → Type 0
  IsSound s =
      ((p : ℕ) (groups : List (Text × List ℕ))
        → lookup ◌==◌ p s.group_trust_map ≡ some groups
        → AllGenuine p groups)
      × ((p : ℕ)
          → lookup ◌==◌ p s.group_trust_map_cache
            ≡ option_map (keys mac) (lookup ◌==◌ p s.group_trust_map))

  AllDeclared : List (Text × Text) → Type 0
  AllDeclared t =
      (name secret : Text) → lookup same_text name t ≡ some secret → Declared name secret

  lookup-insert_text :
      {V : Type 0} (k j : Text) (v w : V) (t : List (Text × V))
      → lookup same_text j (insert same_text k v t) ≡ some w
      → ((j ≡ k) × (v ≡ w)) ⊎ (lookup same_text j t ≡ some w)
  lookup-insert_text k j v w t e =
      let f = sym (lookup-insert same_text same_text_refl same_text-≡ k j v t) ∙ e in
      elim (Bool-cases (same_text j k)) [
        | inl a ↦ let g : some v ≡ some w = rw a at f in inl (same_text-≡ j k a, cc g)
        | inr a ↦ inr (rw a at f)
      ]

  secrets-Declared :
      (gs : List GroupIdentity) (t : List (Text × Text))
      → ((g : GroupIdentity) → In g gs → Declared g.group_name g.group_secret)
      → AllDeclared t
      → AllDeclared (secrets gs t)
  unfolding secrets AllDeclared
  secrets-Declared [] t all d = d
  secrets-Declared (g ∷ gs) t all d =
      secrets-Declared gs (insert same_text g.group_name g.group_secret t) (λ h i. all h (inr i))
        (λ name secret e. elim (lookup-insert_text g.group_name name g.group_secret secret t e) [
          | inl (a, b) ↦
              subst (λ x. Declared x secret) (sym a)
                (subst (Declared g.group_name) b (all g (inl refl)))
          | inr f ↦ d name secret f
        ])

  same_proof-IsGenuine :
      (found : Option (List ℕ)) (g : PeerGroupInfo) (p : ℕ)
      → ((proof : List ℕ) → found ≡ some proof → IsGenuine p g.group_name proof)
      → same_proof found g.group_proof ≡ true
      → IsGenuine p g.group_name g.group_proof
  same_proof-IsGenuine none g p all e = cc e
  same_proof-IsGenuine (some proof) g p all e =
      subst (IsGenuine p g.group_name) (same_text-≡ proof g.group_proof e) (all proof refl)

  is_unchanged-IsGenuine :
      (old : Option (List (Text × List ℕ))) (g : PeerGroupInfo) (p : ℕ)
      → ((groups : List (Text × List ℕ)) → old ≡ some groups → AllGenuine p groups)
      → is_unchanged mac old g ≡ true
      → IsGenuine p g.group_name g.group_proof
  unfolding is_unchanged
  is_unchanged-IsGenuine none g p all e = cc e
  is_unchanged-IsGenuine (some old) g p all e =
      same_proof-IsGenuine (lookup same_text g.group_name old) g p (all old refl g.group_name) e

  is_proved-IsGenuine :
      (found : Option Text) (g : PeerGroupInfo) (p : ℕ)
      → ((secret : Text) → found ≡ some secret → Declared g.group_name secret)
      → is_proved mac found g p ≡ true
      → IsGenuine p g.group_name g.group_proof
  unfolding is_proved
  is_proved-IsGenuine none g p d e = cc e
  is_proved-IsGenuine (some secret) g p d e = (secret, d secret refl, e)

  AllGenuine-insert :
      (g : PeerGroupInfo) (p : ℕ) (trusted : List (Text × List ℕ))
      → IsGenuine p g.group_name g.group_proof
      → AllGenuine p trusted
      → AllGenuine p (insert same_text g.group_name g.group_proof trusted)
  AllGenuine-insert g p trusted good all name proof e =
      elim (lookup-insert_text g.group_name name g.group_proof proof trusted e) [
        | inl (a, b) ↦
            subst (λ x. IsGenuine p x proof) (sym a) (subst (IsGenuine p g.group_name) b good)
        | inr f ↦ all name proof f
      ]

  verify_groups-AllGenuine :
      (declared : List (Text × Text)) (old : Option (List (Text × List ℕ))) (p : ℕ)
      (gs : List PeerGroupInfo) (trusted : List (Text × List ℕ))
      → AllDeclared declared
      → ((groups : List (Text × List ℕ)) → old ≡ some groups → AllGenuine p groups)
      → AllGenuine p trusted
      → AllGenuine p (verify_groups mac declared old p gs trusted)
  unfolding verify_groups AllDeclared
  verify_groups-AllGenuine declared old p [] trusted d was all = all
  verify_groups-AllGenuine declared old p (g ∷ gs) trusted d was all =
      verify_groups-AllGenuine declared old p gs _ d was
        (elim (Bool-cases (is_unchanged mac old g)) [
          | inl e ↦ rw e (AllGenuine-insert g p trusted (is_unchanged-IsGenuine old g p was e) all)
          | inr e ↦
              rw e (elim (Bool-cases (is_proved mac (lookup same_text g.group_name declared) g p)) [
                | inl f ↦ rw f (
                    AllGenuine-insert g p trusted
                      (is_proved-IsGenuine (lookup same_text g.group_name declared) g p
                        (d g.group_name) f)
                      all)
                | inr f ↦ rw f all
              ])
        ])

  lookup-delete_num :
      {V : Type 0} (j k : ℕ) (t : List (ℕ × V))
      → lookup ◌==◌ k (delete ◌==◌ j t) ≡ (if k == j then none else lookup ◌==◌ k t)
  lookup-delete_num j k t = lookup-delete ◌==◌ ==_refl (λ a b. (==_iff a b).0) j k t

  store_trusted-IsSound :
      {Raw : Type 0} (p : ℕ) (trusted : List (Text × List ℕ)) (s : SyncedRouteInfo Raw)
      → AllGenuine p trusted
      → IsSound s
      → IsSound (store_trusted mac p trusted s)
  unfolding store_trusted
  store_trusted-IsSound p [] s good (all, cache) = (
    (λ q groups e. elim (Bool-cases (q == p)) [
      | inl a ↦
          let f : none ≡ some groups =
            rw a at (sym (lookup-delete_num p q s.group_trust_map) ∙ e) in
          cc f
      | inr a ↦ all q groups (rw a at (sym (lookup-delete_num p q s.group_trust_map) ∙ e))
    ]),
    (λ q.
        lookup-delete_num p q s.group_trust_map_cache
        ∙ (elim (Bool-cases (q == p)) [ inl a ↦ rw a refl | inr a ↦ rw a (cache q) ])
        ∙ ap (option_map (keys mac)) (sym (lookup-delete_num p q s.group_trust_map))),
  )
  store_trusted-IsSound p (g ∷ gs) s good (all, cache) = (
    (λ q groups e.
        let f = sym (lookup-insert_num p q (g ∷ gs) s.group_trust_map) ∙ e in
        elim (Bool-cases (q == p)) [
          | inl a ↦
              let h : some (g ∷ gs) ≡ some groups = rw a at f in
              let k : g ∷ gs ≡ groups = cc h in
              subst (λ x. AllGenuine x groups) (sym ((==_iff q p).0 a))
                (subst (AllGenuine p) k good)
          | inr a ↦ all q groups (rw a at f)
        ]),
    (λ q.
        lookup-insert_num p q (keys mac (g ∷ gs)) s.group_trust_map_cache
        ∙ (elim (Bool-cases (q == p)) [ inl a ↦ rw a refl | inr a ↦ rw a (cache q) ])
        ∙ ap (option_map (keys mac)) (sym (lookup-insert_num p q (g ∷ gs) s.group_trust_map))),
  )

  trust_peer-IsSound :
      {Raw : Type 0} (old : Option (List (Text × List ℕ))) (p : ℕ) (trusted : List (Text × List ℕ))
      (s : SyncedRouteInfo Raw)
      → AllGenuine p trusted
      → IsSound s
      → IsSound (trust_peer mac old p trusted s)
  unfolding trust_peer
  trust_peer-IsSound none p [] s good sound = sound
  trust_peer-IsSound none p (g ∷ gs) s good sound = store_trusted-IsSound p (g ∷ gs) s good sound
  trust_peer-IsSound (some old) p trusted s good sound =
      store_trusted-IsSound p trusted s good sound

  nothing :
      (p : ℕ) (name : Text) (proof : List ℕ)
      → lookup same_text name [] ≡ some proof
      → IsGenuine p name proof
  unfolding lookup
  nothing p name proof e = cc e

  trust_peers-IsSound :
      {Raw : Type 0} (declared : List (Text × Text)) (infos : List RoutePeerInfo)
      (s : SyncedRouteInfo Raw)
      → AllDeclared declared
      → IsSound s
      → IsSound (trust_peers mac declared infos s)
  unfolding trust_peers
  trust_peers-IsSound declared [] s d sound = sound
  trust_peers-IsSound declared (info ∷ infos) s d sound =
      let old = lookup ◌==◌ info.peer_id s.group_trust_map in
      let now = verify_groups mac declared old info.peer_id info.groups [] in
      trust_peers-IsSound declared infos (trust_peer mac old info.peer_id now s) d (
        trust_peer-IsSound old info.peer_id now s
          (verify_groups-AllGenuine declared old info.peer_id info.groups [] d
            (sound.0 info.peer_id) (nothing info.peer_id))
          sound)

  no_secrets : AllDeclared []
  unfolding AllDeclared lookup
  no_secrets name secret e = cc e

  -- When every group that is trusted is so by a proof that verifies under some declared secret of the
  -- group, for this peer, and the cache has the names of the trusted groups, this is so again after
  -- `verify_and_update_group_trusts` with any infos and local declarations, the declared secrets being
  -- those before and the local ones.
  pub verify_and_update_group_trusts-IsSound :
      {Raw : Type 0} (infos : List RoutePeerInfo) (local_group_declarations : List GroupIdentity)
      (s : SyncedRouteInfo Raw)
      → ((g : GroupIdentity) → In g local_group_declarations → Declared g.group_name g.group_secret)
      → IsSound s
      → IsSound (verify_and_update_group_trusts mac infos local_group_declarations s)
  unfolding verify_and_update_group_trusts
  verify_and_update_group_trusts-IsSound infos gs s d sound =
      trust_peers-IsSound (secrets gs []) infos s (secrets-Declared gs [] d no_secrets) sound
