-- ===== src/Route/Session/Saved.antt =====
-- peers/peer_ospf_route.rs: what a session has saved, and that it only grows.
use peer_link.Common.{
  ℕ, ◌≤◌, ◌≡◌, refl, sym, ap, ap₂, ◌∙◌, inl, inr, Bool, true, false, List, [], ◌∷◌, some, ◌==◌,
  ==_iff, ==_refl, leb, ltb, Bool-cases, Option-cases, done, arith,
}
use peer_link.Common.Tables.{
  same_text, lookup, lookup-insert, AllOf, same_text_refl, same_text-≡, and-true,
}
use peer_link.Route.{
  RoutePeerInfo, ForeignNetworkRouteInfoKey, ForeignNetworkRouteInfoEntry, ForeignNetworkInfo,
  same_network, set_if_larger,
}
use peer_link.Route.Synced.{unwrap_or, option_map}
use peer_link.Route.Session.{save_version, save_infos, save_peers, save_networks}

-- The version of the key, or a later one, is saved.
abbrev pub IsSaved : {K : Type 0} → (K → K → Bool) → K → ℕ → List (K × ℕ) → Type 0
IsSaved same k v t = (w : ℕ) × (lookup same k t ≡ some w) × (v ≤ w)

set_if_larger-≤ : (old v : ℕ) → (old ≤ (set_if_larger old v).0) × (v ≤ (set_if_larger old v).0)
unfolding set_if_larger
set_if_larger-≤ old v = elim (Bool-cases (ltb old v)) [
  | inl e ↦ rw e (ground arith, ground arith)
  | inr e ↦ rw e (ground arith, ground arith)
]

pub IsSaved-leb :
    {K : Type 0} (same : K → K → Bool) (k : K) (v : ℕ) (t : List (K × ℕ))
    → IsSaved same k v t
    → unwrap_or false (option_map (leb v) (lookup same k t)) ≡ true
IsSaved-leb same k v t (w, e, l) = rw e (ground (arith, l))

pub leb-IsSaved :
    {K : Type 0} (same : K → K → Bool) (k : K) (v : ℕ) (t : List (K × ℕ))
    → unwrap_or false (option_map (leb v) (lookup same k t)) ≡ true
    → IsSaved same k v t
leb-IsSaved same k v t h = elim (Option-cases (lookup same k t)) [
  | inl e ↦ cc (rw e at h)
  | inr (w, e) ↦ let g : leb v w ≡ true = rw e at h in (w, e, ground (arith, g))
]

module _ {K : Type 0} (same : K → K → Bool) (same_refl : (k : K) → same k k ≡ true)
    (same-≡ : (j k : K) → same j k ≡ true → j ≡ k) where
  pub IsSaved-self : (k : K) (v : ℕ) (t : List (K × ℕ)) → IsSaved same k v (save_version same k v t)
  unfolding save_version
  IsSaved-self k v t = (
    _,
    lookup-insert same same_refl same-≡ k k _ t ∙ (rw (same_refl k) refl),
    (set_if_larger-≤ (unwrap_or 0 (lookup same k t)) v).1,
  )

  pub IsSaved-save_version :
      (j k : K) (u v : ℕ) (t : List (K × ℕ))
      → IsSaved same j u t
      → IsSaved same j u (save_version same k v t)
  unfolding save_version
  IsSaved-save_version j k u v t (w, e, l) = elim (Bool-cases (same j k)) [
    | inl a ↦
        let f : unwrap_or 0 (lookup same k t) ≡ w =
          ap (λ x. unwrap_or 0 (lookup same x t)) (sym (same-≡ j k a)) ∙ ap (unwrap_or 0) e in
        let g = (set_if_larger-≤ (unwrap_or 0 (lookup same k t)) v).0 in
        let n = (set_if_larger (unwrap_or 0 (lookup same k t)) v).0 in
        (n, lookup-insert same same_refl same-≡ k j n t ∙ (rw a refl), omega (arith, l, f, g))
    | inr a ↦
        let n = (set_if_larger (unwrap_or 0 (lookup same k t)) v).0 in
        (w, lookup-insert same same_refl same-≡ k j n t ∙ (rw a e), l)
  ]

num_≡ : (j k : ℕ) → (j == k) ≡ true → j ≡ k
num_≡ j k = (==_iff j k).0

pub IsSaved-save_infos :
    (j u : ℕ) (infos : List RoutePeerInfo) (t : List (ℕ × ℕ))
    → IsSaved ◌==◌ j u t
    → IsSaved ◌==◌ j u (save_infos infos t)
unfolding save_infos
IsSaved-save_infos j u [] t h = h
IsSaved-save_infos j u (i ∷ is) t h =
    IsSaved-save_infos j u is (save_version ◌==◌ i.peer_id i.version t)
      (IsSaved-save_version ◌==◌ ==_refl num_≡ j i.peer_id u i.version t h)

-- Everything that is recorded is saved.
pub save_infos-IsSaved :
    (infos : List RoutePeerInfo) (t : List (ℕ × ℕ))
    → AllOf (λ i. IsSaved ◌==◌ i.peer_id i.version (save_infos infos t)) infos
unfolding save_infos
save_infos-IsSaved [] t = tt
save_infos-IsSaved (i ∷ is) t =
    let t' = save_version ◌==◌ i.peer_id i.version t in
    (
      IsSaved-save_infos i.peer_id i.version is t'
          (IsSaved-self ◌==◌ ==_refl num_≡ i.peer_id i.version t),
      save_infos-IsSaved is t',
    )

pub IsSaved-save_peers :
    (j u : ℕ) (peers : List (ℕ × ℕ)) (t : List (ℕ × ℕ))
    → IsSaved ◌==◌ j u t
    → IsSaved ◌==◌ j u (save_peers peers t)
unfolding save_peers
IsSaved-save_peers j u [] t h = h
IsSaved-save_peers j u ((p, v) ∷ rest) t h =
    IsSaved-save_peers j u rest (save_version ◌==◌ p v t)
      (IsSaved-save_version ◌==◌ ==_refl num_≡ j p u v t h)

pub save_peers-IsSaved :
    (peers : List (ℕ × ℕ)) (t : List (ℕ × ℕ))
    → AllOf (λ x. IsSaved ◌==◌ x.0 x.1 (save_peers peers t)) peers
unfolding save_peers
save_peers-IsSaved [] t = tt
save_peers-IsSaved ((p, v) ∷ rest) t = (
  IsSaved-save_peers p v rest (save_version ◌==◌ p v t) (IsSaved-self ◌==◌ ==_refl num_≡ p v t),
  save_peers-IsSaved rest (save_version ◌==◌ p v t),
)

pub same_network_refl : (k : ForeignNetworkRouteInfoKey) → same_network k k ≡ true
same_network_refl k = rw (==_refl k.peer_id) (same_text_refl k.network_name)

pub same_network-≡ : (j k : ForeignNetworkRouteInfoKey) → same_network j k ≡ true → j ≡ k
same_network-≡ j k h =
    let (a, b) = and-true (j.peer_id == k.peer_id) (same_text j.network_name k.network_name) h in
    ap₂ (λ p n. record { peer_id = p; network_name = n }) ((==_iff j.peer_id k.peer_id).0 a)
      (same_text-≡ j.network_name k.network_name b)

-- The network has its key and its value, and this version of it, or a later one, is saved.
abbrev pub IsSavedNetwork : List (ForeignNetworkRouteInfoKey × ℕ) → ForeignNetworkInfo → Type 0
IsSavedNetwork t item =
    (key : ForeignNetworkRouteInfoKey) × (entry : ForeignNetworkRouteInfoEntry) × (item.key
      ≡ some key)
    × (item.value ≡ some entry)
    × IsSaved same_network key entry.version t

abbrev pub IsWhole : ForeignNetworkInfo → Type 0
IsWhole item =
    (key : ForeignNetworkRouteInfoKey) × (entry : ForeignNetworkRouteInfoEntry) × (item.key
      ≡ some key)
    × (item.value ≡ some entry)

-- Networks that have their keys and values are recorded without a panic, and nothing is forgotten.
pub save_networks-IsSaved :
    (items : List ForeignNetworkInfo) (t : List (ForeignNetworkRouteInfoKey × ℕ))
    → AllOf IsWhole items
    → (t' : List (ForeignNetworkRouteInfoKey × ℕ)) × (save_networks items t ≡ done t')
      × ((j : ForeignNetworkRouteInfoKey) (u : ℕ)
          → IsSaved same_network j u t
          → IsSaved same_network j u t')
      × AllOf (IsSavedNetwork t') items
unfolding save_networks
save_networks-IsSaved [] t h = (t, refl, (λ j u a. a), tt)
save_networks-IsSaved (item ∷ items) t ((key, entry, ek, ev), h) =
    let t1 = save_version same_network key entry.version t in
    let (t', e, keeps, all) = save_networks-IsSaved items t1 h in
    (
      t',
      (rw ek (rw ev e)),
      (λ j u a. keeps j u (
          IsSaved-save_version same_network same_network_refl same_network-≡ j key u entry.version t
            a)),
      (
        (
          key,
          entry,
          ek,
          ev,
          keeps key entry.version
              (IsSaved-self same_network same_network_refl same_network-≡ key entry.version t),
        ),
        all,
      ),
    )
