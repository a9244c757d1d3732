-- ===== src/Route/Table/NextHops.antt =====
-- peers/peer_ospf_route.rs: the next hops that a search puts into the route table.
use peer_link.Common.{
  ℕ, ◌≡◌, refl, sym, ap, ◌∙◌, inl, inr, false, List, [], ◌∷◌, Option, none, some, ◌==◌, ==_iff, ltb,
  if◌then◌else◌, Bool-cases, done, arith,
}
use peer_link.Common.Tables.{lookup}
use peer_link.Route.Graph.Heap.{In}
use peer_link.Route.Known.{lookup-insert_num}
use peer_link.Route.Table.{NextHopInfo, newer_hop, hop_info, put_next_hops}

-- What is left of an entry and a newer hop for it.
abbrev pub pick : (version : ℕ) → Option NextHopInfo → Option NextHopInfo → Option NextHopInfo
pick version old none = old
pick version none (some new) = some new
pick version (some old) (some new) = if ltb old.version version then some new else some old

abbrev pub hop_of : (version : ℕ) → Option ℕ → Option (ℕ × ℕ) → Option NextHopInfo
hop_of version none hop = none
hop_of version (some cost) none = none
hop_of version (some cost) (some hop) = some (hop_info version cost hop)

lookup-newer_hop :
    (found : Option NextHopInfo) (k dst : ℕ) (info : NextHopInfo) (t : List (ℕ × NextHopInfo))
    → lookup ◌==◌ dst t ≡ found
    → lookup ◌==◌ k (newer_hop found dst info t)
      ≡ (if k == dst then pick info.version found (some info) else lookup ◌==◌ k t)
unfolding newer_hop
lookup-newer_hop none k dst info t e = lookup-insert_num dst k info t
lookup-newer_hop (some x) k dst info t e = elim (Bool-cases (ltb x.version info.version)) [
  | inl l ↦ rw l (lookup-insert_num dst k info t)
  | inr l ↦ rw l (elim (Bool-cases (k == dst)) [
    | inl f ↦ rw f (ap (λ q. lookup ◌==◌ q t) ((==_iff k dst).0 f) ∙ e)
    | inr f ↦ rw f refl
  ])
]

-- A second hop of the same version changes nothing.
pick_same :
    (version : ℕ) (new : NextHopInfo) (old : Option NextHopInfo) (cost : Option ℕ)
    (hop : Option (ℕ × ℕ))
    → new.version ≡ version
    → pick version (pick version old (some new)) (hop_of version cost hop)
      ≡ pick version old (some new)
pick_same version new old none hop e = refl
pick_same version new old (some c) none e = refl
pick_same version new none (some c) (some h) e =
    let l : ltb new.version version ≡ false = ground (arith, e) in rw l refl
pick_same version new (some x) (some c) (some h) e = elim (Bool-cases (ltb x.version version)) [
  | inl l ↦ let k : ltb new.version version ≡ false = ground (arith, e) in rw l (rw k refl)
  | inr l ↦ rw l (rw l refl)
]

pub put_next_hops_lem :
    (version : ℕ) (costs : List (ℕ × ℕ)) (hops : List (ℕ × (ℕ × ℕ))) (t : List (ℕ × NextHopInfo))
    → ((k : ℕ) (hop : ℕ × ℕ) → In (k, hop) hops → (c : ℕ) × (lookup ◌==◌ k costs ≡ some c))
    → (t' : List (ℕ × NextHopInfo)) × (put_next_hops version costs hops t ≡ done t')
      × ((k : ℕ)
          → lookup ◌==◌ k t'
            ≡ pick version
                (lookup ◌==◌ k t)
                (hop_of version (lookup ◌==◌ k costs) (lookup ◌==◌ k hops)))
unfolding put_next_hops lookup
put_next_hops_lem version costs [] t all =
    (t, refl, λ k. none_left version (lookup ◌==◌ k t) (lookup ◌==◌ k costs))
  where
    none_left :
        (version : ℕ) (old : Option NextHopInfo) (cost : Option ℕ)
        → old ≡ pick version old (hop_of version cost none)
    none_left version old none = refl
    none_left version old (some c) = refl
put_next_hops_lem version costs ((dst, hop) ∷ rest) t all =
    let (c, e) = all dst hop (inl refl) in
    let new = hop_info version c hop in
    let t1 = newer_hop (lookup ◌==◌ dst t) dst new t in
    let (t', f, ih) = put_next_hops_lem version costs rest t1 (λ k h i. all k h (inr i)) in
    (
      t',
      (rw e f),
      λ k. ih k ∙ elim (Bool-cases (k == dst)) [
        | inl a ↦
            let q : k ≡ dst = (==_iff k dst).0 a in
            let g : lookup ◌==◌ k t1 ≡ pick version (lookup ◌==◌ k t) (some new) =
              lookup-newer_hop (lookup ◌==◌ dst t) k dst new t refl
              ∙ (rw a (ap (λ z. pick version (lookup ◌==◌ z t) (some new)) (sym q))) in
            let h : lookup ◌==◌ k costs ≡ some c = ap (λ z. lookup ◌==◌ z costs) q ∙ e in
            ap (λ z. pick version z (hop_of version (lookup ◌==◌ k costs) (lookup ◌==◌ k rest))) g
            ∙ pick_same version new (lookup ◌==◌ k t) (lookup ◌==◌ k costs) (lookup ◌==◌ k rest)
                refl
            ∙ (rw a
                (ap (λ z. pick version (lookup ◌==◌ k t) (hop_of version z (some hop))) (sym h)))
        | inr a ↦
            let g : lookup ◌==◌ k t1 ≡ lookup ◌==◌ k t =
              lookup-newer_hop (lookup ◌==◌ dst t) k dst new t refl ∙ (rw a refl) in
            rw a (
              ap (λ z. pick version z (hop_of version (lookup ◌==◌ k costs) (lookup ◌==◌ k rest)))
                g)
      ],
    )

-- A key that is in a table is found.
pub In-lookup :
    {V : Type 0} (k : ℕ) (v : V) (t : List (ℕ × V))
    → In (k, v) t
    → (w : V) × (lookup ◌==◌ k t ≡ some w)
unfolding lookup
In-lookup k v [] h = absurd h
In-lookup k v ((l, w) ∷ rest) h = elim (Bool-cases (k == l)) [
  | inl e ↦ (w, rw e refl)
  | inr e ↦ elim h [
    | inl q ↦ let f : k ≡ l = ap (λ z. z.0) q in cc (e, (==_iff k l).1 f)
    | inr i ↦ let (x, f) = In-lookup k v rest i in (x, rw e f)
  ]
]
