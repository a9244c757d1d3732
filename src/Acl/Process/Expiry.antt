-- ===== src/Acl/Process/Expiry.antt =====
-- common/acl_processor.rs: connections that have not been seen for a while are forgotten.
use peer_link.Common.{
  ℕ, ◌⊎◌, inl, inr, Bool-cases, leb, arith, ◌≤◌, ◌<◌, ◌+◌, ◌-◌, ◌%◌, ◌^◌, ◌≡◌, ◌∙◌, refl, sym, ap,
  Bool, true, false, List, [], ◌∷◌, Option, none, some, ltb, if◌then◌else◌, ==_iff, ==_refl, ◌&&◌,
  ◌||◌,
}
use peer_link.Common.Tables.{lookup-delete}
use peer_link.Acl.{IpAddr, v4, v6, same_addr}
use peer_link.Acl.Process.{ConnKey, ConnTrackEntry, lookup, delete, same_conn}

-- `current_time - last_seen > timeout_secs`, with the wrap-around of `u64`, as in a build without overflow
-- checks: an entry seen after the present time has an age of almost 2 ^ 64.
abbrev pub is_expired : (timeout now : ℕ) → ConnTrackEntry → Bool
is_expired timeout now entry = ltb timeout ((now + 2 ^ 64 - entry.last_seen) % 2 ^ 64)

unfoldable pub keys_to_remove : (timeout now : ℕ) → List (ConnKey × ConnTrackEntry) → List ConnKey
keys_to_remove timeout now [] = []
keys_to_remove timeout now ((k, e) ∷ rest) =
    if is_expired timeout now e
    then k ∷ keys_to_remove timeout now rest
    else keys_to_remove timeout now rest

unfoldable pub delete_keys :
    List ConnKey → List (ConnKey × ConnTrackEntry) → List (ConnKey × ConnTrackEntry)
delete_keys [] t = t
delete_keys (k ∷ ks) t = delete_keys ks (delete same_conn k t)

unfoldable pub cleanup_expired_connections :
    ℕ → ℕ → List (ConnKey × ConnTrackEntry) → List (ConnKey × ConnTrackEntry)
unfolding keys_to_remove delete_keys
cleanup_expired_connections now timeout t = delete_keys (keys_to_remove timeout now t) t

same_addr-≡ : (a b : IpAddr) → same_addr a b ≡ true → a ≡ b
same_addr-≡ (v4 x) (v4 y) e = ap v4 ((==_iff x y).0 e)
same_addr-≡ (v6 x) (v6 y) e = ap v6 ((==_iff x y).0 e)
same_addr-≡ (v4 x) (v6 y) e = cc e
same_addr-≡ (v6 x) (v4 y) e = cc e

same_addr_refl : (a : IpAddr) → same_addr a a ≡ true
same_addr_refl (v4 x) = ==_refl x
same_addr_refl (v6 x) = ==_refl x

same_conn_refl : (a : ConnKey) → same_conn a a ≡ true
same_conn_refl a =
    rw (same_addr_refl a.src_ip, ==_refl a.src_port, same_addr_refl a.dst_ip, ==_refl a.dst_port)
      refl

and_left : (a b : Bool) → a && b ≡ true → (a ≡ true) × (b ≡ true)
and_left true b e = (refl, e)
and_left false b e = cc e

same_conn-≡ : (a b : ConnKey) → same_conn a b ≡ true → a ≡ b
same_conn-≡ a b e =
    let (f1, e4) = and_left _ _ e in
    let (f2, e3) = and_left _ _ f1 in
    let (e1, e2) = and_left _ _ f2 in
    ap (λ x. record a { src_ip = x }) (same_addr-≡ a.src_ip b.src_ip e1)
    ∙ ap (λ x. record a { src_ip = b.src_ip; src_port = x }) ((==_iff a.src_port b.src_port).0 e2)
    ∙ ap (λ x. record b { dst_ip = x; dst_port = a.dst_port }) (same_addr-≡ a.dst_ip b.dst_ip e3)
    ∙ ap (λ x. record b { dst_port = x }) ((==_iff a.dst_port b.dst_port).0 e4)

abbrev pub Connections : Type 0
Connections = List (ConnKey × ConnTrackEntry)

-- No key stands twice, as in a map.
abbrev pub IsDistinct : Connections → Type 0
IsDistinct [] = Unit {0}
IsDistinct ((k, e) ∷ rest) = (lookup same_conn k rest ≡ none) × IsDistinct rest

-- An entry that is not expired.
abbrev pub unexpired : (timeout now : ℕ) → Option ConnTrackEntry → Option ConnTrackEntry
unexpired timeout now none = none
unexpired timeout now (some e) = if is_expired timeout now e then none else some e

abbrev has_key : {K : Type 0} → (K → K → Bool) → K → List K → Bool
has_key same k [] = false
has_key same k (j ∷ js) = same k j || has_key same k js

if_or :
    {A : Type 0} (a b : Bool) (found : Option A)
    → (if a then none else if b then none else found) ≡ (if b || a then none else found)
if_or true true found = refl
if_or true false found = refl
if_or false true found = refl
if_or false false found = refl

lookup-delete_keys :
    (k : ConnKey) (ks : List ConnKey) (t : Connections)
    → lookup same_conn k (delete_keys ks t)
      ≡ (if has_key same_conn k ks then none else lookup same_conn k t)
unfolding delete_keys
lookup-delete_keys k [] t = refl
lookup-delete_keys k (j ∷ js) t =
    lookup-delete_keys k js (delete same_conn j t)
    ∙ ap (λ x. if has_key same_conn k js then none else x)
        (lookup-delete same_conn same_conn_refl same_conn-≡ j k t)
    ∙ if_or (has_key same_conn k js) (same_conn k j) (lookup same_conn k t)

-- Whether an entry is there, and expired.
abbrev is_old : (timeout now : ℕ) → Option ConnTrackEntry → Bool
is_old timeout now none = false
is_old timeout now (some e) = is_expired timeout now e

module _ (timeout now : ℕ) where
  has_key-if :
      (b : Bool) (k l : ConnKey) (js : List ConnKey)
      → has_key same_conn k (if b then l ∷ js else js)
        ≡ (if b then same_conn k l || has_key same_conn k js else has_key same_conn k js)
  has_key-if true k l js = refl
  has_key-if false k l js = refl

  is_old-if :
      (b : Bool) (e : ConnTrackEntry) (found : Option ConnTrackEntry)
      → is_old timeout now (if b then some e else found)
        ≡ (if b then is_expired timeout now e else is_old timeout now found)
  is_old-if true e found = refl
  is_old-if false e found = refl

  head_case :
      (same old has found : Bool)
      → (same ≡ true → found ≡ false)
      → has ≡ found
      → (if old then same || has else has) ≡ (if same then old else found)
  head_case true true has found f e = refl
  head_case true false has found f e = e ∙ f refl
  head_case false true has found f e = e
  head_case false false has found f e = e

  has_key-keys_to_remove :
      (k : ConnKey) (t : Connections)
      → IsDistinct t
      → has_key same_conn k (keys_to_remove timeout now t)
        ≡ is_old timeout now (lookup same_conn k t)
  unfolding keys_to_remove lookup
  has_key-keys_to_remove k [] d = refl
  has_key-keys_to_remove k ((l, e) ∷ rest) d =
      has_key-if (is_expired timeout now e) k l (keys_to_remove timeout now rest)
      ∙ head_case (same_conn k l) (is_expired timeout now e) _ _
          (λ same.
            ap (is_old timeout now)
              (ap (λ x. lookup same_conn x rest) (same_conn-≡ k l same) ∙ d.0))
          (has_key-keys_to_remove k rest d.1)
      ∙ sym (is_old-if (same_conn k l) e (lookup same_conn k rest))

  lookup-cleanup_expired_connections :
      (t : Connections) (k : ConnKey)
      → IsDistinct t
      → lookup same_conn k (cleanup_expired_connections now timeout t)
        ≡ unexpired timeout now (lookup same_conn k t)
  unfolding cleanup_expired_connections
  lookup-cleanup_expired_connections t k d =
      lookup-delete_keys k (keys_to_remove timeout now t) t
      ∙ ap (λ b. if b then none else lookup same_conn k t) (has_key-keys_to_remove k t d)
      ∙ old_or_not (lookup same_conn k t)
    where
      old_or_not :
          (found : Option ConnTrackEntry)
          → (if is_old timeout now found then none else found) ≡ unexpired timeout now found
      old_or_not none = refl
      old_or_not (some e) = refl

-- Seen within the timeout; an entry that was seen later than now has an age that wraps around.
abbrev pub IsRecent : (timeout now : ℕ) → ConnTrackEntry → Type 0
IsRecent timeout now e =
    ((e.last_seen ≤ now) × (now ≤ e.last_seen + timeout))
    ⊎ ((now < e.last_seen) × (now + 2 ^ 64 ≤ e.last_seen + timeout))

is_expired-IsRecent :
    (timeout now : ℕ) (e : ConnTrackEntry)
    → now < 2 ^ 64
    → e.last_seen < 2 ^ 64
    → ((is_expired timeout now e ≡ false) × IsRecent timeout now e)
      ⊎ ((is_expired timeout now e ≡ true) × ¬ IsRecent timeout now e)
is_expired-IsRecent timeout now e small seen = elim (Bool-cases (is_expired timeout now e)) [
  | inr fresh ↦ inl (
    fresh,
    elim (Bool-cases (leb e.last_seen now)) [
      | inl past ↦ inl (ground arith, ground (arith, fresh))
      | inr ahead ↦ inr (ground arith, ground (arith, fresh))
    ],
  )
  | inl old ↦ inr (
    old,
    λ recent. elim recent [
      | inl (past, near) ↦ ground (arith, old)
      | inr (ahead, near) ↦ ground (arith, old)
    ],
  )
]

-- What is left of an entry: it stays if it is recent, and is gone otherwise.
abbrev pub IsLeft : (timeout now : ℕ) (before after : Option ConnTrackEntry) → Type 0
IsLeft timeout now none after = after ≡ none
IsLeft timeout now (some e) after =
    (IsRecent timeout now e × (after ≡ some e)) ⊎ ((¬ IsRecent timeout now e) × (after ≡ none))

-- After the clean-up of connections at a time, from a table in which no key stands twice, a
-- connection is found as before if it was last seen at most the timeout ago, and is not found
-- otherwise; one that was last seen after that time counts as seen 2 ^ 64 seconds earlier. Times
-- are less than 2 ^ 64.
pub cleanup_expired_connections_lem :
    (timeout now : ℕ) (t : Connections) (k : ConnKey)
    → IsDistinct t
    → now < 2 ^ 64
    → ((e : ConnTrackEntry) → lookup same_conn k t ≡ some e → e.last_seen < 2 ^ 64)
    → IsLeft timeout now
        (lookup same_conn k t)
        (lookup same_conn k (cleanup_expired_connections now timeout t))
cleanup_expired_connections_lem timeout now t k d small seen = by_found (lookup same_conn k t) refl
  where
    by_found :
        (found : Option ConnTrackEntry)
        → lookup same_conn k t ≡ found
        → IsLeft timeout now found (lookup same_conn k (cleanup_expired_connections now timeout t))
    by_found none e =
        lookup-cleanup_expired_connections timeout now t k d ∙ ap (unexpired timeout now) e
    by_found (some x) e =
        let left =
          lookup-cleanup_expired_connections timeout now t k d ∙ ap (unexpired timeout now) e in
        elim (is_expired-IsRecent timeout now x small (seen x e)) [
          | inl (fresh, recent) ↦ inl (recent, left ∙ (rw fresh refl))
          | inr (old, not_recent) ↦ inr (not_recent, left ∙ (rw old refl))
        ]
