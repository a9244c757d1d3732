-- ===== src/Acl/Process/Tables.antt =====
-- common/acl_processor.rs: what the tables of the processor keep.
use peer_link.Common.{ℕ, List, [], ◌∷◌, Bool-cases, inl, inr, length, leb}
use peer_link.Acl.Process.{AclCacheKey, AclCacheEntry, delete, same_cache_key}
use peer_link.Acl.Process.Steps.{delete_all, cleanup_cache}
use peer_link.Common.Tables.{AllValues, AllValues-delete}

module _ (P : AclCacheEntry → Type 0) where
  AllValues-delete_all :
      (es : List (AclCacheKey × ℕ)) (t : List (AclCacheKey × AclCacheEntry))
      → AllValues P t
      → AllValues P (delete_all es t)
  unfolding delete_all
  AllValues-delete_all [] t a = a
  AllValues-delete_all (e ∷ es) t a =
      AllValues-delete_all es (delete same_cache_key e.0 t)
        (AllValues-delete same_cache_key P e.0 t a)

  pub AllValues-cleanup_cache :
      (t : List (AclCacheKey × AclCacheEntry)) (max_size : ℕ)
      → AllValues P t
      → AllValues P (cleanup_cache t max_size)
  unfolding cleanup_cache
  AllValues-cleanup_cache t max_size a = elim (Bool-cases (leb (length t) max_size)) [
    | inl e ↦ rw e a
    | inr e ↦ rw e (AllValues-delete_all _ t a)
  ]
