-- ===== src/SqlResolver/Transparent.antt =====
-- The cache of `resolve` in src/codekg/sql_resolver.py does not show, and stays bounded.
use my_kg_codebase.Prelude.{
  ◌≤◌, ◌≡◌, refl, sym, subst, List, [], ◌∷◌, map, length, arith, Option-cases, inl, inr,
}
use my_kg_codebase.Prelude.Lru.{
  find, put_last, HoldsFor, HoldsFor-find, HoldsFor-put_last, HoldsFor-trim, length-renewed-le,
  length-stored-le,
}
use my_kg_codebase.Ir.Sql.{SqlObjectRefIr}
use my_kg_codebase.SqlResolver.{SqlObject, SqlResolution, sql_cache_limit}
use my_kg_codebase.SqlResolver.Lookup.{resolve_uncached}
use my_kg_codebase.SqlResolver.CacheKey.{
  CacheKey, cache_key, same_key, same_key_sound, keyed_as_same,
}
use my_kg_codebase.SqlResolver.Cached.{SqlCache, with_ref, resolve, with_ref-resolve_uncached}

-- One call after the other.
unfoldable pub resolve_sequence :
    List SqlObject → List SqlObjectRefIr → SqlCache → List SqlResolution × SqlCache
unfolding resolve
resolve_sequence registry [] cache = ([], cache)
resolve_sequence registry (ref ∷ refs) cache =
    let (res, cache') = resolve registry ref cache in
    let (results, cache'') = resolve_sequence registry refs cache' in (res ∷ results, cache'')

module _ (registry : List SqlObject) where
  -- What is stored is the conclusion for every reference with that key.
  abbrev IsRight : CacheKey → SqlResolution → Type 0
  IsRight k res =
      (ref : SqlObjectRefIr) → cache_key ref ≡ k → with_ref ref res ≡ resolve_uncached registry ref

  uncached-IsRight :
      (ref : SqlObjectRefIr) → IsRight (cache_key ref) (resolve_uncached registry ref)
  uncached-IsRight ref other e =
      subst (λ o. with_ref o (resolve_uncached registry ref) ≡ resolve_uncached registry o)
        (keyed_as_same ref other (sym e)) (with_ref-resolve_uncached registry ref other)

  -- Right, and not above the limit.
  abbrev IsSound : SqlCache → Type 0
  IsSound cache = HoldsFor IsRight cache × (length cache ≤ sql_cache_limit)

  resolve-Right :
      (ref : SqlObjectRefIr) (cache : SqlCache)
      → IsSound cache
      → ((resolve registry ref cache).0 ≡ resolve_uncached registry ref)
        × IsSound (resolve registry ref cache).1
  unfolding resolve
  resolve-Right ref cache (right, short) =
      let k = cache_key ref in
      let result = resolve_uncached registry ref in
      elim (Option-cases (find same_key k cache)) [
        | inl e ↦
            rw (e, resolve)
              (
                refl,
                (
                  HoldsFor-trim same_key IsRight sql_cache_limit (put_last same_key k result cache)
                      (HoldsFor-put_last same_key IsRight k result cache right
                        (uncached-IsRight ref)),
                  length-stored-le same_key sql_cache_limit k result cache short,
                ),
              )
        | inr (cached, e) ↦
            let known = HoldsFor-find same_key IsRight same_key_sound k cached cache right e in
            rw (e, resolve)
              (
                known ref refl,
                (
                  HoldsFor-put_last same_key IsRight k cached cache right known,
                  omega (arith, short, length-renewed-le same_key k cached cache e),
                ),
              )
      ]

  sequence-Right :
      (refs : List SqlObjectRefIr) (cache : SqlCache)
      → IsSound cache
      → ((resolve_sequence registry refs cache).0 ≡ map (resolve_uncached registry) refs)
        × (length (resolve_sequence registry refs cache).1 ≤ sql_cache_limit)
  unfolding resolve_sequence
  sequence-Right [] cache (right, short) = (refl, short)
  sequence-Right (ref ∷ refs) cache sound =
      let (same, sound') = resolve-Right ref cache sound in
      let (others, short) = sequence-Right refs (resolve registry ref cache).1 sound' in
      (cc (same, others), short)

-- For every registry and every sequence of references, resolved one after the other from an empty
-- cache: each gets the conclusion that it would get without the cache, and the cache never holds
-- more than 4096 conclusions at the end.
pub resolve_sequence-uncached :
    (registry : List SqlObject) (refs : List SqlObjectRefIr)
    → ((resolve_sequence registry refs []).0 ≡ map (resolve_uncached registry) refs)
      × (length (resolve_sequence registry refs []).1 ≤ sql_cache_limit)
resolve_sequence-uncached registry refs =
    sequence-Right registry refs [] (tt, unfold sql_cache_limit in omega arith)
