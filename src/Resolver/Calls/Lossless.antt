-- ===== src/Resolver/Calls/Lossless.antt =====
-- Every call site of every file gets one conclusion, in source order.
use my_kg_codebase.Prelude.{
  suc, ◌≡◌, refl, ◌∙◌, Option, some, List, [], ◌∷◌, ◌++◌, map, length, Option-cases, inl, inr,
  map-append,
}
use my_kg_codebase.Prelude.Text.{Text}
use my_kg_codebase.Ir.{CallIr, FileIr}
use my_kg_codebase.Resolver.Refs.{flat_map}
use my_kg_codebase.Resolver.Mro.{MroCache, bind_run}
use my_kg_codebase.Resolver.Mro.Total.{Ends, Lists, mro_total}
use my_kg_codebase.Resolver.Calls.Resolution.{CallResolution}
use my_kg_codebase.Resolver.Calls.Candidates.{Resolver}
use my_kg_codebase.Resolver.Calls.Methods.{mro_of}
use my_kg_codebase.Resolver.Calls.{resolve, resolve_calls, resolve_files}
use my_kg_codebase.Resolver.Calls.Coherent.{resolve-IsCoherent}
use my_kg_codebase.Resolver.Calls.Total.{resolve-Ends}

-- The place of a conclusion, and the places of the calls of a file.
abbrev pub site : CallResolution → Text × CallIr
site res = (res.path, res.call)

abbrev pub sites : FileIr → List CallIr → List (Text × CallIr)
sites file calls = map (λ call. (file.path, call)) calls

-- A run that has ended, with one conclusion for each place.
abbrev pub Covers : List (Text × CallIr) → Option (List CallResolution × MroCache) → Type 0
Covers places run =
    (rs : List CallResolution) × (c : MroCache) × (run ≡ some (rs, c)) × (map site rs ≡ places)

module _ (r : Resolver) (ends : (t : Text) (c : MroCache) → Ends (mro_of r t c)) where
  resolve_calls-Covers :
      (file : FileIr) (calls : List CallIr) (cache : MroCache)
      → Covers (sites file calls) (resolve_calls r file calls cache)
  unfolding resolve_calls
  resolve_calls-Covers file [] cache = ([], cache, refl, refl)
  resolve_calls-Covers file (call ∷ calls) cache = elim (Option-cases (resolve r file call cache)) [
    | inl e ↦ absurd (resolve-Ends r ends file call cache e)
    | inr ((res, c), e) ↦
        let (rs, c', k, covered) = resolve_calls-Covers file calls c in
        let fits = resolve-IsCoherent r file call cache c res e in
        (
          res ∷ rs,
          c',
          bind_run (resolve r file call) _ cache c res e
              ∙ bind_run (resolve_calls r file calls) _ c c' rs k,
          cc (fits.about_call, fits.in_file, covered),
        )
  ]

  resolve_files-Covers :
      (files : List FileIr) (cache : MroCache)
      → Covers (flat_map (λ f. sites f f.calls) files) (resolve_files r files cache)
  unfolding resolve_files
  resolve_files-Covers [] cache = ([], cache, refl, refl)
  resolve_files-Covers (file ∷ files) cache =
      let (rs, c, e, covered) = resolve_calls-Covers file file.calls cache in
      let (rs', c', e', covered') = resolve_files-Covers files c in
      (
        rs ++ rs',
        c',
        bind_run (resolve_calls r file file.calls) _ cache c rs e
            ∙ bind_run (resolve_files r files) _ c c' rs' e',
        map-append site rs rs' ∙ cc (covered, covered'),
      )

-- For every repository, cache and index whose declared types are listed: with a depth of one more
-- than their number the resolution of all files ends, and gives exactly one conclusion for each
-- call site, in the order of the files and of the calls in each.
pub resolve_files_total :
    (r : Resolver) (declared : List Text) (files : List FileIr) (cache : MroCache)
    → Lists r.index declared
    → r.depth ≡ suc (length declared)
    → Covers (flat_map (λ f. sites f f.calls) files) (resolve_files r files cache)
resolve_files_total r declared files cache all deep =
    resolve_files-Covers r (λ t c. rw deep (mro_total r.index declared all t c)) files cache
