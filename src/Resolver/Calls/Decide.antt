-- ===== src/Resolver/Calls/Decide.antt =====
-- What a list of candidates decides, in the methods of `_Resolver` of src/codekg/resolver.py.
use my_kg_codebase.Prelude.{Bool, true, false, Option, none, some, List, [], ◌∷◌, map}
use my_kg_codebase.Prelude.Text.{Text}
use my_kg_codebase.Ir.{CallIr, ReceiverKind, bare, self, attribute}
use my_kg_codebase.Resolver.Refs.{SymbolRef}
use my_kg_codebase.Resolver.Calls.Resolution.{
  Status, unresolved, ambiguous, self_direct, cls_direct, CallResolution, concluded, targeted,
}

abbrev pub keys : List SymbolRef → List Text
keys refs = map (λ ref. ref.key) refs

-- What a list of methods of one type decides: one is the target, several are ambiguous.
abbrev pub decide : CallIr → Text → Text → Status → List SymbolRef → CallResolution
decide call path owner_key status [] = concluded call path (some owner_key) unresolved []
decide call path owner_key status (ref ∷ []) = targeted call path owner_key status ref.key
decide call path owner_key status (ref ∷ other ∷ refs) =
    concluded call path (some owner_key) ambiguous (keys (ref ∷ other ∷ refs))

-- The status of a method of the receiver's own class.
abbrev pub direct_status : ReceiverKind → Status
direct_status self = self_direct
direct_status _ = cls_direct

abbrev is_name : ReceiverKind → Bool
is_name ReceiverKind.name = true
is_name _ = false

abbrev pub builds : ReceiverKind → Bool
builds bare = true
builds kind = is_name kind

abbrev pub chained : ReceiverKind → Bool
chained ReceiverKind.dynamic = true
chained attribute = true
chained _ = false

-- An initializer's candidates, target and status.
pub record Initializer : Type 0 where
  pub candidates : List Text
  pub target : Option Text
  pub found : Option Status

abbrev pub no_initializer : Initializer
no_initializer = record { candidates = []; target = none; found = none }

-- One initializer is the target; several leave it open.
abbrev pub initializer_of : Status → List SymbolRef → Initializer
initializer_of status [] = no_initializer
initializer_of status (ref ∷ []) = record {
  candidates = ref.key ∷ [];
  target = some ref.key;
  found = some status;
}
initializer_of status (ref ∷ other ∷ refs) = record {
  candidates = keys (ref ∷ other ∷ refs);
  target = none;
  found = none;
}
