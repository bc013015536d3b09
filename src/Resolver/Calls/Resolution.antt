-- ===== src/Resolver/Calls/Resolution.antt =====
-- The conclusion about one call site: `CallResolution` of src/codekg/resolver.py.
use my_kg_codebase.Prelude.{Bool, true, false, ◌&&◌, Option, none, some, List, [], ◌∷◌, is_some}
use my_kg_codebase.Prelude.Text.{Text}
use my_kg_codebase.Ir.{CallIr}

-- The texts that the source gives as a status.
pub data Status : Type 0 where
  owner_unresolved owner_ambiguous unresolved ambiguous external dynamic mro_incomplete : Status
  exact_local exact_import self_direct cls_direct inherited_method super_method : Status
  local_receiver local_receiver_inherited : Status
  constructor_exact_local constructor_exact_import constructor_ambiguous : Status

pub record CallResolution : Type 0 where
  pub call : CallIr
  pub path : Text
  pub owner_key : Option Text
  pub status : Status
  pub candidate_keys : List Text
  pub target_key : Option Text
  pub construction_target_key : Option Text
  pub initializer_candidate_keys : List Text
  pub initializer_target_key : Option Text
  pub initializer_status : Option Status

-- EXACT_RESOLUTION_STATUSES
unfoldable pub is_exact_status : Status → Bool
is_exact_status exact_local = true
is_exact_status exact_import = true
is_exact_status self_direct = true
is_exact_status cls_direct = true
is_exact_status inherited_method = true
is_exact_status super_method = true
is_exact_status local_receiver = true
is_exact_status local_receiver_inherited = true
is_exact_status _ = false

-- CONSTRUCTOR_RESOLUTION_STATUSES
unfoldable pub is_constructor_status : Status → Bool
is_constructor_status constructor_exact_local = true
is_constructor_status constructor_exact_import = true
is_constructor_status constructor_ambiguous = true
is_constructor_status _ = false

unfoldable pub is_construction_exact_status : Status → Bool
is_construction_exact_status constructor_exact_local = true
is_construction_exact_status constructor_exact_import = true
is_construction_exact_status _ = false

-- CallResolution.is_exact
unfoldable pub is_exact : CallResolution → Bool
unfolding is_exact_status
is_exact r = is_exact_status r.status && is_some r.target_key

-- CallResolution.is_constructor
unfoldable pub is_constructor : CallResolution → Bool
unfolding is_constructor_status
is_constructor r = is_constructor_status r.status

-- CallResolution.is_construction_exact
unfoldable pub is_construction_exact : CallResolution → Bool
unfolding is_construction_exact_status
is_construction_exact r = is_construction_exact_status r.status

-- CallResolution(call, path, owner_key, status, candidate_keys), the other fields by default.
abbrev pub concluded : CallIr → Text → Option Text → Status → List Text → CallResolution
concluded call path owner_key status candidate_keys = record {
  call = call;
  path = path;
  owner_key = owner_key;
  status = status;
  candidate_keys = candidate_keys;
  target_key = none;
  construction_target_key = none;
  initializer_candidate_keys = [];
  initializer_target_key = none;
  initializer_status = none;
}

-- The same with one candidate, which is the target.
abbrev pub targeted : CallIr → Text → Text → Status → Text → CallResolution
targeted call path owner_key status key =
    record (concluded call path (some owner_key) status (key ∷ [])) { target_key = some key }
