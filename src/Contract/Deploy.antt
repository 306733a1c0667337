-- ===== src/Contract/Deploy.antt =====
-- `DeployParam` and `build_deploy_call` of src/contract.rs.
use qcore_rs.Prelude.{
  ℕ, ◌/◌, ◌%◌, ◌^◌, ◌<◌, ◌≡◌, refl, sym, ◌∙◌, List, [], ◌∷◌, ◌++◌, length, Bytes, codes, arith,
}
use qcore_rs.Contract.Word.{be_bytes, length-be_bytes, be_bytes-injective}
use qcore_rs.Contract.Message.Values.{split}

abbrev pub deploy_params_tag : Bytes
deploy_params_tag = codes "QDEPLOY2"

abbrev pub genesis_param_sentinel : Bytes
genesis_param_sentinel = codes "QGENSNTL"

pub data DeployParam : Type 0 where
  address : Bytes → DeployParam
  u64 u128 : ℕ → DeployParam
  guardians : List Bytes → DeployParam

-- the loop over the guardians
unfoldable pub all_bytes : List Bytes → Bytes
all_bytes [] = []
all_bytes (g ∷ rest) = g ++ all_bytes rest

-- `DeployParam::bytes`
unfoldable pub param_bytes : DeployParam → Bytes
unfolding all_bytes be_bytes
param_bytes (DeployParam.address a) = a
param_bytes (DeployParam.u64 v) = be_bytes 8 v
param_bytes (DeployParam.u128 v) = be_bytes 8 (v % 2 ^ 64) ++ be_bytes 8 (v / 2 ^ 64 % 2 ^ 64)
param_bytes (DeployParam.guardians gs) = all_bytes gs

unfoldable pub params_bytes : List DeployParam → Bytes
unfolding param_bytes
params_bytes [] = []
params_bytes (p ∷ rest) = param_bytes p ++ params_bytes rest

-- the region, with its sentinel where there are parameters
unfoldable pub params_region : List DeployParam → Bytes
unfolding params_bytes
params_region [] = []
params_region (p ∷ rest) = params_bytes (p ∷ rest) ++ genesis_param_sentinel

unfoldable pub build_deploy_call : Bytes → List DeployParam → Bytes
unfolding params_region
build_deploy_call container params =
    deploy_params_tag
    ++ (be_bytes 4 (length container % 2 ^ 32) ++ (container ++ params_region params))

-- The container and the parameter region are read back from a deploy call: two calls whose
-- containers are shorter than 4 GiB are equal only for equal containers and regions.
pub build_deploy_call-injective :
    (container other : Bytes) (params others : List DeployParam)
    → length container < 2 ^ 32
    → length other < 2 ^ 32
    → build_deploy_call container params ≡ build_deploy_call other others
    → (container ≡ other) × (params_region params ≡ params_region others)
unfolding build_deploy_call
build_deploy_call-injective container other params others x y h =
    let a = length container % 2 ^ 32 in
    let b = length other % 2 ^ 32 in
    let tagged = (split deploy_params_tag deploy_params_tag refl h).1 in
    let (sizes, rest) =
      split (be_bytes 4 a) (be_bytes 4 b) (length-be_bytes 4 a ∙ sym (length-be_bytes 4 b))
        tagged in
    let n = be_bytes-injective 4 a b (omega arith) (omega arith) sizes in
    split container other (omega (arith, n)) rest
