-- ===== src/Cache/Provider.antt =====
-- internal/cache/provider.go: what the service needs of a cache, over what is outside `W` and the bytes
-- `D` that it stores; `Close` has nothing to model.
use mirador_rca.Prelude.{Bool, true, Option, none, some, String}
use mirador_rca.Prelude.Outcome.{Reply, reply, failure}
use mirador_rca.Model.{Duration}

pub record Provider (W D : Type 0) : Type 0 where
  pub get : String → W → Reply D × W
  pub set : String → D → Duration → W → Reply (Unit {0}) × W
  pub set_nx : String → D → Duration → W → Reply Bool × W
  pub del : String → W → Reply (Unit {0}) × W

-- `ErrCacheMiss`
abbrev pub err_cache_miss : String
err_cache_miss = "cache miss"

-- `NoopProvider`
abbrev pub noop_provider : {W D : Type 0} → Provider W D
noop_provider = record {
  get = λ key w. (failure err_cache_miss, w);
  set = λ key value ttl w. (reply tt, w);
  set_nx = λ key value ttl w. (reply true, w);
  del = λ key w. (reply tt, w);
}

-- A provider that is nil.
abbrev pub or_noop : {W D : Type 0} → Option (Provider W D) → Provider W D
or_noop none = noop_provider
or_noop (some cache) = cache

-- `json.Marshal` and `json.Unmarshal` for what is cached.
pub record Coding (D A : Type 0) : Type 0 where
  pub marshal : A → Option D
  pub unmarshal : D → Option A
