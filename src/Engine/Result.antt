-- ===== src/Engine/Result.antt =====
-- src/engine.rs: `EngineError` and `EResult`. `panicked` is no error of the source: it stands for a
-- panic, where the model keeps one apart from the errors.
use vramdisk.Lookup.Key.{Bytes}
use vramdisk.Lookup.Table.{LookupError}

pub data EngineError : Type 0 where
  lookup : LookupError → EngineError
  no_space not_a_file cancelled panicked : EngineError
  out_of_vram cuda invalid_input unsupported internal : Bytes → EngineError

pub data EResult {ℓ} (A : Type ℓ) : Type ℓ where
  ok : A → EResult A
  err : EngineError → EResult A
