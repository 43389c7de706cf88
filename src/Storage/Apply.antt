-- ===== src/Storage/Apply.antt =====
-- src/apply.rs: the commands of the replicated log and their effect on the engine.
pub mod Effect
use ferrium.Common.{
  ℕ, ◌+◌, Bool, true, false, if◌then◌else◌, Option, none, some, List, [], ◌∷◌, Bytes, ◌≡◌,
}
use ferrium.Storage.Engine
use ferrium.Storage.Engine.{MemoryEngine}

pub data WriteCommand : Type 0 where
  set : (key : Bytes) → (value : Bytes) → WriteCommand
  del : (keys : List Bytes) → WriteCommand

-- `serde_json`, which writes and reads the commands: what is written reads back.
pub record Codec : Type 0 where
  pub encode : WriteCommand → Bytes
  pub decode : Bytes → Option WriteCommand
  pub decode-encode : (c : WriteCommand) → decode (encode c) ≡ some c

-- `keys.iter().filter(|k| engine.del(k)).count()`
unfoldable pub del_all : List Bytes → MemoryEngine → MemoryEngine × ℕ
del_all [] e = (e, 0)
del_all (k ∷ keys) e =
    let (e', existed) = Engine.del k e in
    let (e'', count) = del_all keys e' in (e'', (if existed then 1 else 0) + count)

unfoldable pub apply : WriteCommand → MemoryEngine → MemoryEngine × ℕ
apply (set key value) e = (Engine.set key value e, 1)
apply (del keys) e = del_all keys e
