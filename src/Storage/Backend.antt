-- ===== src/Storage/Backend.antt =====
-- What the storage uses of BadgerDB and of the JSON package.
use ruseon_core.Common.{◌≡◌, Option, none, some, List, ite}
use ruseon_core.Common.Bytes.{Bytes, bytes_discrete, strip_prefix}

-- A committed database: reads see the last write of a key, and a scan sees only the keys of its prefix.
pub record Database : Type 1 where
  pub Db : Type 0
  pub Value : Type 0
  pub get : Bytes → Db → Option Value
  pub set : Bytes → Value → Db → Db
  pub remove : Bytes → Db → Db
  pub scan : Bytes → Db → List Value
  pub get-set :
      (k j : Bytes) (v : Value) (db : Db)
      → get j (set k v db) ≡ ite (bytes_discrete k j) (some v) (get j db)
  pub get-remove :
      (k j : Bytes) (db : Db) → get j (remove k db) ≡ ite (bytes_discrete k j) none (get j db)
  pub scan-set :
      (p k : Bytes) (v : Value) (db : Db)
      → strip_prefix p k ≡ none
      → scan p (set k v db) ≡ scan p db

-- JSON of one type of record: what was marshalled is read back.
pub record Codec (d : Database) (T : Type 0) : Type 0 where
  pub marshal : T → Option (d.Value)
  pub unmarshal : d.Value → Option T
  pub unmarshal-marshal : (t : T) (v : d.Value) → marshal t ≡ some v → unmarshal v ≡ some t
