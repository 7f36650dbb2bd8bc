-- ===== src/Storage/Sqlite/Paging.antt =====
-- The search without a query of storage/storage_sqlite.go, which leaves the paging to the database.
use mock_my_mta.Base.{◌≡◌, List, ℕ, suc, ◌+◌, ◌*◌, ◌<◌, map, Outcome, ok, ◌>>=◌}
use mock_my_mta.Base.Int.{ℤ, pos, two_63}
use mock_my_mta.Std.{Std, Time}
use mock_my_mta.Storage.{EmailHeader}
use mock_my_mta.Storage.Sqlite.{Row, Json, Database, header_of}
use mock_my_mta.Storage.Sqlite.Table.{SqlTable}

module _ {D : Type 0} (db : Database D) (json : Json) (laws : SqlTable db) (std : Std) (now : Time)
    (d : D) (rows : List Row) (table : db.select_all d ≡ ok rows) (k n : ℕ) (page : suc k < two_63)
    (fits : k * n + n < two_63) where
  abbrev shown : ℤ → ℕ → Outcome (List EmailHeader × ℕ)
  shown offset total =
      db.select_page d (pos n) offset >>= λ found. ok (map (header_of json) found, total)
