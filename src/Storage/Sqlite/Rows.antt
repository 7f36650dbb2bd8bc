-- ===== src/Storage/Sqlite/Rows.antt =====
-- A database that is a list of rows, with the laws that storage/storage_sqlite.go relies on; the tests
-- run on it.
use mock_my_mta.Base.{
  Text, eq_refl, is_ok, lit, ◌==◌, ◌-◌, ◌≡◌, refl, ap, ◌∙◌, List, [], Option, none, some, Bool,
  true, false, if◌then◌else◌, length, take, drop, map, Outcome, ok, err, ok_injective, failed,
}
use mock_my_mta.Base.Dict.{Dict, lookup, insert, erase, lookup-insert, lookup-erase}
use mock_my_mta.Base.Int.{ltb_ℤ, pos_part}
use mock_my_mta.Storage.Order.{sort}
use mock_my_mta.Storage.Sqlite.{Row, Database}
use mock_my_mta.Storage.Sqlite.Table.{SqlTable}

abbrev found : Option Row → Outcome Row
found none = err (failed (lit "sql: no rows in result set"))
found (some r) = ok r

abbrev pub by_date : Dict Row → List Row
by_date d = sort (λ a b. ltb_ℤ b.date a.date) (map (λ e. e.1) d)

abbrev pub rows_database : Database (Dict Row)
rows_database = record {
  insert = λ d r. (insert r.id r d, none);
  select = λ d id. found (lookup id d);
  select_all = λ d. ok (by_date d);
  select_page = λ d limit offset. ok (take (pos_part limit) (drop (pos_part offset) (by_date d)));
  select_recipients = λ d. ok (map (λ e. e.1.recipients_json) d);
  count = λ d. length (by_date d);
  delete_all = λ d. ([], none);
  delete = λ d id. (erase id d, ok (length d - length (erase id d)));
}

found_if :
    (b : Bool) (r : Row) (o : Option Row)
    → found (if b then some r else o) ≡ (if b then ok r else found o)
found_if true r o = refl
found_if false r o = refl

missing : (id : Text) (d : Dict Row) → is_ok (found (lookup id (erase id d))) ≡ false
missing id d = rw (lookup-erase id id d, eq_refl id) refl

erased :
    (b : Bool) (o : Option Row)
    → is_ok (found o) ≡ false
    → is_ok (found (if b then none else o)) ≡ false
erased true o h = refl
erased false o h = h

-- The list of rows is such a database.
pub rows_database-SqlTable : SqlTable rows_database
unfolding lookup
rows_database-SqlTable = record {
  own_errors = λ d r e h. cc h;
  select-insert =
      λ d r id h. ap found (lookup-insert r.id id r d) ∙ found_if (r.id == id) r (lookup id d);
  select-insert_others = λ d r j other.
      ap found (lookup-insert r.id j r d ∙ ap (λ b. if b then some r else lookup j d) other);
  own_delete_errors = λ d id e h. cc h;
  select-delete = λ d id n h. missing id d;
  select-others = λ d id j other.
      ap found (lookup-erase id j d ∙ ap (λ b. if b then none else lookup j d) other);
  select-absent =
      λ d id j h. ap (λ o. is_ok (found o)) (lookup-erase id j d) ∙ erased (id == j) (lookup j d) h;
  select-all_absent = λ d j h. refl;
  select_page-take = λ d rows limit offset h.
      ap (λ rs. ok (take limit (drop offset rs))) (ok_injective (by_date d) rows h);
  count-length = λ d rows h. ap length (ok_injective (by_date d) rows h);
}
