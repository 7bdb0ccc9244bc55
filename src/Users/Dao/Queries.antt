-- ===== src/Users/Dao/Queries.antt =====
-- internal/dao/users.go: the reads by a query, which go past the cache. The conversion of a query to
-- gorm's conditions is the library's, given the column names that may be used.
use thrust_oauth2id_server.Prelude.{ℕ, String, not, List, [], nat_eq, str_eq, if◌then◌else◌}
use thrust_oauth2id_server.Prelude.Int.{ℤ}
use thrust_oauth2id_server.Users.Model.{Users, query_params, Result, ok, err, users_column_names}
use thrust_oauth2id_server.Users.Dao.{Dao}

-- Where a page begins, how many rows it has, and in which order.
pub record Page : Type 0 where
  pub order : String
  pub limit : ℤ
  pub offset : ℤ

-- sponge's query.Params (P) and query.Conditions (K), the conditions of gorm that they are converted
-- to (Q), and what gorm does with these.
pub record Query (P K Q D : Type 0) : Type 0 where
  pub sort : P → String
  pub convert_to_gorm_conditions : List String → P → Result Q
  pub convert_to_page : P → Page
  pub convert_to_gorm : List String → K → Result Q
  pub new_page : ℕ → ℤ → String → Page
  pub count : Q → D → Result ℕ
  pub find : Page → Q → D → Result (List Users)
  pub first : Q → D → Result Users
  pub find_before : String → ℤ → ℕ → D → Result (List Users)

module _ {P K Q D : Type 0} (query : Query P K Q D) where
  abbrev pub with_total : ℕ → Result (List Users) → Result (List Users × ℕ)
  with_total total (err e) = err e
  with_total total (ok us) = ok (us, total)

  abbrev pub counted : Q → P → D → Result ℕ → Result (List Users × ℕ)
  counted q params db (err e) = err e
  counted q params db (ok total) =
      if nat_eq total 0
      then ok ([], total)
      else with_total total (query.find (query.convert_to_page params) q db)

  abbrev pub converted : P → D → Result Q → Result (List Users × ℕ)
  converted params db (err e) = err query_params
  converted params db (ok q) =
      if not (str_eq (query.sort params) "ignore count")
      then counted q params db (query.count q db)
      else with_total 0 (query.find (query.convert_to_page params) q db)

  unfoldable pub get_by_columns : {C : Type 0} → P → Dao D C → Result (List Users × ℕ)
  get_by_columns params d =
      converted params d.db (query.convert_to_gorm_conditions users_column_names params)

  abbrev pub first_of : D → Result Q → Result Users
  first_of db (err e) = err e
  first_of db (ok q) = query.first q db

  unfoldable pub get_by_condition : {C : Type 0} → K → Dao D C → Result Users
  get_by_condition c d = first_of d.db (query.convert_to_gorm users_column_names c)

  unfoldable pub get_by_last_id : {C : Type 0} → ℕ → ℤ → String → Dao D C → Result (List Users)
  get_by_last_id last_id limit sort d =
      let page = query.new_page 0 limit sort in query.find_before page.order page.limit last_id d.db
