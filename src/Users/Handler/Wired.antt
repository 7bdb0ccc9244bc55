-- ===== src/Users/Handler/Wired.antt =====
-- internal/handler/users.go: NewUsersHandler, which puts usersDao under the handlers.
use thrust_oauth2id_server.Users.Cache.{UsersCache}
use thrust_oauth2id_server.Users.Dao.{
  Database, Dao, create, delete_by_id, delete_by_ids, update_by_id, get_by_id,
}
use thrust_oauth2id_server.Users.Dao.Batch.{get_by_ids}
use thrust_oauth2id_server.Users.Dao.Queries.{
  Query, get_by_columns, get_by_condition, get_by_last_id,
}
use thrust_oauth2id_server.Users.Handler.{UsersDao}

abbrev pub new_users_handler :
    {D C P K Q : Type 0} → Database D → UsersCache C → Query P K Q D → UsersDao (Dao D C) P K
new_users_handler database cache query = record {
  create = create database cache;
  delete_by_id = delete_by_id database cache;
  update_by_id = update_by_id database cache;
  get_by_id = get_by_id database cache;
  get_by_columns = λ params d. (get_by_columns query params d, d);
  delete_by_ids = delete_by_ids database cache;
  get_by_condition = λ c d. (get_by_condition query c d, d);
  get_by_ids = get_by_ids database cache;
  get_by_last_id = λ last_id limit sort d. (get_by_last_id query last_id limit sort d, d);
}
