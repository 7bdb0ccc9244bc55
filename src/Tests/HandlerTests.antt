-- ===== src/Tests/HandlerTests.antt =====
-- internal/handler/users.go over the table and the cache of the dao's tests, and a copier that copies
-- the fields of the same name.
use thrust_oauth2id_server.Prelude.{
  ℕ, ◌≡◌, refl, ap, sym, none, some, Option, [], ◌∷◌, All, arith, String_Eq, ℕ_Eq,
}
use thrust_oauth2id_server.Prelude.Int.{pos}
use thrust_oauth2id_server.Prelude.Assoc.{lookup, insert}
use thrust_oauth2id_server.ProxyCache.Directives.{atoi_digits}
use thrust_oauth2id_server.Users.Model.{Users, Time, ok}
use thrust_oauth2id_server.Users.Types.{CreateUsersRequest, UpdateUsersByIdRequest, UsersObjDetail}
use thrust_oauth2id_server.Users.Dao.Coherence.{IsCoherent}
use thrust_oauth2id_server.Users.Dao.Batch.{
  get_by_ids, get_missed, real_missed_ids, missed_ids, index_records,
}
use thrust_oauth2id_server.Users.Dao.Queries.{Query}
use thrust_oauth2id_server.Users.Handler.{Sponge, get_by_id, update_by_id, list_by_ids}
use thrust_oauth2id_server.Users.Handler.Wired.{new_users_handler}
use thrust_oauth2id_server.Users.Handler.Lookup.{
  AnswersPath, get_by_id-AnswersPath, update_by_id-others,
}
use thrust_oauth2id_server.Users.Handler.Lists.{IsRow, list_by_ids-All}
use thrust_oauth2id_server.Tests.Rows.{
  Rows, rows_database, entries_cache, entries_laws, rows_laws, batch_laws, ann, rows, dao,
  dao-IsCoherent, warm, warm-IsCoherent,
}

abbrev time_or : Option Time → Time
time_or none = 0
time_or (some t) = t

abbrev copied : UpdateUsersByIdRequest → Users
copied f = record {
  id = f.id;
  created_at = 0;
  updated_at = 0;
  email = f.email;
  encrypted_password = f.encrypted_password;
  reset_password_token = f.reset_password_token;
  reset_password_sent_at = time_or f.reset_password_sent_at;
  remember_created_at = time_or f.remember_created_at;
  sign_in_count = f.sign_in_count;
  current_sign_in_at = time_or f.current_sign_in_at;
  last_sign_in_at = time_or f.last_sign_in_at;
  current_sign_in_ip = f.current_sign_in_ip;
  last_sign_in_ip = f.last_sign_in_ip;
  confirmation_token = f.confirmation_token;
  confirmed_at = time_or f.confirmed_at;
  confirmation_sent_at = time_or f.confirmation_sent_at;
  unconfirmed_email = f.unconfirmed_email;
  failed_attempts = f.failed_attempts;
  unlock_token = f.unlock_token;
  locked_at = time_or f.locked_at;
  admin = f.admin;
  username = f.username;
  remember_token = f.remember_token;
}

abbrev created : CreateUsersRequest → Users
created f = record {
  id = 0;
  created_at = 0;
  updated_at = 0;
  email = f.email;
  encrypted_password = f.encrypted_password;
  reset_password_token = f.reset_password_token;
  reset_password_sent_at = time_or f.reset_password_sent_at;
  remember_created_at = time_or f.remember_created_at;
  sign_in_count = f.sign_in_count;
  current_sign_in_at = time_or f.current_sign_in_at;
  last_sign_in_at = time_or f.last_sign_in_at;
  current_sign_in_ip = f.current_sign_in_ip;
  last_sign_in_ip = f.last_sign_in_ip;
  confirmation_token = f.confirmation_token;
  confirmed_at = time_or f.confirmed_at;
  confirmation_sent_at = time_or f.confirmation_sent_at;
  unconfirmed_email = f.unconfirmed_email;
  failed_attempts = f.failed_attempts;
  unlock_token = f.unlock_token;
  locked_at = time_or f.locked_at;
  admin = f.admin;
  username = f.username;
  remember_token = f.remember_token;
}

abbrev shown : Users → UsersObjDetail
shown u = record {
  id = u.id;
  email = u.email;
  encrypted_password = u.encrypted_password;
  reset_password_token = u.reset_password_token;
  reset_password_sent_at = some u.reset_password_sent_at;
  remember_created_at = some u.remember_created_at;
  sign_in_count = u.sign_in_count;
  current_sign_in_at = some u.current_sign_in_at;
  last_sign_in_at = some u.last_sign_in_at;
  current_sign_in_ip = u.current_sign_in_ip;
  last_sign_in_ip = u.last_sign_in_ip;
  confirmation_token = u.confirmation_token;
  confirmed_at = some u.confirmed_at;
  confirmation_sent_at = some u.confirmation_sent_at;
  unconfirmed_email = u.unconfirmed_email;
  failed_attempts = u.failed_attempts;
  unlock_token = u.unlock_token;
  locked_at = some u.locked_at;
  created_at = some u.created_at;
  updated_at = some u.updated_at;
  admin = u.admin;
  username = u.username;
  remember_token = u.remember_token;
}

abbrev sponge : Sponge ℕ
sponge = record {
  from_create = λ f. some (created f);
  from_update = λ f. some (copied f);
  to_detail = λ u. some (shown u);
  str_to_uint64_e = atoi_digits;
  str_to_uint64 = λ s. 0;
  str_to_int = λ s. pos 0;
  check_valid = λ k. none;
}

abbrev query : Query ℕ ℕ ℕ Rows
query = record {
  sort = λ p. "";
  convert_to_gorm_conditions = λ names p. ok p;
  convert_to_page = λ p. record { order = "id"; limit = pos 10; offset = pos 0 };
  convert_to_gorm = λ names k. ok k;
  new_page = λ n limit sort. record { order = sort; limit = limit; offset = pos n };
  count = λ q db. ok 1;
  find = λ page q db. ok (ann ∷ []);
  first = λ q db. ok ann;
  find_before = λ order limit last db. ok [];
}

three : atoi_digits "3" ≡ some 3
unfolding atoi_digits
three = refl

get_by_id-AnswersPath_example :
    let out = get_by_id (new_users_handler rows_database entries_cache query) sponge "3" dao in
    AnswersPath rows_database entries_cache query sponge entries_laws rows_laws
      (sponge.str_to_uint64_e "3")
      rows
      out.0
    × ((out.1.db ≡ rows) × IsCoherent rows_database entries_cache out.1)
get_by_id-AnswersPath_example =
    get_by_id-AnswersPath rows_database entries_cache query sponge entries_laws rows_laws "3" dao
      dao-IsCoherent

-- A form under another id than the path's.
abbrev moving : UpdateUsersByIdRequest
moving = record {
  id = 9;
  email = "ann@example.org";
  encrypted_password = "";
  reset_password_token = "";
  reset_password_sent_at = none;
  remember_created_at = none;
  sign_in_count = pos 0;
  current_sign_in_at = none;
  last_sign_in_at = none;
  current_sign_in_ip = "";
  last_sign_in_ip = "";
  confirmation_token = "";
  confirmed_at = none;
  confirmation_sent_at = none;
  unconfirmed_email = "";
  failed_attempts = pos 0;
  unlock_token = "";
  locked_at = none;
  admin = pos 0;
  username = "";
  remember_token = "";
}

update_by_id-others_example :
    let d' =
      (update_by_id
        (new_users_handler rows_database entries_cache query)
        sponge
        "3"
        (some moving)
        warm).1 in
    (rows_database.first 4 d'.db ≡ rows_database.first 4 rows)
    × IsCoherent rows_database entries_cache d'
update_by_id-others_example =
    update_by_id-others rows_database entries_cache query sponge entries_laws rows_laws "3" 3 4
      (some moving) warm
      (λ f u e. let same : copied f ≡ u = cc e in ap (λ (v : Users). v.id) (sym same))
      (unfold atoi_digits in refl) (λ e. omega arith) (refl, tt) warm-IsCoherent

list_by_ids-All_example : All (IsRow rows_database entries_cache query sponge rows) (shown ann ∷ [])
unfolding list_by_ids get_by_ids get_missed real_missed_ids missed_ids index_records lookup insert
list_by_ids-All_example =
    list_by_ids-All rows_database entries_cache query sponge batch_laws
      (record { ids = 4 ∷ 3 ∷ [] }) dao (shown ann ∷ []) dao-IsCoherent refl
