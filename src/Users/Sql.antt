-- ===== src/Users/Sql.antt =====
-- The statements that UserManager.cpp builds as text. Nothing is escaped. `snprintf(sql, 256, …)`
-- keeps 255 bytes.
use my_project_imserver.Base.{ℕ, ◌++◌, take, Bytes, codes, show_int}
use my_project_imserver.Users.Types.{User}

unfoldable pub sql_add_user : ℕ → User → Bytes
sql_add_user id u =
    codes "INSERT INTO t_user (f_user_id,f_username,f_nickname,f_password,f_register_time)"
    ++ (codes " VALUES("
        ++ (show_int id
            ++ (codes ",'"
                ++ (u.username
                    ++ (codes "','"
                        ++ (u.nickname ++ (codes "','" ++ (u.password ++ codes "',NOW());"))))))))

unfoldable pub sql_load_users : Bytes
sql_load_users =
    codes "SELECT f_user_id,f_username,f_nickname,f_password,f_facetype,f_customface,f_gender,"
    ++ codes
        "f_birthday,f_signature,f_address,f_phonenumber,f_mail FROM t_user ORDER BY f_user_id DESC;"

unfoldable pub sql_load_relations : ℕ → Bytes
sql_load_relations id =
    codes "SELECT f_user_id1,f_user_id2 FROM t_user_relationship WHERE f_user_id1="
    ++ (show_int id ++ (codes " OR f_user_id2=" ++ (show_int id ++ codes ";")))

unfoldable pub sql_make_friends : ℕ → ℕ → Bytes
sql_make_friends small great =
    codes "INSERT INTO t_user_relationship(f_user_id1, f_user_id2) VALUES("
    ++ (show_int small ++ (codes "," ++ (show_int great ++ codes ") ;")))

unfoldable pub sql_release_friends : ℕ → ℕ → Bytes
sql_release_friends small great = take 255 (
    codes "DELETE FROM t_user_relationship WHERE f_user_id1 = "
    ++ (show_int small ++ (codes " AND f_user_id2 = " ++ (show_int great ++ codes " ;"))))

unfoldable pub sql_update_user : ℕ → User → Bytes
sql_update_user id u =
    codes "UPDATE t_user SET f_nickname='"
    ++ (u.nickname
        ++ (codes "', f_facetype="
            ++ (show_int u.facetype
                ++ (codes ", f_customface='"
                    ++ (u.customface
                        ++ (codes "', f_gender="
                            ++ (show_int u.gender
                                ++ (codes ", f_birthday="
                                    ++ (show_int u.birthday ++ (sql_texts id u))))))))))
  where
    sql_texts : ℕ → User → Bytes
    sql_texts id u =
        codes ", f_signature='"
        ++ (u.signature
            ++ (codes "', f_address='"
                ++ (u.address
                    ++ (codes "', f_phonenumber='"
                        ++ (u.phonenumber
                            ++ (codes "', f_mail='"
                                ++ (u.mail
                                    ++ (codes "' WHERE f_user_id="
                                        ++ (show_int id ++ codes ";")))))))))

unfoldable pub sql_modify_password : ℕ → Bytes → Bytes
sql_modify_password id password =
    codes "UPDATE t_user SET f_password='"
    ++ (password ++ (codes "' WHERE f_user_id=" ++ (show_int id ++ codes ";")))

unfoldable pub sql_add_group : ℕ → Bytes → ℕ → Bytes
sql_add_group id groupname ownerid = take 255 (
    codes "INSERT INTO t_user(f_user_id, f_username, f_nickname, f_password, f_owner_id, "
    ++ (codes "f_register_time) VALUES("
        ++ (show_int id
            ++ (codes ", '"
                ++ (show_int id
                    ++ (codes "', '"
                        ++ (groupname
                            ++ (codes "', '', " ++ (show_int ownerid ++ codes ",  NOW());")))))))))

unfoldable pub sql_save_chat : ℕ → ℕ → Bytes → Bytes
sql_save_chat sender target msg =
    codes "INSERT INTO t_chatmsg(f_senderid, f_targetid, f_msgcontent) VALUES("
    ++ (show_int sender
        ++ (codes ", " ++ (show_int target ++ (codes ", '" ++ (msg ++ codes "');")))))
