-- ===== src/Database/Tables.antt =====
-- The tables that the constructor of class MySqlManager declares (EdoyumIMServer/MySqlManager.h,
-- MySqlManager.cpp). Texts are UTF-8, as in the source.
use my_project_imserver.Base.{List, [], ◌∷◌, Bytes, codes, utf8}
use my_project_imserver.Server.{map_insert}

-- sFieldInfo and sTableInfo; `sDesc` is what `desc` answers for the type.
pub record FieldInfo : Type 0 where
  pub name : Bytes
  pub type : Bytes
  pub desc : Bytes

abbrev pub FieldMap : Type 0
FieldMap = List (Bytes × FieldInfo)

pub record TableInfo : Type 0 where
  pub name : Bytes
  pub fields : FieldMap
  pub key : Bytes

-- The std::map of the columns of a table, each under its name.
unfoldable pub field_map : List FieldInfo → FieldMap
field_map [] = []
field_map (f ∷ fs) = map_insert f.name f (field_map fs)

unfoldable pub t_user : TableInfo
unfolding field_map
t_user = record {
  name = codes "t_user";
  fields = field_map (
      record {
        name = codes "f_id";
        type = utf8 "bigint(20) NOT NULL AUTO_INCREMENT COMMENT  '自增ID'";
        desc = codes "bigint(20)";
      }
      ∷ record {
        name = codes "f_user_id";
        type = utf8 "bigint(20) NOT NULL COMMENT  '用户ID'";
        desc = codes "bigint(20)";
      }
      ∷ record {
        name = codes "f_username";
        type = utf8 "varchar(64) NOT NULL COMMENT  '用户名'";
        desc = codes "varchar(64)";
      }
      ∷ record {
        name = codes "f_nickname";
        type = utf8 "varchar(64) NOT NULL COMMENT  '用户昵称'";
        desc = codes "varchar(64)";
      }
      ∷ record {
        name = codes "f_password";
        type = utf8 "varchar(64) NOT NULL COMMENT  '用户密码'";
        desc = codes "varchar(64)";
      }
      ∷ record {
        name = codes "f_facetype";
        type = utf8 "int(10) DEFAULT 0 COMMENT  '用户头像类型'";
        desc = codes "int(10)";
      }
      ∷ record {
        name = codes "f_customface";
        type = utf8 "varchar(32) DEFAULT NULL COMMENT  '自定义头像名'";
        desc = codes "varchar(32)";
      }
      ∷ record {
        name = codes "f_customfacefmt";
        type = utf8 "varchar(6) DEFAULT NULL COMMENT  '自定义头像格式'";
        desc = codes "varchar(6)";
      }
      ∷ record {
        name = codes "f_gender";
        type = utf8 "int(2) DEFAULT 0 COMMENT  '性别'";
        desc = codes "int(2)";
      }
      ∷ record {
        name = codes "f_birthday";
        type = utf8 "bigint(20) DEFAULT 19900101 COMMENT  '生日'";
        desc = codes "bigint(20)";
      }
      ∷ record {
        name = codes "f_signature";
        type = utf8 "varchar(256) DEFAULT NULL COMMENT  '地址'";
        desc = codes "varchar(256)";
      }
      ∷ record {
        name = codes "f_address";
        type = utf8 "varchar(256) DEFAULT NULL COMMENT  '地址'";
        desc = codes "varchar(256)";
      }
      ∷ record {
        name = codes "f_phonenumber";
        type = utf8 "varchar(64) DEFAULT NULL COMMENT  '电话'";
        desc = codes "varchar(64)";
      }
      ∷ record {
        name = codes "f_mail";
        type = utf8 "varchar(256) DEFAULT NULL COMMENT  '邮箱'";
        desc = codes "varchar(256)";
      }
      ∷ record {
        name = codes "f_owner";
        type = utf8 "bigint(20) DEFAULT 0 COMMENT  '群账号群主userid'";
        desc = codes "bigint(20)";
      }
      ∷ record {
        name = codes "f_register_time";
        type = utf8 "datetime NOT NULL  COMMENT  '注册时间'";
        desc = codes "datetime";
      }
      ∷ record {
        name = codes "f_remark";
        type = utf8 "varchar(64) NULL COMMENT  '备注'";
        desc = codes "varchar(64)";
      }
      ∷ record {
        name = codes "f_update_time";
        type =
            utf8
              "timestamp NOT NULL DEFAULT CURRENT_TIMESTAMP ON UPDATE CURRENT_TIMESTAMP COMMENT '更新时间'";
        desc = codes "timestamp";
      }
      ∷ []);
  key = codes "PRIMARY KEY (f_user_id),INDEX f_user_id (f_user_id),KEY f_id (f_id)";
}

unfoldable pub t_chatmsg : TableInfo
unfolding field_map
t_chatmsg = record {
  name = codes "t_chatmsg";
  fields = field_map (
      record {
        name = codes "f_id";
        type = utf8 "bigint(20) NOT NULL AUTO_INCREMENT COMMENT  '自增ID'";
        desc = codes "bigint(20)";
      }
      ∷ record {
        name = codes "f_senderid";
        type = utf8 "bigint(20) NOT NULL COMMENT  '发送者id'";
        desc = codes "bigint(20)";
      }
      ∷ record {
        name = codes "f_targetid";
        type = utf8 "bigint(20) NOT NULL COMMENT  '接收者id'";
        desc = codes "bigint(20)";
      }
      ∷ record {
        name = codes "f_msgcontent";
        type = utf8 "blob NOT NULL COMMENT  '聊天内容'";
        desc = codes "blob";
      }
      ∷ record {
        name = codes "f_create_time";
        type =
            utf8
              "timestamp NOT NULL DEFAULT CURRENT_TIMESTAMP ON UPDATE CURRENT_TIMESTAMP COMMENT '更新时间'";
        desc = codes "timestamp";
      }
      ∷ record {
        name = codes "f_remark";
        type = utf8 "varchar(64) NULL COMMENT  '备注'";
        desc = codes "varchar(64)";
      }
      ∷ []);
  key = codes "PRIMARY KEY (f_id),INDEX f_id (f_id)";
}

unfoldable pub t_user_relationship : TableInfo
unfolding field_map
t_user_relationship = record {
  name = codes "t_user_relationship";
  fields = field_map (
      record {
        name = codes "f_id";
        type = utf8 "bigint(20) NOT NULL AUTO_INCREMENT COMMENT  '自增ID'";
        desc = codes "bigint(20)";
      }
      ∷ record {
        name = codes "f_user_id1";
        type = utf8 "bigint(20) NOT NULL COMMENT  '用户ID'";
        desc = codes "bigint(20)";
      }
      ∷ record {
        name = codes "f_user_id2";
        type = utf8 "bigint(20) NOT NULL COMMENT  '用户ID'";
        desc = codes "bigint(20)";
      }
      ∷ record {
        name = codes "f_remark";
        type = utf8 "varchar(64) NULL COMMENT  '备注'";
        desc = codes "varchar(64)";
      }
      ∷ record {
        name = codes "f_create_time";
        type =
            utf8
              "timestamp NOT NULL DEFAULT CURRENT_TIMESTAMP ON UPDATE CURRENT_TIMESTAMP COMMENT '更新时间'";
        desc = codes "timestamp";
      }
      ∷ []);
  key = codes "PRIMARY KEY (f_id),INDEX f_id (f_id)";
}

-- `m_mapTable`, in the order of the names.
unfoldable pub tables : List TableInfo
unfolding t_chatmsg t_user t_user_relationship
tables = t_chatmsg ∷ t_user ∷ t_user_relationship ∷ []
