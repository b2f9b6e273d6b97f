-- ===== src/Session/Json.antt =====
-- What the handlers use of the JSON library. `none` stands for the exception that it throws.
use my_project_imserver.Base.{ℕ, Bool, true, false, List, [], ◌∷◌, Option, none, some, Bytes, codes}
use Prim.Native.String.{String}

pub record JsonApi : Type 1 where
  pub Value : Type 0
  -- `Reader::parse`: none for false.
  pub parse : Bytes → Option Value
  -- `root[key]`, which throws where `root` is neither an object nor null.
  pub member : Bytes → Value → Option Value
  pub is_string : Value → Bool
  pub is_int : Value → Bool
  pub is_array : Value → Bool
  pub as_string : Value → Bytes
  -- `asInt()`, which throws where the value is no int32_t.
  pub as_int : Value → Option ℕ
  -- `size()` and `operator[](int)` of an array.
  pub items : Value → List Value
  pub null : Value
  pub clear : Value → Value
  pub of_int : ℕ → Value
  pub of_string : Bytes → Value
  -- `root[key] = v` and `root[key].append(v)`.
  pub set : Bytes → Value → Value → Value
  pub append : Bytes → Value → Value → Value
  pub styled : Value → Bytes

infixl 5 ◌>>=?◌
abbrev pub ◌>>=?◌ {ℓ κ} : {A : Type ℓ} {B : Type κ} → Option A → (A → Option B) → Option B
none >>=? f = none
some a >>=? f = f a

module _ (json : JsonApi) where
  open json use {Value}

  -- A test of a member, as in `root["username"].isString()`.
  abbrev pub member_is : (Value → Bool) → String → Value → Option Bool
  member_is test key root = json.member (codes key) root >>=? λ v. some (test v)

  -- Tests joined by `||` after `!`: the first that fails decides, and the rest is not evaluated.
  abbrev pub every : List (Option Bool) → Option Bool
  every [] = some true
  every (none ∷ ts) = none
  every (some false ∷ ts) = some false
  every (some true ∷ ts) = every ts

  abbrev pub string_at : String → Value → Option Bytes
  string_at key root = json.member (codes key) root >>=? λ v. some (json.as_string v)

  abbrev pub int_at : String → Value → Option ℕ
  int_at key root = json.member (codes key) root >>=? json.as_int

  abbrev pub put_int : String → ℕ → Value → Value
  put_int key n root = json.set (codes key) (json.of_int n) root

  abbrev pub put_string : String → Bytes → Value → Value
  put_string key s root = json.set (codes key) (json.of_string s) root

  -- `response["code"] = …; response["msg"] = …;`
  abbrev pub status : ℕ → String → Value → Value
  status code msg root = put_string "msg" (codes msg) (put_int "code" code root)
