-- ===== src/Users/Types.antt =====
-- The class User of EdoyumIMServer/UserManager.h, and its std::set of friends.
use my_project_imserver.Base.{
  ℕ, ◌≡◌, Bool, false, not, ◌&&◌, ◌||◌, List, [], ◌∷◌, ◌==◌, slt, if◌then◌else◌, arith, Bytes,
  minus_one,
}

-- A std::set<int32_t>: ascending, without repetition.
unfoldable pub set_insert : ℕ → List ℕ → List ℕ
set_insert x [] = x ∷ []
set_insert x (y ∷ ys) =
    if x == y then y ∷ ys else if slt x y then x ∷ y ∷ ys else y ∷ set_insert x ys

unfoldable pub set_erase : ℕ → List ℕ → List ℕ
set_erase x [] = []
set_erase x (y ∷ ys) = if x == y then set_erase x ys else y ∷ set_erase x ys

abbrev pub contains : ℕ → List ℕ → Bool
contains x [] = false
contains x (y ∷ ys) = (x == y) || contains x ys

pub contains-set_insert :
    (x y : ℕ) (s : List ℕ) → contains x (set_insert y s) ≡ ((x == y) || contains x s)
unfolding set_insert
contains-set_insert x y [] = ground arith
contains-set_insert x y (z ∷ s) = ground (arith, contains-set_insert x y s)

pub contains-set_erase :
    (x y : ℕ) (s : List ℕ) → contains x (set_erase y s) ≡ (not (x == y) && contains x s)
unfolding set_erase
contains-set_erase x y [] = ground arith
contains-set_erase x y (z ∷ s) = ground (arith, contains-set_erase x y s)

-- `clienttype` and `status` are not set by the constructor; nothing reads them before a login does.
pub record User : Type 0 where
  pub userid : ℕ
  pub username : Bytes
  pub password : Bytes
  pub nickname : Bytes
  pub facetype : ℕ
  pub customface : Bytes
  pub customfacefmt : Bytes
  pub gender : ℕ
  pub birthday : ℕ
  pub signature : Bytes
  pub address : Bytes
  pub phonenumber : Bytes
  pub mail : Bytes
  pub ownerid : ℕ
  pub clienttype : ℕ
  pub status : ℕ
  pub friends : List ℕ

unfoldable pub new_user : User
new_user = record {
  userid = minus_one;
  username = [];
  password = [];
  nickname = [];
  facetype = minus_one;
  customface = [];
  customfacefmt = [];
  gender = minus_one;
  birthday = minus_one;
  signature = [];
  address = [];
  phonenumber = [];
  mail = [];
  ownerid = minus_one;
  clienttype = 0;
  status = 0;
  friends = [];
}

-- GROUPID_BOUBDARY: an id from here on is a group's.
abbrev pub groupid_boundary : ℕ
groupid_boundary = 0x0fff_ffff

abbrev pub is_group : ℕ → Bool
is_group id = not (slt id groupid_boundary)
