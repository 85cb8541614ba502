-- ===== src/Auth/Accounts.antt =====
-- panel/internal/auth/service.go and password.go: sessions, keys and passwords. The store, the
-- codec of base64, the digest and the password hash are arguments; a text is a list of code points.
-- What a call writes to the store is given beside its result.
pub mod Sessions
pub mod Users
use prism_panel.Common.{
  ℕ, zero, suc, ◌+◌, Bool, true, false, ◌&&◌, ◌||◌, not, List, [], ◌∷◌, Option, none, some, ltb,
  leb, if◌then◌else◌, ◌==◌, nat_eq, text_eq, length, drop,
}
use prism_panel.Common.Text.{Text, codes, trim_space, has_prefix}
use prism_panel.Common.Platform.{Platform}
use prism_panel.Auth.Login.{normalize_username}

-- The errors of the service, and those of the store that it passes on.
pub data Fault : Type 0 where
  unauthenticated invalid_credentials invalid_input not_found broken : Fault

pub data Reply (A : Type 0) : Type 0 where
  fails : Fault → Reply A
  gives : A → Reply A

infixl 5 ◌>>=◌
abbrev pub ◌>>=◌ : {A B : Type 0} → Reply A → (A → Reply B) → Reply B
fails f >>= k = fails f
gives a >>= k = k a

infixl 5 ◌>>◌
abbrev pub ◌>>◌ : {B : Type 0} → Reply (Unit {0}) → Reply B → Reply B
checked >> k = checked >>= λ done. k

abbrev pub demand : Bool → Fault → Reply (Unit {0})
demand holds f = if holds then gives tt else fails f

pub record Account : Type 0 where
  pub id : Text
  pub password_hash : Text

pub record PanelSession : Type 0 where
  pub token_hash : Text
  pub user : Account
  pub last_seen_at : ℕ
  pub expires_at : ℕ
  pub idle_expires_at : ℕ
  pub auth_method : Text
  pub credential_id : Text

pub record NewUser : Type 0 where
  pub id : Text
  pub username : Text
  pub display_name : Text
  pub group_code : Text
  pub password_hash : Text

pub data Write : Type 0 where
  touches : Text → ℕ → ℕ → Write
  touches_key : Text → ℕ → Write
  sets_password : Text → Text → Option Text → Write
  revokes : Text → Write
  creates creates_admin : NewUser → Write

-- What the store answers to one call; `none` is a write without an error.
pub record Store : Type 0 where
  pub find_session : Text → ℕ → Reply PanelSession
  pub find_api_key : Text → ℕ → Reply (Text × Account)
  pub decorate : Account → Reply Account
  pub group_exists : Text → Reply Bool
  pub write : Write → Option Fault

pub record Crypto : Type 0 where
  -- `base64.RawURLEncoding.DecodeString`, and the hexadecimal SHA-256
  pub decode : Text → Option (List ℕ)
  pub digest : Text → Text
  -- `HashPassword` with its salt, `VerifyPassword`, and `randomHex(16)`
  pub hash : Text → Option Text
  pub verify : Text → Text → Bool
  pub random_id : Option Text

abbrev pub or_broken : {A : Type 0} → Option A → Reply A
or_broken none = fails broken
or_broken (some a) = gives a

-- `errors.Is(err, store.ErrNotFound)` becomes `ErrUnauthenticated`.
unfoldable pub known : {A : Type 0} → Reply A → Reply A
known (gives a) = gives a
known (fails not_found) = fails unauthenticated
known (fails f) = fails f

-- A write, and what follows it.
unfoldable pub after_write :
    {A : Type 0} → Store → Write → (Unit {0} → Reply A) → List Write × Reply A
after_write store w next = (w ∷ [], elim (store.write w) [ none ↦ next tt | some f ↦ fails f ])

abbrev pub is_token : Option (List ℕ) → Bool
is_token none = false
is_token (some raw) = length raw == 32

unfoldable pub session_token_hash : Crypto → Text → Reply Text
session_token_hash c token =
    if is_token (c.decode token) then gives (c.digest token) else fails broken

unfoldable pub api_key_token_hash : Crypto → Text → Reply Text
api_key_token_hash c token =
    if has_prefix token (codes "ppk_") && is_token (c.decode (drop 4 token))
    then gives (c.digest token)
    else fails broken

unfoldable pub min_time : ℕ → ℕ → ℕ
min_time left right = if ltb left right then left else right

-- 5 minutes
abbrev pub touch_interval : ℕ
touch_interval = 300_000_000_000

-- The session after the touch, where one is due.
unfoldable pub renewed : ℕ → ℕ → PanelSession → PanelSession
renewed idle_timeout now s = record s {
  last_seen_at = now;
  idle_expires_at = min_time (now + idle_timeout) s.expires_at;
}

abbrev pub decorated : Store → PanelSession → Reply PanelSession
decorated store s = do user ← store.decorate s.user; gives (record s { user = user })

unfoldable pub authenticate : Store → Crypto → ℕ → Text → ℕ → List Write × Reply PanelSession
authenticate store c idle_timeout token now = elim (session_token_hash c token) [
  | fails f ↦ ([], fails unauthenticated)
  | gives hash ↦ elim (known (store.find_session hash now)) [
    | fails f ↦ ([], fails f)
    | gives s ↦
        let s' = renewed idle_timeout now s in
        if leb (s.last_seen_at + touch_interval) now
        then after_write store (touches hash now s'.idle_expires_at) (λ _. decorated store s')
        else ([], decorated store s)
  ]
]

abbrev pub key_session : Text → Text → Account → PanelSession
key_session hash key user = record {
  token_hash = hash;
  user = user;
  last_seen_at = 0;
  expires_at = 0;
  idle_expires_at = 0;
  auth_method = codes "api_key";
  credential_id = key;
}

unfoldable pub authenticate_api_key : Store → Crypto → Text → ℕ → List Write × Reply PanelSession
authenticate_api_key store c raw now = elim (api_key_token_hash c (trim_space raw)) [
  | fails f ↦ ([], fails unauthenticated)
  | gives hash ↦ elim (known (store.find_api_key hash now)) [
    | fails f ↦ ([], fails f)
    | gives (key, user) ↦
        after_write store (touches_key key now)
          (λ _. do user' ← store.decorate user; gives (key_session hash key user'))
  ]
]

unfoldable pub logout : Store → Crypto → Text → List Write × Reply (Unit {0})
logout store c token = elim (session_token_hash c token) [
  | fails f ↦ ([], gives tt)
  | gives hash ↦ after_write store (revokes hash) (λ _. gives tt)
]

abbrev pub password_ok : Text → Bool
password_ok password = leb 6 (length password) && leb (length password) 128

unfoldable pub validated_password_hash : Crypto → Text → Reply Text
validated_password_hash c password =
    if password_ok password then or_broken (c.hash password) else fails invalid_input

abbrev pub set_password : Store → Crypto → Text → Text → Option Text → List Write × Reply (Unit {0})
set_password store c user password keep = elim (validated_password_hash c password) [
  | fails f ↦ ([], fails f)
  | gives hash ↦ after_write store (sets_password user hash keep) (λ _. gives tt)
]

unfoldable pub change_password :
    Store → Crypto → PanelSession → Text → Text → List Write × Reply (Unit {0})
change_password store c s current new =
    if not (c.verify s.user.password_hash current)
    then ([], fails invalid_credentials)
    else set_password store c s.user.id new (some s.token_hash)

unfoldable pub reset_password : Store → Crypto → Text → Text → List Write × Reply (Unit {0})
reset_password store c user password = set_password store c user password none

abbrev pub is_alnum : ℕ → Bool
is_alnum c = (leb 97 c && leb c 122) || (leb 48 c && leb c 57)

abbrev pub is_name_char : ℕ → Bool
is_name_char c = is_alnum c || (c == 46) || (c == 95) || (c == 45)

unfoldable pub all_of : (ℕ → Bool) → Text → Bool
all_of p [] = true
all_of p (c ∷ cs) = p c && all_of p cs

-- `^[a-z0-9][a-z0-9._-]{2,31}$`
unfoldable pub username_matches : Text → Bool
username_matches [] = false
username_matches (c ∷ cs) =
    is_alnum c && all_of is_name_char cs && leb 2 (length cs) && leb (length cs) 31

unfoldable pub new_user : Platform → Crypto → Text → Text → Text → Text → Reply NewUser
new_user os c name display group password =
    let username = normalize_username os name in
    let display_name = trim_space display in
    (do
      demand (username_matches username) invalid_input
      demand (not ((display_name == []) || ltb 100 (length display_name))) invalid_input
      demand (not (trim_space group == [])) invalid_input
      hash ← validated_password_hash c password
      id ← or_broken c.random_id
      gives (record {
        id = id;
        username = username;
        display_name = display_name;
        group_code = group;
        password_hash = hash;
      }))

unfoldable pub create_user :
    Platform → Store → Crypto → Text → Text → Text → Text → List Write × Reply (Unit {0})
create_user os store c name display group_code password =
    let group = trim_space group_code in
    elim (store.group_exists group) [
      | fails f ↦ ([], fails f)
      | gives exists ↦
          if not exists
          then ([], fails invalid_input)
          else (elim (new_user os c name display group password) [
            | fails f ↦ ([], fails f)
            | gives user ↦ after_write store (creates user) (λ _. gives tt)
          ])
    ]

unfoldable pub create_initial_admin :
    Platform → Store → Crypto → Text → Text → Text → List Write × Reply (Unit {0})
create_initial_admin os store c name display password =
    elim (new_user os c name display (codes "super_admin") password) [
      | fails f ↦ ([], fails f)
      | gives user ↦ after_write store (creates_admin user) (λ _. gives tt)
    ]
