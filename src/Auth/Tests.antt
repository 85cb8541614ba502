-- ===== src/Auth/Tests.antt =====
-- Runs of the login and its limiter at concrete inputs.
use prism_panel.Common.{
  ℕ, ◌+◌, ◌≡◌, refl, ◌&&◌, not, Bool, true, false, leb, ltb, List, [], ◌∷◌, some, text_eq, nat_eq,
  arith, length, ◌==◌, none,
}
use prism_panel.Common.Text.{codes, trim_space, trim_left, is_space}
use prism_panel.Common.Dict.{lookup, delete}
use prism_panel.Common.Platform.{Platform}
use prism_panel.Auth.Accounts.{
  fails, gives, PanelSession, NewUser, Write, touches, Store, Crypto, Fault, known, after_write,
  session_token_hash, min_time, renewed, authenticate,
}
use prism_panel.Auth.Accounts.Sessions.{IsAuthentic, authenticate-IsAuthentic}
use prism_panel.Auth.Limiter.{window, entry, allowed, success}
use prism_panel.Auth.Lockout.{fail_at, last, allowed-fail_at}
use prism_panel.Auth.Login.{
  User, Found, found, missing, Answers, normalize_username, admits, open_session, login, IsAdmitted,
  login_hides_users, login-IsAdmitted,
}

abbrev os : Platform
os = record { canonical_ip = some; upper = λ c. c; lower = λ c. c }

abbrev user : User
user = record { id = codes "u1"; password_hash = codes "h"; active = true; deleted = false }

abbrev answers : Found → Bool → Answers
answers who right = record {
  find = λ name. who;
  verify = λ hash. right;
  token = true;
  create_session = true;
  mark_login = true;
  decorate = true;
}

abbrev failures : List ℕ
failures = 11 ∷ 12 ∷ 13 ∷ 14 ∷ []

allowed-fail_at_example :
    allowed (fail_at [] (codes "k") (10 ∷ failures)) (codes "k" ∷ []) 20
    ≡ not (leb 4 (length failures) && ltb 20 (last 10 failures + window))
unfolding entry lookup
allowed-fail_at_example = allowed-fail_at [] (codes "k") 10 failures 20 refl (omega arith) (
  (omega arith, omega arith),
  ((omega arith, omega arith), ((omega arith, omega arith), ((omega arith, omega arith), tt))),
)

login_hides_users_example :
    login os (answers missing true) [] (codes "kim") (codes "10.0.0.1") 20
    ≡ login os (answers (found user) false) [] (codes "kim") (codes "10.0.0.1") 20
unfolding admits
login_hides_users_example =
    login_hides_users os (answers missing true) (answers (found user) false) [] (codes "kim")
      (codes "10.0.0.1") 20 user refl refl refl

login-IsAdmitted_example :
    IsAdmitted os (answers (found user) true) [] [] (codes "kim") (codes "10.0.0.1") 20 user
unfolding login normalize_username admits open_session allowed entry success lookup delete
    trim_space trim_left is_space nat_eq text_eq
login-IsAdmitted_example =
    login-IsAdmitted os (answers (found user) true) [] [] (codes "kim") (codes "10.0.0.1") 20 user
      refl

abbrev crypto : Crypto
crypto = record {
  decode = λ t. some (codes "0123456789abcdef0123456789abcdef");
  digest = λ t. t;
  hash = λ t. some t;
  verify = λ h t. h == t;
  random_id = some (codes "u2");
}

abbrev stored : PanelSession
stored = record {
  token_hash = codes "token";
  user = record { id = codes "u1"; password_hash = codes "secret" };
  last_seen_at = 0;
  expires_at = 900_000_000_000;
  idle_expires_at = 600_000_000_000;
  auth_method = [];
  credential_id = [];
}

abbrev store : Store
store = record {
  find_session = λ hash now. gives stored;
  find_api_key = λ hash now. fails Fault.broken;
  decorate = λ u. gives u;
  group_exists = λ g. gives true;
  write = λ w. none;
}

-- The session ten minutes later, with an idle time of ten minutes.
abbrev seen : PanelSession
seen = record stored { last_seen_at = 600_000_000_000; idle_expires_at = 900_000_000_000 }

abbrev touch : List Write
touch = touches (codes "token") 600_000_000_000 900_000_000_000 ∷ []

authenticate-IsAuthentic_example :
    IsAuthentic store crypto 600_000_000_000 (codes "token") 600_000_000_000 touch seen
unfolding authenticate session_token_hash known after_write renewed min_time nat_eq
authenticate-IsAuthentic_example =
    authenticate-IsAuthentic store crypto 600_000_000_000 (codes "token") 600_000_000_000 touch seen
      refl

abbrev added : NewUser
added = record {
  id = codes "u2";
  username = codes "kim";
  display_name = codes "Kim";
  group_code = codes "staff";
  password_hash = codes "secret";
}
