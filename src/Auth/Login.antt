-- ===== src/Auth/Login.antt =====
-- panel/internal/auth/service.go: `Login`. What the store, the password hash and the source of
-- randomness answer is an argument; the session's token and times are left out.
use prism_panel.Common.{
  ℕ, ◌≡◌, Bool, true, false, ◌&&◌, not, List, [], ◌∷◌, ◌++◌, map, if◌then◌else◌, arith, nat_eq,
  text_eq,
}
use prism_panel.Common.Text.{Text, codes, trim_space}
use prism_panel.Common.Platform.{Platform}
use prism_panel.Auth.Limiter.{Limiter, entry, allowed, failure, success, zero_attempt}
use prism_panel.Auth.Lockout.{entry-success}

pub record User : Type 0 where
  pub id : Text
  pub password_hash : Text
  pub active : Bool
  pub deleted : Bool

-- `FindUserByUsername`: a user, `ErrNotFound`, or another error.
pub data Found : Type 0 where
  found : User → Found
  missing broken : Found

-- `verify hash` is `VerifyPassword(hash, password)`; the others say whether a step succeeds.
pub record Answers : Type 0 where
  pub find : Text → Found
  pub verify : Text → Bool
  pub token : Bool
  pub create_session : Bool
  pub mark_login : Bool
  pub decorate : Bool

pub data Outcome : Type 0 where
  limited invalid_credentials failed : Outcome
  session : User → Outcome

unfoldable pub normalize_username : Platform → Text → Text
normalize_username os name = map os.lower (trim_space name)

abbrev pub keys_of : Text → Text → List Text
keys_of username source = (codes "account:" ++ username) ∷ (codes "ip:" ++ source) ∷ []

-- `!valid || user.Status != UserActive || user.DeletedAt != nil`, negated
unfoldable pub admits : Answers → User → Bool
admits a u = a.verify u.password_hash && (u.active && not u.deleted)

-- What follows a valid password; `MarkLogin` undoes the session where it fails.
unfoldable pub open_session : Answers → Limiter → List Text → User → Limiter × Outcome
open_session a l keys u =
    if not (a.token && (a.create_session && a.mark_login))
    then (l, failed)
    else (success l keys, if a.decorate then session u else failed)

unfoldable pub login : Platform → Answers → Limiter → Text → Text → ℕ → Limiter × Outcome
login os a l name source now =
    let username = normalize_username os name in
    let keys = keys_of username source in
    if not (allowed l keys now) then (l, limited) else (elim (a.find username) [
      | broken ↦ (l, failed)
      | missing ↦ (failure l keys now, invalid_credentials)
      | found u ↦
          if admits a u then open_session a l keys u else (failure l keys now, invalid_credentials)
    ])

-- What the login looks like from outside where the name is unknown is what it looks like where the
-- user exists and the password is wrong, or the user is disabled or deleted: one result, one state
-- of the limiter.
pub login_hides_users :
    (os : Platform) (a b : Answers) (l : Limiter) (name source : Text) (now : ℕ) (u : User)
    → a.find (normalize_username os name) ≡ missing
    → b.find (normalize_username os name) ≡ found u
    → admits b u ≡ false
    → login os a l name source now ≡ login os b l name source now
unfolding login
login_hides_users os a b l name source now u m f w = ground arith

pub record IsAdmitted (os : Platform) (a : Answers) (l l' : Limiter) (name source : Text) (now : ℕ)
    (u : User) : Type 0 where
  pub known : a.find (normalize_username os name) ≡ found u
  pub allowed_before : allowed l (keys_of (normalize_username os name) source) now ≡ true
  pub right_password : a.verify u.password_hash ≡ true
  pub is_active : u.active ≡ true
  pub not_deleted : u.deleted ≡ false
  pub account_cleared : entry l' (codes "account:" ++ normalize_username os name) ≡ zero_attempt
  pub source_cleared : entry l' (codes "ip:" ++ source) ≡ zero_attempt

login_inv :
    (os : Platform) (a : Answers) (l l' : Limiter) (name source : Text) (now : ℕ) (u : User)
    → login os a l name source now ≡ (l', session u)
    → (a.find (normalize_username os name) ≡ found u)
      × (allowed l (keys_of (normalize_username os name) source) now ≡ true)
      × (a.verify u.password_hash ≡ true)
      × (u.active ≡ true)
      × (u.deleted ≡ false)
      × (l' ≡ success l (keys_of (normalize_username os name) source))
unfolding login open_session admits
login_inv os a l l' name source now u h = ground arith

-- A login hands out a session only to a user that exists, is active and not deleted, with a
-- password that verifies, while neither the account nor the source is blocked; and it clears the
-- record of both.
pub login-IsAdmitted :
    (os : Platform) (a : Answers) (l l' : Limiter) (name source : Text) (now : ℕ) (u : User)
    → login os a l name source now ≡ (l', session u)
    → IsAdmitted os a l l' name source now u
login-IsAdmitted os a l l' name source now u h =
    let (f, al, v, ac, de, e) = login_inv os a l l' name source now u h in
    let keys = keys_of (normalize_username os name) source in
    record {
      known = f;
      allowed_before = al;
      right_password = v;
      is_active = ac;
      not_deleted = de;
      account_cleared =
          rw e
            (ground (arith, entry-success l keys (codes "account:" ++ normalize_username os name)));
      source_cleared = rw e (ground (arith, entry-success l keys (codes "ip:" ++ source)));
    }
