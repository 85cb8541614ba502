-- ===== src/Auth/Accounts/Users.antt =====
-- What a user has that `CreateUser` enters, and who may change a password.
use prism_panel.Common.{
  ◌≤◌, ◌≡◌, ◌≢◌, ◌⊎◌, inl, inr, true, List, [], ◌∷◌, none, some, arith, Bool-cases, Option-cases,
  length, text_eq,
}
use prism_panel.Common.Text.{Text, trim_space}
use prism_panel.Common.Platform.{Platform}
use prism_panel.Auth.Login.{normalize_username}
use prism_panel.Auth.Accounts.{
  Fault, fails, gives, PanelSession, NewUser, Write, creates, sets_password, Store, Crypto,
  after_write, validated_password_hash, new_user, create_user, change_password, username_matches,
  invalid_credentials,
}
use prism_panel.Auth.Accounts.Sessions.{Reply-cases}

abbrev pub IsProper : Platform → Crypto → Text → Text → Text → Text → NewUser → Type 0
IsProper os c name display group password u =
    (u.username ≡ normalize_username os name)
    × (username_matches u.username ≡ true)
    × (u.display_name ≡ trim_space display)
    × (u.display_name ≢ [])
    × (length u.display_name ≤ 100)
    × (u.group_code ≡ group)
    × (trim_space group ≢ [])
    × (6 ≤ length password)
    × (length password ≤ 128)
    × (c.hash password ≡ some u.password_hash)

new_user-IsProper :
    (os : Platform) (c : Crypto) (name display group password : Text) (u : NewUser)
    → new_user os c name display group password ≡ gives u
    → IsProper os c name display group password u
unfolding new_user validated_password_hash
new_user-IsProper os c name display group password u e = elim (Option-cases (c.hash password)) [
  | inl h ↦ absurd (ground arith)
  | inr (hash, h) ↦ ground arith
]

abbrev pub Created : Platform → Store → Crypto → Text → Text → Text → Text → List Write → Type 0
Created os store c name display group password writes =
    (u : NewUser) × (writes ≡ creates u ∷ [])
    × (store.write (creates u) ≡ none)
    × (store.group_exists u.group_code ≡ gives true)
    × IsProper os c name display (trim_space group) password u

-- If `CreateUser` succeeds it has entered one user, in a group that exists. The name is normalised
-- and fits the pattern, the display name is trimmed, not empty and at most 100 characters long, the
-- group is not blank, and the password, of 6 to 128 characters, is stored as its hash.
pub create_user-Created :
    (os : Platform) (store : Store) (c : Crypto) (name display group password : Text)
    (writes : List Write)
    → create_user os store c name display group password ≡ (writes, gives tt)
    → Created os store c name display group password writes
unfolding create_user after_write
create_user-Created os store c name display group password writes e =
    elim (Reply-cases (store.group_exists (trim_space group))) [
      | inr (f, g) ↦ absurd (ground arith)
      | inl (exists, g) ↦
          elim (Reply-cases (new_user os c name display (trim_space group) password)) [
            | inr (f, n) ↦ absurd (ground arith)
            | inl (u, n) ↦
                let p = new_user-IsProper os c name display (trim_space group) password u n in
                elim (Option-cases (store.write (creates u))) [
                  | inr (f, w) ↦ absurd (ground arith)
                  | inl w ↦ (u, ground arith, w, ground arith, p)
                ]
          ]
    ]

hash_lem :
    (c : Crypto) (password hash : Text)
    → validated_password_hash c password ≡ gives hash
    → c.hash password ≡ some hash
unfolding validated_password_hash
hash_lem c password hash e = elim (Option-cases (c.hash password)) [
  | inl h ↦ absurd (ground arith)
  | inr (h', h) ↦ ground arith
]

abbrev pub Changed : Store → Crypto → PanelSession → Text → Text → List Write → Type 0
Changed store c s current new writes =
    (hash : Text) × (c.verify s.user.password_hash current ≡ true)
    × (6 ≤ length new)
    × (length new ≤ 128)
    × (c.hash new ≡ some hash)
    × (writes ≡ sets_password s.user.id hash (some s.token_hash) ∷ [])

-- `ChangePassword` writes nothing, or the current password was right and the one write sets the hash
-- of the new one, of 6 to 128 characters, for the user of the session, and keeps that session.
pub change_password_outcome :
    (store : Store) (c : Crypto) (s : PanelSession) (current new : Text)
    → let r = change_password store c s current new in
      ((f : Fault) × (r ≡ ([], fails f))) ⊎ Changed store c s current new r.0
unfolding change_password validated_password_hash after_write
change_password_outcome store c s current new =
    elim (Bool-cases (c.verify s.user.password_hash current)) [
      | inr wrong ↦ inl (invalid_credentials, ground arith)
      | inl right ↦ elim (Reply-cases (validated_password_hash c new)) [
        | inr (f, v) ↦ inl (f, ground arith)
        | inl (hash, v) ↦
            inr (hash, right, ground arith, ground arith, hash_lem c new hash v, ground arith)
      ]
    ]
