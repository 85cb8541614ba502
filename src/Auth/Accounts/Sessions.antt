-- ===== src/Auth/Accounts/Sessions.antt =====
-- What `Authenticate` lets in, and when it moves the end of an idle session.
use prism_panel.Common.{
  ℕ, ◌+◌, ◌≤◌, ◌<◌, ◌≡◌, refl, ◌⊎◌, inl, inr, true, false, List, [], ◌∷◌, none, leb, arith,
  Bool-cases, Option-cases,
}
use prism_panel.Common.Text.{Text}
use prism_panel.Auth.Accounts.{
  Fault, Reply, fails, gives, PanelSession, Write, touches, Store, Crypto, known, after_write,
  is_token, session_token_hash, min_time, touch_interval, renewed, authenticate,
}

pub Reply-cases :
    {A : Type 0} (r : Reply A) → ((a : A) × (r ≡ gives a)) ⊎ ((f : Fault) × (r ≡ fails f))
Reply-cases (gives a) = inl (a, refl)
Reply-cases (fails f) = inr (f, refl)

known-eq-gives : {A : Type 0} (r : Reply A) (a : A) → known r ≡ gives a → r ≡ gives a
unfolding known
known-eq-gives (gives b) a e = e
known-eq-gives (fails f) a e = ground arith

-- The session before the call, and the call left it alone.
abbrev Kept : PanelSession → PanelSession → ℕ → List Write → Type 0
Kept before s now writes =
    (now < before.last_seen_at + touch_interval)
    × (writes ≡ [])
    × (s.last_seen_at ≡ before.last_seen_at)
    × (s.idle_expires_at ≡ before.idle_expires_at)

-- The session was seen now, and the store was told so.
abbrev Renewed : Store → Text → ℕ → PanelSession → PanelSession → ℕ → List Write → Type 0
Renewed store hash idle_timeout before s now writes =
    (before.last_seen_at + touch_interval ≤ now)
    × (writes ≡ touches hash now s.idle_expires_at ∷ [])
    × (store.write (touches hash now s.idle_expires_at) ≡ none)
    × (s.last_seen_at ≡ now)
    × (s.idle_expires_at ≤ s.expires_at)
    × (s.idle_expires_at ≤ now + idle_timeout)

abbrev pub IsAuthentic : Store → Crypto → ℕ → Text → ℕ → List Write → PanelSession → Type 0
IsAuthentic store c idle_timeout token now writes s =
    (before : PanelSession) × (is_token (c.decode token) ≡ true)
    × (store.find_session (c.digest token) now ≡ gives before)
    × (store.decorate before.user ≡ gives s.user)
    × (s.token_hash ≡ before.token_hash)
    × (s.expires_at ≡ before.expires_at)
    × (Kept before s now writes ⊎ Renewed store (c.digest token) idle_timeout before s now writes)

token_lem :
    (c : Crypto) (token hash : Text)
    → session_token_hash c token ≡ gives hash
    → (is_token (c.decode token) ≡ true) × (hash ≡ c.digest token)
unfolding session_token_hash
token_lem c token hash e = ground arith

kept_lem :
    (store : Store) (c : Crypto) (idle_timeout : ℕ) (token : Text) (now : ℕ) (writes : List Write)
    (s before : PanelSession)
    → session_token_hash c token ≡ gives (c.digest token)
    → known (store.find_session (c.digest token) now) ≡ gives before
    → leb (before.last_seen_at + touch_interval) now ≡ false
    → authenticate store c idle_timeout token now ≡ (writes, gives s)
    → (store.decorate before.user ≡ gives s.user)
      × (s.token_hash ≡ before.token_hash)
      × (s.expires_at ≡ before.expires_at)
      × Kept before s now writes
unfolding authenticate
kept_lem store c idle_timeout token now writes s before h k l e =
    elim (Reply-cases (store.decorate before.user)) [
      | inl (u, d) ↦ ground arith
      | inr (f, d) ↦ absurd (ground arith)
    ]

renewed_lem :
    (store : Store) (c : Crypto) (idle_timeout : ℕ) (token : Text) (now : ℕ) (writes : List Write)
    (s before : PanelSession)
    → session_token_hash c token ≡ gives (c.digest token)
    → known (store.find_session (c.digest token) now) ≡ gives before
    → leb (before.last_seen_at + touch_interval) now ≡ true
    → authenticate store c idle_timeout token now ≡ (writes, gives s)
    → (store.decorate before.user ≡ gives s.user)
      × (s.token_hash ≡ before.token_hash)
      × (s.expires_at ≡ before.expires_at)
      × Renewed store (c.digest token) idle_timeout before s now writes
unfolding authenticate after_write renewed min_time
renewed_lem store c idle_timeout token now writes s before h k l e =
    let hash = c.digest token in
    let idle = (renewed idle_timeout now before).idle_expires_at in
    elim (Option-cases (store.write (touches hash now idle))) [
      | inr (f, w) ↦ absurd (ground arith)
      | inl w ↦ elim (Reply-cases (store.decorate before.user)) [
        | inl (u, d) ↦ ground arith
        | inr (f, d) ↦ absurd (ground arith)
      ]
    ]

-- If `Authenticate` returns a session, the token decodes to 32 bytes and the store found the session
-- under its digest; the user is read afresh and the end of the session stays. If the session was
-- seen less than 5 minutes ago nothing is written. Otherwise the store was told, without an error,
-- that it is seen now, and its idle end, which is never behind its end, moves.
pub authenticate-IsAuthentic :
    (store : Store) (c : Crypto) (idle_timeout : ℕ) (token : Text) (now : ℕ) (writes : List Write)
    (s : PanelSession)
    → authenticate store c idle_timeout token now ≡ (writes, gives s)
    → IsAuthentic store c idle_timeout token now writes s
unfolding authenticate
authenticate-IsAuthentic store c idle_timeout token now writes s e =
    elim (Reply-cases (session_token_hash c token)) [
      | inr (f, h) ↦ absurd (ground arith)
      | inl (hash, h) ↦
          let (t, same) = token_lem c token hash h in
          let h' : session_token_hash c token ≡ gives (c.digest token) = ground arith in
          elim (Reply-cases (known (store.find_session (c.digest token) now))) [
            | inr (f, k) ↦ absurd (ground arith)
            | inl (before, k) ↦
                let found = known-eq-gives (store.find_session (c.digest token) now) before k in
                elim (Bool-cases (leb (before.last_seen_at + touch_interval) now)) [
                  | inr early ↦
                      let (d, th, ex, r) =
                        kept_lem store c idle_timeout token now writes s before h' k early e in
                      (before, t, found, d, th, ex, inl r)
                  | inl due ↦
                      let (d, th, ex, r) =
                        renewed_lem store c idle_timeout token now writes s before h' k due e in
                      (before, t, found, d, th, ex, inr r)
                ]
          ]
    ]
