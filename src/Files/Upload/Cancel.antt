-- ===== src/Files/Upload/Cancel.antt =====
-- daemon/internal/files/service.go: `UploadSessionStatus` and `CancelUpload`. Where the files of a
-- session lie is an argument, by the session's id. The session's id is trimmed by the first, but not
-- by the second.
use prism_panel.Common.{
  ℕ, ◌≡◌, refl, sym, ap, ◌∙◌, inl, inr, Bool, true, false, Option, none, some, if◌then◌else◌, ◌==◌,
  text_eq, length, arith, if_true, if_false, if_both, Bool-cases, eq_refl, subst,
}
use prism_panel.Common.Text.{Text, trim_space}
use prism_panel.Common.Dict.{lookup, delete, lookup-delete}
use prism_panel.Common.Error.{
  ErrorCode, Result, ok, err, ◌>>=◌, ◌>>◌, guard, invalid_request, permission_denied,
}
use prism_panel.Files.Upload.{
  Node, regular, other, Session, Uploads, Places, or_fail, valid_session_id,
}

-- `UploadStatus`, without the entry
pub record Status : Type 0 where
  pub offset : ℕ
  pub complete : Bool

-- The size of what is no regular file is the system's.
pub record Answers : Type 0 where
  pub located : Text → Result Places
  pub stat_error : Option ErrorCode
  pub other_size : ℕ
  pub admitted : Result (Unit {0})
  pub remove_error : Option ErrorCode

abbrev pub size_of : ℕ → Option Node → ℕ
size_of other_size none = 0
size_of other_size (some (regular text)) = length text
size_of other_size (some other) = other_size

abbrev pub stat_temp : Answers → Places → Uploads → Result Status
stat_temp a p u =
    or_fail a.stat_error
    >> ok (record { offset = size_of a.other_size (lookup p.temp u.files); complete = false })

abbrev pub status_of : Answers → Places → Option Session → Uploads → Result Status
status_of a p none u = stat_temp a p u
status_of a p (some s) u =
    guard (s.path == p.temp) permission_denied
    >> (if s.published then ok (record { offset = s.size; complete = true }) else stat_temp a p u)

unfoldable pub session_status : Answers → Text → Uploads → Result Status
session_status a id u =
    guard (valid_session_id (trim_space id)) invalid_request
    >> (a.located (trim_space id) >>= λ p. status_of a p (lookup (trim_space id) u.sessions) u)

abbrev pub no_status : Status
no_status = record { offset = 0; complete = false }

abbrev pub remove_temp : Option ErrorCode → Places → Uploads → Uploads × Result Status
remove_temp (some e) p u = (u, err e)
remove_temp none p u = (record u { files = delete p.temp u.files }, ok no_status)

-- With the session off the map.
abbrev pub drop_session : Answers → Places → Option Session → Uploads → Uploads × Result Status
drop_session a p none u = remove_temp a.remove_error p u
drop_session a p (some s) u =
    if s.path == p.temp then remove_temp a.remove_error p u else (u, err permission_denied)

abbrev pub cancel_at : Answers → Text → Result Places → Uploads → Uploads × Result Status
cancel_at a id (err e) u = (u, err e)
cancel_at a id (ok p) u =
    drop_session a p (lookup id u.sessions) (record u { sessions = delete id u.sessions })

abbrev pub when_known : Answers → Text → Result Status → Uploads → Uploads × Result Status
when_known a id (err e) u = (u, err e)
when_known a id (ok status) u =
    if status.complete then (u, ok status) else cancel_at a id (a.admitted >> a.located id) u

unfoldable pub cancel_upload : Answers → Text → Uploads → Uploads × Result Status
cancel_upload a id u = when_known a id (session_status a id u) u

-- Nothing of a session has been touched.
abbrev pub IsUntouched : Text → Text → Uploads → Uploads → Type 0
IsUntouched id temp before after =
    (lookup id after.sessions ≡ lookup id before.sessions)
    × (lookup temp after.files ≡ lookup temp before.files)

-- Where an id has spaces around it, so that no session goes by it and its temporary file is another
-- one, while the session by the trimmed id is under way and nothing fails: the cancellation answers as
-- if it had been done, and the session and its file are as they were.
pub cancel_upload_untrimmed :
    (a : Answers) (id : Text) (p q : Places) (n : ℕ) (u : Uploads)
    → trim_space id == id ≡ false
    → p.temp == q.temp ≡ false
    → a.admitted ≡ ok tt
    → a.located id ≡ ok q
    → a.remove_error ≡ none
    → lookup id u.sessions ≡ none
    → session_status a id u ≡ ok (record { offset = n; complete = false })
    → ((cancel_upload a id u).1 ≡ ok no_status)
      × IsUntouched (trim_space id) p.temp u (cancel_upload a id u).0
unfolding cancel_upload
cancel_upload_untrimmed a id p q n u d d' m l r f s =
    let v : Uploads = record u { sessions = delete id u.sessions } in
    let e : cancel_upload a id u ≡ (record v { files = delete q.temp u.files }, ok no_status) =
      ap (λ (x : Result Status). when_known a id x u) s
      ∙ ap (λ (x : Result (Unit {0})). cancel_at a id (x >> a.located id) u) m
      ∙ ap (λ (x : Result Places). cancel_at a id x u) l
      ∙ ap (λ (x : Option Session). drop_session a q x v) f
      ∙ ap (λ (x : Option ErrorCode). remove_temp x q v) r in
    (
      ap (λ (x : Uploads × Result Status). x.1) e,
      (
        ap (λ (x : Uploads × Result Status). lookup (trim_space id) x.0.sessions) e
            ∙ lookup-delete (trim_space id) id u.sessions
            ∙ if_false (trim_space id == id) _ _ d,
        ap (λ (x : Uploads × Result Status). lookup p.temp x.0.files) e
            ∙ lookup-delete p.temp q.temp u.files
            ∙ if_false (p.temp == q.temp) _ _ d',
      ),
    )

-- What a successful cancellation leaves.
abbrev pub Ends : Text → Places → Status → Uploads → Uploads × Result Status → Type 0
Ends id p status u r =
    r.1 ≡ ok status
    → (status.complete ≡ true → r.0 ≡ u)
      × (status.complete ≡ false
          → (lookup id r.0.sessions ≡ none) × (lookup p.temp r.0.files ≡ none))

remove_temp-Ends :
    (failure : Option ErrorCode) (id : Text) (p : Places) (status : Status) (u : Uploads)
    → Ends id p status u (remove_temp failure p (record u { sessions = delete id u.sessions }))
remove_temp-Ends (some e) id p status u h = absurd (ground (arith, h))
remove_temp-Ends none id p status u h =
    let k : no_status ≡ status = ground (arith, h) in
    let k' : false ≡ status.complete = ap (λ (s : Status). s.complete) k in
    (
      λ c. absurd (ground (arith, k', c)),
      λ c. (
        lookup-delete id id u.sessions ∙ if_true (id == id) _ _ (eq_refl id),
        lookup-delete p.temp p.temp u.files ∙ if_true (p.temp == p.temp) _ _ (eq_refl p.temp),
      ),
    )

drop_session-Ends :
    (a : Answers) (id : Text) (p : Places) (found : Option Session) (status : Status) (u : Uploads)
    → Ends id p status u (drop_session a p found (record u { sessions = delete id u.sessions }))
drop_session-Ends a id p none status u = remove_temp-Ends a.remove_error id p status u
drop_session-Ends a id p (some s) status u =
    let v : Uploads = record u { sessions = delete id u.sessions } in
    if_both (Ends id p status u) (s.path == p.temp) (remove_temp a.remove_error p v)
      (v, err permission_denied) (remove_temp-Ends a.remove_error id p status u)
      (λ h. absurd (ground (arith, h)))

cancel_at-Ends :
    (a : Answers) (id : Text) (p : Places) (admitted : Result (Unit {0})) (status : Status)
    (u : Uploads)
    → a.located id ≡ ok p
    → Ends id p status u (cancel_at a id (admitted >> a.located id) u)
cancel_at-Ends a id p (err e) status u l h = absurd (ground (arith, h))
cancel_at-Ends a id p (ok x) status u l h =
    subst (λ (r : Result Places). Ends id p status u (cancel_at a id r u)) (sym l)
      (drop_session-Ends a id p (lookup id u.sessions) status u) h

same_status :
    (id : Text) (p : Places) (known status : Status) (u : Uploads)
    → known.complete ≡ true
    → Ends id p status u (u, ok known)
same_status id p known status u c h =
    let k : known ≡ status = ground (arith, h) in
    let k' : known.complete ≡ status.complete = ap (λ (s : Status). s.complete) k in
    (λ d. refl, λ d. absurd (ground (arith, c, k', d)))

when_known-Ends :
    (a : Answers) (id : Text) (p : Places) (known : Result Status) (status : Status) (u : Uploads)
    → a.located id ≡ ok p
    → Ends id p status u (when_known a id known u)
when_known-Ends a id p (err e) status u l h = absurd (ground (arith, h))
when_known-Ends a id p (ok known) status u l h =
    let cancelled = cancel_at a id (a.admitted >> a.located id) u in
    elim (Bool-cases known.complete) [
      | inl c ↦
          subst (Ends id p status u) (sym (if_true known.complete (u, ok known) cancelled c))
            (same_status id p known status u c) h
      | inr c ↦
          subst (Ends id p status u) (sym (if_false known.complete (u, ok known) cancelled c))
            (cancel_at-Ends a id p a.admitted status u l) h
    ]

-- A cancellation that succeeds: if its status is complete, nothing is changed; else there is no
-- session by the id that was given any more, and nothing at the temporary path of that id.
pub cancel_upload-Ends :
    (a : Answers) (id : Text) (p : Places) (status : Status) (u : Uploads)
    → a.located id ≡ ok p
    → Ends id p status u (cancel_upload a id u)
unfolding cancel_upload
cancel_upload-Ends a id p status u l = when_known-Ends a id p (session_status a id u) status u l
