-- ===== src/Files/Upload/Complete.antt =====
-- What a final chunk that is answered without an error means.
use prism_panel.Common.{
  ℕ, ◌+◌, ◌≡◌, refl, sym, subst, ◌∙◌, ◌⊎◌, inl, inr, Bool, true, false, ◌&&◌, ◌||◌, [], Option,
  none, some, ◌==◌, nat_eq, text_eq, length, arith, Bool-cases, if_both, if_true, if_false, eq_refl,
}
use prism_panel.Common.Text.{Text, trim_space}
use prism_panel.Common.Dict.{lookup, insert, delete, lookup-insert}
use prism_panel.Common.Error.{
  ErrorCode, Result, ok, err, ◌>>◌, guard, upload_offset_mismatch, file_write_failed,
  permission_denied,
}
use prism_panel.Files.Upload.{
  regular, Session, Uploads, Chunk, Places, Answers, clean_up, take_in, content_of, receive,
  check_whole, check_final, link_file, place_file, reported, when_checked, complete, after_chunk,
  with_content, in_session, new_session, noted, find_session, when_located, answered, when_received,
  upload_chunk,
}

module _ (max_upload : ℕ) (digest : Text → Text) (same : Text → Text → Bool) where
  -- The target is a file of the size and with the digest that were announced.
  abbrev pub IsStored : Chunk → Places → Uploads → Type 0
  IsStored c p u =
      (content : Text) × (lookup p.target u.files ≡ some (regular content))
      × (length content ≡ c.expected_size)
      × ((c.expected_sha == []) || same c.expected_sha (digest content) ≡ true)

  -- The upload had been finished by a call with this offset.
  abbrev pub WasFinished : Chunk → Uploads → Type 0
  WasFinished c u =
      (s : Session) × (lookup (trim_space c.session_id) u.sessions ≡ some s)
      × (s.published ≡ true)
      × (s.final_offset ≡ c.offset)

  -- What a result promises if it is one.
  abbrev pub IfOk : Type 0 → Result (Unit {0}) → Type 0
  IfOk P (err e) = Unit
  IfOk P (ok x) = P

  check_final_ok :
      (a : Answers) (c : Chunk) (p : Places) (content : Text) (u : Uploads)
      → check_final max_upload digest same a c p content u ≡ ok tt
      → (length content ≡ c.expected_size)
        × ((c.expected_sha == []) || same c.expected_sha (digest content) ≡ true)
  unfolding check_whole
  check_final_ok a c p content u h = grind arith

  -- The call leaves the file as it should be, where it does not fail.
  abbrev pub Stores : Chunk → Places → Uploads × Result (Unit {0}) → Type 0
  Stores c p r = IfOk (IsStored c p r.0) r.1

  reported-Stores :
      (failure : Option ErrorCode) (id : Text) (c : Chunk) (p : Places) (s : Session)
      (content : Text) (u : Uploads)
      → length content ≡ c.expected_size
      → (c.expected_sha == []) || same c.expected_sha (digest content) ≡ true
      → Stores c p (reported failure id c p s content u)
  reported-Stores (some e) id c p s content u l d = tt
  reported-Stores none id c p s content u l d = (
    content,
    ground (
      arith,
      lookup-insert p.target p.target (regular content) (delete p.temp u.files),
      eq_refl p.target,
    ),
    l,
    d,
  )

  place_file-Stores :
      (a : Answers) (id : Text) (c : Chunk) (p : Places) (s : Session) (content : Text)
      (failure : Option ErrorCode) (u : Uploads)
      → length content ≡ c.expected_size
      → (c.expected_sha == []) || same c.expected_sha (digest content) ≡ true
      → Stores c p (place_file max_upload digest same a id c p s content failure u)
  place_file-Stores a id c p s content (some e) u l d = tt
  place_file-Stores a id c p s content none u l d =
      if_both (Stores c p) a.unlinks (reported a.report_error id c p s content u)
        (link_file p content u, err file_write_failed)
        (reported-Stores a.report_error id c p s content u l d) tt

  when_checked-Stores :
      (a : Answers) (id : Text) (c : Chunk) (p : Places) (s : Session) (content : Text)
      (r : Result (Unit {0})) (u : Uploads)
      → check_final max_upload digest same a c p content u ≡ r
      → Stores c p (when_checked max_upload digest same a id c p s content r u)
  when_checked-Stores a id c p s content (err e) u h = tt
  when_checked-Stores a id c p s content (ok x) u h =
      let (l, d) = check_final_ok a c p content u h in
      place_file-Stores a id c p s content a.publish_error u l d

  after_chunk-Stores :
      (a : Answers) (id : Text) (c : Chunk) (p : Places) (s : Session) (u : Uploads)
      (r : Text × Result (Unit {0}))
      → c.final ≡ true
      → Stores c p (after_chunk max_upload digest same a id c p s u r)
  after_chunk-Stores a id c p s u (content, err e) f = tt
  after_chunk-Stores a id c p s u (content, ok x) f =
      let filled : Uploads = record u { files = insert p.temp (regular content) u.files } in
      subst (Stores c p)
        (sym (
          if_true c.final (complete max_upload digest same a id c p s content filled)
            (filled, ok tt) f))
        (when_checked-Stores a id c p s content
          (check_final max_upload digest same a c p content filled) filled refl)

  with_content-Stores :
      (a : Answers) (id : Text) (c : Chunk) (chunk : Text) (p : Places) (s : Session) (u : Uploads)
      (r : Result Text)
      → c.final ≡ true
      → Stores c p (with_content max_upload digest same a id c chunk p s u r)
  with_content-Stores a id c chunk p s u (err e) f = tt
  with_content-Stores a id c chunk p s u (ok content) f =
      after_chunk-Stores a id c p s u (take_in a chunk c.offset content) f

  -- Of a session: the file is stored now, or it had been.
  abbrev pub StoresOr : Type 0 → Chunk → Places → Uploads × Result (Unit {0}) → Type 0
  StoresOr P c p r = IfOk (IsStored c p r.0 ⊎ P) r.1

  weaken :
      (P : Type 0) (c : Chunk) (p : Places) (u : Uploads) (r : Result (Unit {0}))
      → Stores c p (u, r)
      → StoresOr P c p (u, r)
  weaken P c p u (err e) h = tt
  weaken P c p u (ok x) h = inl h

  IfOk-guard : (b : Bool) (e : ErrorCode) (P : Type 0) → (b ≡ true → P) → IfOk P (guard b e)
  IfOk-guard false e P h = tt
  IfOk-guard true e P h = h refl

  in_session-StoresOr :
      (a : Answers) (id : Text) (c : Chunk) (chunk : Text) (p : Places) (s : Session) (u : Uploads)
      → c.final ≡ true
      → StoresOr
          ((s.published ≡ true) × (s.final_offset ≡ c.offset))
          c
          p
          (in_session max_upload digest same a id c chunk p s u)
  unfolding in_session
  in_session-StoresOr a id c chunk p s u f =
      let P = (s.published ≡ true) × (s.final_offset ≡ c.offset) in
      let again = guard (c.final && (c.offset == s.final_offset)) upload_offset_mismatch in
      let text = guard a.opens file_write_failed >> content_of (lookup p.temp u.files) in
      let r = with_content max_upload digest same a id c chunk p s u text in
      elim (Bool-cases s.published) [
        | inl y ↦ subst (StoresOr P c p) (sym (if_true s.published (u, again) r y)) (
            IfOk-guard (c.final && (c.offset == s.final_offset)) upload_offset_mismatch
              (IsStored c p u ⊎ P) (λ h. inr (y, ground (arith, f, h))))
        | inr n ↦
            subst (StoresOr P c p) (sym (if_false s.published (u, again) r n))
              (weaken P c p r.0 r.1 (with_content-Stores a id c chunk p s u text f))
      ]

  mapped :
      (P Q : Type 0) (c : Chunk) (p : Places) (u : Uploads) (r : Result (Unit {0}))
      → (P → Q)
      → StoresOr P c p (u, r)
      → StoresOr Q c p (u, r)
  mapped P Q c p u (err e) f h = tt
  mapped P Q c p u (ok x) f h = elim h [ inl i ↦ inl i | inr q ↦ inr (f q) ]

  noted-StoresOr :
      (a : Answers) (id : Text) (c : Chunk) (chunk : Text) (p : Places) (s : Session) (u : Uploads)
      (Q : Type 0)
      → c.final ≡ true
      → ((s.published ≡ true) × (s.final_offset ≡ c.offset) → Q)
      → StoresOr Q c p (noted max_upload digest same a id c chunk p s u)
  noted-StoresOr a id c chunk p s u Q f g =
      let v : Uploads = record u { sessions = insert id s u.sessions } in
      let r = in_session max_upload digest same a id c chunk p s v in
      mapped ((s.published ≡ true) × (s.final_offset ≡ c.offset)) Q c p r.0 r.1 g
        (in_session-StoresOr a id c chunk p s v f)

  find_session-StoresOr :
      (a : Answers) (id : Text) (c : Chunk) (chunk : Text) (p : Places) (u : Uploads)
      (found : Option Session)
      → lookup id u.sessions ≡ found
      → c.final ≡ true
      → StoresOr
          ((s : Session) × (lookup id u.sessions ≡ some s)
            × (s.published ≡ true)
            × (s.final_offset ≡ c.offset))
          c
          p
          (find_session max_upload digest same a id c chunk p found u)
  find_session-StoresOr a id c chunk p u none e f =
      noted-StoresOr a id c chunk p (new_session p.temp a.now) u _ f
        (λ h. absurd (ground (arith, h.0)))
  find_session-StoresOr a id c chunk p u (some s) e f =
      let Q =
        (t : Session) × (lookup id u.sessions ≡ some t)
        × (t.published ≡ true)
        × (t.final_offset ≡ c.offset) in
      let s' : Session = record s { last_used = a.now } in
      if_both (StoresOr Q c p) (s.path == p.temp) (noted max_upload digest same a id c chunk p s' u)
        (u, err permission_denied) (noted-StoresOr a id c chunk p s' u Q f (λ h. (s, e, h.0, h.1)))
        tt

  -- The same, of a call that has found its paths.
  abbrev pub AnswersFor : Answers → Chunk → Uploads → Uploads → Type 0
  AnswersFor a c before after =
      (p : Places) × (a.located ≡ ok p) × (IsStored c p after ⊎ WasFinished c before)

  with_places :
      (a : Answers) (c : Chunk) (p : Places) (before after : Uploads) (r : Result (Unit {0}))
      → a.located ≡ ok p
      → StoresOr (WasFinished c before) c p (after, r)
      → IfOk (AnswersFor a c before after) r
  with_places a c p before after (err e) l h = tt
  with_places a c p before after (ok x) l h = (p, l, h)

  admitted_located :
      (r : Result (Unit {0})) (l : Result Places) (p : Places) → r >> l ≡ ok p → l ≡ ok p
  admitted_located (err e) l p h = absurd (ground (arith, h))
  admitted_located (ok x) l p h = h

  when_located-IfOk :
      (a : Answers) (c : Chunk) (chunk : Text) (r : Result Places) (u : Uploads)
      → a.admitted >> a.located ≡ r
      → c.final ≡ true
      → let v = when_located max_upload digest same a (trim_space c.session_id) c chunk r u in
        IfOk (AnswersFor a c u v.0) v.1
  when_located-IfOk a c chunk (err e) u h f = tt
  when_located-IfOk a c chunk (ok p) u h f =
      let id = trim_space c.session_id in
      let v = find_session max_upload digest same a id c chunk p (lookup id u.sessions) u in
      with_places a c p u v.0 v.1 (admitted_located a.admitted a.located p h)
        (find_session-StoresOr a id c chunk p u (lookup id u.sessions) refl f)

  answered-IfOk :
      (next : ℕ) (a : Answers) (c : Chunk) (before after : Uploads) (r : Result (Unit {0})) (n : ℕ)
      → (answered next (after, r)).1 ≡ ok n
      → IfOk (AnswersFor a c before after) r
      → (AnswersFor a c before (answered next (after, r)).0) × (n ≡ next)
  answered-IfOk next a c before after (err e) n h k = absurd (ground (arith, h))
  answered-IfOk next a c before after (ok x) n h k = (k, ground (arith, h))

  receive_final :
      (a : Answers) (c : Chunk) (chunk : Text)
      → receive max_upload a c ≡ ok chunk
      → c.final ≡ true
      → c.offset + length chunk ≡ c.expected_size
  unfolding receive
  receive_final a c chunk h f = grind arith

  when_received-IfOk :
      (a : Answers) (c : Chunk) (r : Result Text) (u : Uploads) (n : ℕ)
      → receive max_upload a c ≡ r
      → c.final ≡ true
      → (when_received max_upload digest same a c r u).1 ≡ ok n
      → AnswersFor a c (clean_up a.now u) (when_received max_upload digest same a c r u).0
        × (n ≡ c.expected_size)
  when_received-IfOk a c (err e) u n g f h = absurd (ground (arith, h))
  when_received-IfOk a c (ok chunk) u n g f h =
      let v =
        when_located max_upload digest same a (trim_space c.session_id) c chunk
          (a.admitted >> a.located) (clean_up a.now u) in
      let (k, e) =
        answered-IfOk (c.offset + length chunk) a c (clean_up a.now u) v.0 v.1 n h
          (when_located-IfOk a c chunk (a.admitted >> a.located) (clean_up a.now u) refl f) in
      (k, e ∙ receive_final a c chunk g f)

  -- A final chunk that is answered without an error says that the file is complete: the answer is the
  -- announced size, and the target is a file of that size and with the announced digest, if one was
  -- announced; or the session had been finished before by a call with the same offset.
  pub upload_chunk_final :
      (a : Answers) (c : Chunk) (u : Uploads) (n : ℕ)
      → c.final ≡ true
      → (upload_chunk max_upload digest same a c u).1 ≡ ok n
      → AnswersFor a c (clean_up a.now u) (upload_chunk max_upload digest same a c u).0
        × (n ≡ c.expected_size)
  unfolding upload_chunk
  upload_chunk_final a c u n f h = when_received-IfOk a c (receive max_upload a c) u n refl f h
