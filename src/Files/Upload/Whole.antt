-- ===== src/Files/Upload/Whole.antt =====
-- What a call does with the next part of a file, where nothing fails.
use prism_panel.Common.{
  ℕ, zero, suc, ◌+◌, ◌-◌, ◌≤◌, ◌≡◌, refl, ap, subst, ◌∙◌, ◌⊎◌, inl, inr, Bool, true, false, not,
  List, [], ◌∷◌, ◌++◌, Option, none, some, if◌then◌else◌, ◌==◌, nat_eq, text_eq, eq_refl, length,
  arith, take, ltb, if_true, if_false,
}
use prism_panel.Common.Text.{Text, trim_space}
use prism_panel.Common.Dict.{Dict, lookup, insert, lookup-insert}
use prism_panel.Common.Error.{Result, ok, err, permission_denied}
use prism_panel.Files.Upload.{
  Node, regular, Session, Uploads, Chunk, Places, Answers, take_in, content_of, receive, complete,
  after_chunk, with_content, in_session, new_session, noted, find_session, when_located, answered,
  when_received, upload_chunk, upload_chunk_size, limit_read, valid_session_id, upload_session_ttl,
}
use prism_panel.Files.Upload.Lifetime.{
  not_ltb, clean_up_recent, LastsFrom, LastsFrom-AllRecent, insert-LastsFrom,
}

-- Everything goes well.
abbrev pub well : ℕ → Places → Answers
well now p = record {
  now = now;
  has_slot = true;
  receives = true;
  admitted = ok tt;
  located = ok p;
  opens = true;
  reads = true;
  write_fails = none;
  syncs = true;
  measures = true;
  hashes = true;
  target_error = none;
  reads_version = true;
  publish_error = none;
  restores = true;
  unlinks = true;
  report_error = none;
}

-- A part of a new file of a size and a digest.
abbrev pub chunk_of : Text → ℕ → Text → ℕ → Text → Chunk
chunk_of id total sha offset part = record {
  session_id = id;
  body = part;
  offset = offset;
  final = offset + length part == total;
  expected_size = total;
  expected_sha = sha;
  overwrite = false;
  expected_version = [];
}

-- Calls are given by their times and the parts that they send.
abbrev pub concat : List (ℕ × Text) → Text
concat [] = []
concat ((now, part) ∷ calls) = part ++ concat calls

abbrev pub AllFit : List (ℕ × Text) → Type 0
AllFit [] = Unit
AllFit ((now, part) ∷ calls) = (1 ≤ length part) × (length part ≤ upload_chunk_size) × AllFit calls

take_whole : (n : ℕ) (xs : Text) → length xs ≤ n → take n xs ≡ xs
take_whole zero [] h = refl
take_whole zero (x ∷ xs) h = absurd (omega (arith, h))
take_whole (suc n) [] h = refl
take_whole (suc n) (x ∷ xs) h = ap (λ (ys : Text). x ∷ ys) (take_whole n xs (omega (arith, h)))

limit_read_whole : (n : ℕ) (xs : Text) → length xs ≤ n → limit_read n xs ≡ xs
unfolding limit_read
limit_read_whole n xs h = take_whole n xs h

agrees : (b : Bool) → (if b then b else not b) ≡ true
agrees true = refl
agrees false = refl

receive_part :
    (max_upload now : ℕ) (p : Places) (id sha part : Text) (total offset : ℕ)
    → valid_session_id (trim_space id) ≡ true
    → total ≤ max_upload
    → length part ≤ upload_chunk_size
    → offset + length part ≤ total
    → receive max_upload (well now p) (chunk_of id total sha offset part) ≡ ok part
unfolding receive
receive_part max_upload now p id sha part total offset v m l t =
    let e : limit_read (upload_chunk_size + 1) part ≡ part =
      limit_read_whole (upload_chunk_size + 1) part (omega (arith, l)) in
    let b : ltb max_upload total ≡ false = not_ltb max_upload total m in
    let c : ltb total offset ≡ false = not_ltb total offset (omega (arith, t)) in
    let d : ltb upload_chunk_size (length part) ≡ false =
      not_ltb upload_chunk_size (length part) l in
    let f : ltb (total - offset) (length part) ≡ false =
      not_ltb (total - offset) (length part) (omega (arith, t)) in
    rw (v, e, b, c, d, f, agrees (offset + length part == total), receive) refl

take_in_next :
    (now : ℕ) (p : Places) (part sent : Text)
    → 1 ≤ length part
    → take_in (well now p) part (length sent) sent ≡ (sent ++ part, ok tt)
unfolding take_in
take_in_next now p [] sent h = absurd (omega (arith, h))
take_in_next now p (x ∷ xs) sent h = ground arith

-- A session that waits for more.
abbrev pub IsOpen : Text → Places → Dict Text Session → Type 0
IsOpen id p sessions =
    (lookup id sessions ≡ none)
    ⊎ ((s : Session) × (lookup id sessions ≡ some s) × (s.path ≡ p.temp) × (s.published ≡ false))

-- What has been sent is in the temporary file, and there is no file at the target yet.
pub record IsReady (end last : ℕ) (id : Text) (p : Places) (sent : Text) (u : Uploads)
    : Type 0 where
  pub kept : content_of (lookup p.temp u.files) ≡ ok sent
  pub free : lookup p.target u.files ≡ none
  pub waiting : IsOpen id p u.sessions
  pub lasting : LastsFrom end last id u.sessions

-- The state with a session noted and a temporary file.
abbrev pub filled : Text → Places → Session → Text → Uploads → Uploads
filled id p s content u = record u {
  sessions = insert id s u.sessions;
  files = insert p.temp (regular content) u.files;
}

abbrev pub IsWaiting : ℕ → Places → Session → Type 0
IsWaiting now p s = (s.path ≡ p.temp) × (s.published ≡ false) × (s.last_used ≡ now)

pub at_own : (k : Text) (v : Node) (m : Dict Text Node) → lookup k (insert k v m) ≡ some v
at_own k v m = ground (arith, lookup-insert k k v m, eq_refl k)

own_session : (k : Text) (s : Session) (m : Dict Text Session) → lookup k (insert k s m) ≡ some s
own_session k s m = ground (arith, lookup-insert k k s m, eq_refl k)

pub filled-IsReady :
    (end last now : ℕ) (id : Text) (p : Places) (sent content : Text) (s : Session) (u : Uploads)
    → p.target == p.temp ≡ false
    → IsWaiting now p s
    → IsReady end last id p sent u
    → IsReady end now id p content (filled id p s content u)
filled-IsReady end last now id p sent content s u d (a, b, l) r = record {
  kept = ap (λ (o : Option Node). content_of o) (at_own p.temp (regular content) u.files);
  free = ground (arith, lookup-insert p.target p.temp (regular content) u.files, r.free);
  waiting = inr (s, own_session id s u.sessions, a, b);
  lasting = insert-LastsFrom end last now id s u.sessions l r.lasting;
}

module _ (max_upload : ℕ) (digest : Text → Text) (same : Text → Text → Bool) where
  found_open :
      (a : Answers) (id : Text) (c : Chunk) (chunk : Text) (p : Places) (u : Uploads)
      → IsOpen id p u.sessions
      → (s : Session) × (find_session max_upload digest same a id c chunk p (lookup id u.sessions) u
          ≡ noted max_upload digest same a id c chunk p s u)
        × IsWaiting a.now p s
  found_open a id c chunk p u (inl e) = (
    new_session p.temp a.now,
    ap (λ (o : Option Session). find_session max_upload digest same a id c chunk p o u) e,
    (refl, refl, refl),
  )
  found_open a id c chunk p u (inr (s, e, f, g)) =
      let t : Session = record s { last_used = a.now } in
      let h : s.path == p.temp ≡ true =
        subst (λ (x : Text). s.path == x ≡ true) f (eq_refl s.path) in
      (
        t,
        ap (λ (o : Option Session). find_session max_upload digest same a id c chunk p o u) e
            ∙ if_true (s.path == p.temp) (noted max_upload digest same a id c chunk p t u)
                (u, err permission_denied) h,
        (f, g, refl),
      )

  in_open :
      (now : ℕ) (id : Text) (c : Chunk) (chunk : Text) (p : Places) (s : Session) (u : Uploads)
      (sent : Text)
      → s.published ≡ false
      → content_of (lookup p.temp u.files) ≡ ok sent
      → in_session max_upload digest same (well now p) id c chunk p s u
        ≡ after_chunk max_upload digest same
            (well now p)
            id
            c
            p
            s
            u
            (take_in (well now p) chunk c.offset sent)
  unfolding in_session
  in_open now id c chunk p s u sent f e =
      if_false s.published _ _ f
      ∙ ap
          (λ (r : Result Text). with_content max_upload digest same (well now p) id c chunk p s u r)
          e

  -- What a call for the next part comes to.
  abbrev pub next_state :
      ℕ → Text → Chunk → Places → Session → Text → Uploads → Uploads × Result (Unit {0})
  next_state now id c p s content u =
      if c.final
      then complete max_upload digest same (well now p) id c p s content (filled id p s content u)
      else (filled id p s content u, ok tt)

  pub reaches :
      (end last now : ℕ) (p : Places) (id sha part sent : Text) (total offset : ℕ) (u : Uploads)
      → now ≤ end
      → now ≤ last + upload_session_ttl
      → valid_session_id (trim_space id) ≡ true
      → total ≤ max_upload
      → 1 ≤ length part
      → length part ≤ upload_chunk_size
      → offset ≡ length sent
      → offset + length part ≤ total
      → IsReady end last (trim_space id) p sent u
      → (s : Session) × (upload_chunk max_upload digest same
            (well now p)
            (chunk_of id total sha offset part)
            u
          ≡ answered (offset + length part) (
              next_state now
                (trim_space id)
                (chunk_of id total sha offset part)
                p
                s
                (sent ++ part)
                u))
        × IsWaiting now p s
  unfolding upload_chunk
  reaches end last now p id sha part sent total offset u i1 i2 v m k l o t r =
      let a = well now p in
      let c = chunk_of id total sha offset part in
      let i = trim_space id in
      let (s, f, w) = found_open a i c part p u r.waiting in
      let noted_u : Uploads = record u { sessions = insert i s u.sessions } in
      let taken : take_in a part offset sent ≡ (sent ++ part, ok tt) =
        ap (λ (n : ℕ). take_in a part n sent) o ∙ take_in_next now p part sent k in
      (
        s,
        ap (λ (x : Result Text). when_received max_upload digest same a c x u)
              (receive_part max_upload now p id sha part total offset v m l t)
            ∙ ap
                (λ (x : Uploads).
                  answered (offset + length part)
                    (when_located max_upload digest same a i c part (ok p) x))
                (clean_up_recent now u
                  (LastsFrom-AllRecent end last now i u.sessions i1 i2 r.lasting))
            ∙ ap (λ (x : Uploads × Result (Unit {0})). answered (offset + length part) x)
                (f
                  ∙ in_open now i c part p s noted_u sent w.1 r.kept
                  ∙ ap
                      (λ (x : Text × Result (Unit {0})).
                        after_chunk max_upload digest same a i c p s noted_u x)
                      taken),
        w,
      )
