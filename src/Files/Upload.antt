-- ===== src/Files/Upload.antt =====
-- daemon/internal/files/service.go: `UploadChunk`, which takes a file in chunks that may be sent again,
-- with the sessions that it keeps between them. A call is one step. Where the file and its temporary
-- file lie (`normalizeRelative`, `securePath`, `ensureUploadParent`), the guard on the instance or the
-- image, and what the system answers are arguments. Bytes are numbers; negative sizes and offsets,
-- which the code refuses, cannot be written. The recycle bin, where a replaced file is kept, is left
-- out.
pub mod Lifetime
pub mod Whole
pub mod Arrives
pub mod Complete
pub mod Retry
pub mod Cancel
use prism_panel.Common.{
  ℕ, zero, suc, ◌+◌, ◌-◌, ◌*◌, Bool, true, false, ◌&&◌, ◌||◌, not, List, [], ◌∷◌, ◌++◌, Option,
  none, some, ltb, leb, if◌then◌else◌, ◌==◌, nat_eq, text_eq, length, take, drop,
}
use prism_panel.Common.Text.{Text, trim_space}
use prism_panel.Common.Dict.{Dict, lookup, insert, delete}
use prism_panel.Common.Error.{
  ErrorCode, Result, ok, err, ◌>>=◌, ◌>>◌, guard, file_changed, file_exists, file_hash_mismatch,
  file_size_mismatch, file_write_failed, invalid_request, permission_denied, too_many_requests,
  upload_offset_mismatch,
}

abbrev pub upload_chunk_size : ℕ
upload_chunk_size = 2_097_152

-- Nanoseconds
abbrev pub upload_session_ttl : ℕ
upload_session_ttl = 1_200_000_000_000

-- What is at a path.
pub data Node : Type 0 where
  other : Node
  regular : Text → Node

-- `uploadState`; of the entry only its size
pub record Session : Type 0 where
  pub path : Text
  pub last_used : ℕ
  pub published : Bool
  pub size : ℕ
  pub final_offset : ℕ

pub record Uploads : Type 0 where
  pub sessions : Dict Text Session
  pub files : Dict Text Node

-- The arguments of a call; `body` is all that the reader would give.
pub record Chunk : Type 0 where
  pub session_id : Text
  pub body : Text
  pub offset : ℕ
  pub final : Bool
  pub expected_size : ℕ
  pub expected_sha : Text
  pub overwrite : Bool
  pub expected_version : Text

pub record Places : Type 0 where
  pub target : Text
  pub temp : Text

-- What the call finds out: the clock, whether a transfer is free, whether the reader fails, the guard
-- of `mutate`, the paths, and the system's answers. A write that fails has written some bytes. Where
-- the file is published: `publish_error` of the recycling or the link, `restores` whether a recycled
-- file comes back after it, and `unlinks` whether the temporary name can then be removed.
pub record Answers : Type 0 where
  pub now : ℕ
  pub has_slot : Bool
  pub receives : Bool
  pub admitted : Result (Unit {0})
  pub located : Result Places
  pub opens : Bool
  pub reads : Bool
  pub write_fails : Option ℕ
  pub syncs : Bool
  pub measures : Bool
  pub hashes : Bool
  pub target_error : Option ErrorCode
  pub reads_version : Bool
  pub publish_error : Option ErrorCode
  pub restores : Bool
  pub unlinks : Bool
  pub report_error : Option ErrorCode

abbrev pub is_session_char : ℕ → Bool
is_session_char c =
    (leb 97 c && leb c 122)
    || (leb 65 c && leb c 90)
    || (leb 48 c && leb c 57)
    || (c == 45)
    || (c == 95)

abbrev pub all_session_chars : Text → Bool
all_session_chars [] = true
all_session_chars (c ∷ cs) = is_session_char c && all_session_chars cs

unfoldable pub valid_session_id : Text → Bool
valid_session_id id = not ((id == []) || ltb 128 (length id)) && all_session_chars id

abbrev pub or_fail : Option ErrorCode → Result (Unit {0})
or_fail none = ok tt
or_fail (some e) = err e

-- `cleanupUploadSessions`
abbrev pub is_expired : ℕ → Session → Bool
is_expired now s = ltb upload_session_ttl (now - s.last_used)

abbrev pub clean_from : ℕ → Dict Text Session → Dict Text Session → Dict Text Node → Uploads
clean_from now kept [] files = record { sessions = kept; files = files }
clean_from now kept ((id, s) ∷ more) files =
    if is_expired now s
    then clean_from now (delete id kept) more (delete s.path files)
    else clean_from now kept more files

unfoldable pub clean_up : ℕ → Uploads → Uploads
clean_up now u = clean_from now u.sessions u.sessions u.files

-- The first bytes of a buffer that was filled from what is there.
abbrev pub padded : ℕ → Text → Text
padded zero xs = []
padded (suc n) [] = 0 ∷ padded n []
padded (suc n) (x ∷ xs) = x ∷ padded n xs

-- What a chunk makes of the temporary file.
unfoldable pub take_in : Answers → Text → ℕ → Text → Text × Result (Unit {0})
take_in a chunk offset content =
    if ltb (length content) offset
    then (content, err upload_offset_mismatch)
    else (if ltb offset (length content)
        then (
          content,
          (guard a.reads file_write_failed
              >> guard (padded (length chunk) (drop offset content) == chunk)
                  upload_offset_mismatch),
        )
        else (if chunk == [] then (content, ok tt) else elim a.write_fails [
          | some n ↦ (content ++ take n chunk, err file_write_failed)
          | none ↦ (content ++ chunk, guard a.syncs file_write_failed)
        ]))

abbrev pub content_of : Option Node → Result Text
content_of none = ok []
content_of (some (regular text)) = ok text
content_of (some other) = err file_write_failed

-- All of a reader behind `io.LimitReader`.
unfoldable pub limit_read : ℕ → Text → Text
limit_read n body = take n body

-- The arguments that `UploadChunk` refuses before it looks at a session; it gives the chunk.
unfoldable pub receive : ℕ → Answers → Chunk → Result Text
receive max_upload a c = do
  guard (valid_session_id (trim_space c.session_id)) invalid_request
  guard (not (ltb max_upload c.expected_size || ltb c.expected_size c.offset)) file_size_mismatch
  guard a.has_slot too_many_requests
  guard a.receives file_write_failed
  let chunk = limit_read (upload_chunk_size + 1) c.body
  guard
      (not
        (ltb upload_chunk_size (length chunk) || ltb (c.expected_size - c.offset) (length chunk)))
      file_size_mismatch
  guard
      (if c.final
        then c.offset + length chunk == c.expected_size
        else not (c.offset + length chunk == c.expected_size))
      file_size_mismatch
  ok chunk

abbrev pub new_session : Text → ℕ → Session
new_session path now = record {
  path = path;
  last_used = now;
  published = false;
  size = 0;
  final_offset = 0;
}

-- `atomicfile.Publish`: a second name for the temporary file, whose own name is removed.
abbrev pub link_file : Places → Text → Uploads → Uploads
link_file p content u = record u { files = insert p.target (regular content) u.files }

abbrev pub publish : Places → Text → Uploads → Uploads
publish p content u = record u { files = insert p.target (regular content) (delete p.temp u.files) }

abbrev pub mark_published : Text → Chunk → Text → Session → Uploads → Uploads
mark_published id c content s u = record u {
  sessions =
      insert id (record s { published = true; size = length content; final_offset = c.offset })
        u.sessions;
}

abbrev pub reported :
    Option ErrorCode
    → Text
    → Chunk
    → Places
    → Session
    → Text
    → Uploads
    → Uploads × Result (Unit {0})
reported (some e) id c p s content u = (publish p content u, err e)
reported none id c p s content u = (mark_published id c content s (publish p content u), ok tt)

abbrev pub answered : ℕ → Uploads × Result (Unit {0}) → Uploads × Result ℕ
answered next (u, err e) = (u, err e)
answered next (u, ok x) = (u, ok next)

-- `digest` is SHA-256 in hexadecimal digits, `same` is `strings.EqualFold`.
module _ (max_upload : ℕ) (digest : Text → Text) (same : Text → Text → Bool) where
  unfoldable pub check_whole : Answers → Chunk → Text → Result (Unit {0})
  check_whole a c content = do
    guard a.measures file_write_failed
    guard (length content == c.expected_size) file_size_mismatch
    guard a.hashes file_write_failed
    guard ((c.expected_sha == []) || same c.expected_sha (digest content)) file_hash_mismatch

  abbrev pub check_target : Answers → Chunk → Option Node → Result (Unit {0})
  check_target a c none = ok tt
  check_target a c (some other) = err invalid_request
  check_target a c (some (regular old)) =
      guard c.overwrite file_exists
      >> (if c.expected_version == []
          then ok tt
          else (guard a.reads_version file_write_failed
              >> guard (same (digest old) c.expected_version) file_changed))

  -- All that comes before the file is in its place.
  abbrev pub check_final : Answers → Chunk → Places → Text → Uploads → Result (Unit {0})
  check_final a c p content u =
      check_whole a c content
      >> (or_fail a.target_error >> check_target a c (lookup p.target u.files))

  -- `publishWithRecycle` with `atomicfile.Publish`, and the answer.
  abbrev pub place_file :
      Answers
      → Text
      → Chunk
      → Places
      → Session
      → Text
      → Option ErrorCode
      → Uploads
      → Uploads × Result (Unit {0})
  place_file a id c p s content (some e) u =
      (if a.restores then u else record u { files = delete p.target u.files }, err e)
  place_file a id c p s content none u =
      if a.unlinks
      then reported a.report_error id c p s content u
      else (link_file p content u, err file_write_failed)

  abbrev pub when_checked :
      Answers
      → Text
      → Chunk
      → Places
      → Session
      → Text
      → Result (Unit {0})
      → Uploads
      → Uploads × Result (Unit {0})
  when_checked a id c p s content (err e) u = (u, err e)
  when_checked a id c p s content (ok x) u = place_file a id c p s content a.publish_error u

  abbrev pub complete :
      Answers → Text → Chunk → Places → Session → Text → Uploads → Uploads × Result (Unit {0})
  complete a id c p s content u = when_checked a id c p s content (check_final a c p content u) u

  -- With the chunk in the temporary file.
  abbrev pub after_chunk :
      Answers
      → Text
      → Chunk
      → Places
      → Session
      → Uploads
      → Text × Result (Unit {0})
      → Uploads × Result (Unit {0})
  after_chunk a id c p s u (content, err e) =
      (record u { files = insert p.temp (regular content) u.files }, err e)
  after_chunk a id c p s u (content, ok x) =
      let filled = record u { files = insert p.temp (regular content) u.files } in
      if c.final then complete a id c p s content filled else (filled, ok tt)

  abbrev pub with_content :
      Answers
      → Text
      → Chunk
      → Text
      → Places
      → Session
      → Uploads
      → Result Text
      → Uploads × Result (Unit {0})
  with_content a id c chunk p s u (err e) = (u, err e)
  with_content a id c chunk p s u (ok content) =
      after_chunk a id c p s u (take_in a chunk c.offset content)

  -- With the session, which is noted.
  unfoldable pub in_session :
      Answers → Text → Chunk → Text → Places → Session → Uploads → Uploads × Result (Unit {0})
  in_session a id c chunk p s u =
      if s.published
      then (u, guard (c.final && (c.offset == s.final_offset)) upload_offset_mismatch)
      else with_content a id c chunk p s u
          (guard a.opens file_write_failed >> content_of (lookup p.temp u.files))

  abbrev pub noted :
      Answers → Text → Chunk → Text → Places → Session → Uploads → Uploads × Result (Unit {0})
  noted a id c chunk p s u =
      in_session a id c chunk p s (record u { sessions = insert id s u.sessions })

  abbrev pub find_session :
      Answers
      → Text
      → Chunk
      → Text
      → Places
      → Option Session
      → Uploads
      → Uploads × Result (Unit {0})
  find_session a id c chunk p none u = noted a id c chunk p (new_session p.temp a.now) u
  find_session a id c chunk p (some s) u =
      if s.path == p.temp
      then noted a id c chunk p (record s { last_used = a.now }) u
      else (u, err permission_denied)

  -- The operation that `mutate` runs.
  abbrev pub when_located :
      Answers → Text → Chunk → Text → Result Places → Uploads → Uploads × Result (Unit {0})
  when_located a id c chunk (err e) u = (u, err e)
  when_located a id c chunk (ok p) u = find_session a id c chunk p (lookup id u.sessions) u

  abbrev pub when_received : Answers → Chunk → Result Text → Uploads → Uploads × Result ℕ
  when_received a c (err e) u = (u, err e)
  when_received a c (ok chunk) u = answered (c.offset + length chunk) (
      when_located a (trim_space c.session_id) c chunk (a.admitted >> a.located) (clean_up a.now u))

  -- It answers with the offset of the next chunk.
  unfoldable pub upload_chunk : Answers → Chunk → Uploads → Uploads × Result ℕ
  upload_chunk a c u = when_received a c (receive max_upload a c) u
