-- ===== src/Files/Upload/Arrives.antt =====
-- A file that is sent in parts, one call after the other.
use prism_panel.Common.{
  ℕ, ◌+◌, ◌≤◌, ◌<◌, ◌≡◌, refl, sym, ap, subst, ◌∙◌, inl, inr, Bool, true, false, ◌||◌, List, [],
  ◌∷◌, ◌++◌, Option, none, some, ◌==◌, nat_eq, text_eq, eq→≡, eq_refl, length, length-append, arith,
  Bool-cases, if_true, if_false,
}
use prism_panel.Common.Text.{Text, trim_space}
use prism_panel.Common.Dict.{Dict, lookup, insert, delete, lookup-insert, lookup-delete}
use prism_panel.Common.Error.{Result, ok, err}
use prism_panel.Files.Upload.{
  Node, regular, Uploads, Chunk, Places, content_of, check_whole, check_final, complete,
  when_checked, answered, upload_chunk, upload_chunk_size, upload_session_ttl, valid_session_id,
}
use prism_panel.Files.Upload.Lifetime.{AllRecent, InTime, new-LastsFrom}
use prism_panel.Files.Upload.Whole.{
  well, chunk_of, concat, AllFit, IsReady, filled, filled-IsReady, reaches, at_own,
}

append_assoc : (xs ys zs : Text) → (xs ++ ys) ++ zs ≡ xs ++ (ys ++ zs)
append_assoc [] ys zs = refl
append_assoc (x ∷ xs) ys zs = ap (λ (l : Text). x ∷ l) (append_assoc xs ys zs)

append_nil : (xs : Text) → xs ++ [] ≡ xs
append_nil [] = refl
append_nil (x ∷ xs) = ap (λ (l : Text). x ∷ l) (append_nil xs)

same_number : (m n : ℕ) → m ≡ n → m == n ≡ true
same_number m n e = ground (arith, e)

other_number : (m n : ℕ) → m < n → m == n ≡ false
other_number m n h = ground (arith, h)

gone :
    (target temp : Text) (v : Node) (m : Dict Text Node)
    → temp == target ≡ false
    → lookup temp (insert target v (delete temp m)) ≡ none
gone target temp v m a =
    ground
      (arith, lookup-insert temp target v (delete temp m), lookup-delete temp temp m, eq_refl temp)

apart : (x y : Text) → x == y ≡ false → y == x ≡ false
apart x y h = elim (Bool-cases (y == x)) [
  | inr f ↦ f
  | inl e ↦
      let k : x == y ≡ true = subst (λ (z : Text). x == z ≡ true) (sym (eq→≡ y x e)) (eq_refl x) in
      absurd (ground (arith, h, k))
]

abbrev pub on_ok : Result ℕ → Uploads → Uploads × Result ℕ → Uploads × Result ℕ
on_ok (err e) u rest = (u, err e)
on_ok (ok next) u rest = rest

module _ (max_upload : ℕ) (digest : Text → Text) (same : Text → Text → Bool) where
  -- One call for each part, each at its own time, until one fails.
  unfoldable pub send_all :
      Places → Text → ℕ → Text → ℕ → List (ℕ × Text) → Uploads → Uploads × Result ℕ
  send_all p id total sha offset [] u = (u, ok offset)
  send_all p id total sha offset ((now, part) ∷ calls) u =
      let r =
        upload_chunk max_upload digest same (well now p) (chunk_of id total sha offset part) u in
      on_ok r.1 r.0 (send_all p id total sha (offset + length part) calls r.0)

  -- The whole content is at the target, and nothing is left at the temporary path.
  abbrev pub HasArrived : Places → Text → ℕ → Uploads × Result ℕ → Type 0
  HasArrived p content total r =
      (r.1 ≡ ok total)
      × (lookup p.target r.0.files ≡ some (regular content))
      × (lookup p.temp r.0.files ≡ none)

  passes :
      (now : ℕ) (c : Chunk) (p : Places) (content : Text) (u : Uploads)
      → length content ≡ c.expected_size
      → (c.expected_sha == []) || same c.expected_sha (digest content) ≡ true
      → lookup p.target u.files ≡ none
      → check_final max_upload digest same (well now p) c p content u ≡ ok tt
  unfolding check_whole
  passes now c p content u l d f =
      rw (same_number (length content) c.expected_size l, d, f, check_whole) refl

  -- The last part.
  arrives_last :
      (end last now : ℕ) (p : Places) (id sha part sent : Text) (total offset : ℕ) (u : Uploads)
      → now ≤ end
      → now ≤ last + upload_session_ttl
      → valid_session_id (trim_space id) ≡ true
      → total ≤ max_upload
      → p.target == p.temp ≡ false
      → 1 ≤ length part
      → length part ≤ upload_chunk_size
      → offset ≡ length sent
      → offset + length part ≡ total
      → (sha == []) || same sha (digest (sent ++ part)) ≡ true
      → IsReady end last (trim_space id) p sent u
      → HasArrived p
          (sent ++ part)
          total
          (upload_chunk max_upload digest same (well now p) (chunk_of id total sha offset part) u)
  arrives_last end last now p id sha part sent total offset u i1 i2 v m d k l o t h r =
      let i = trim_space id in
      let c = chunk_of id total sha offset part in
      let content = sent ++ part in
      let n = length-append sent part in
      let whole : length content ≡ total = omega (arith, n, o, t) in
      let (s, f, w) =
        reaches max_upload digest same end last now p id sha part sent total offset u i1 i2 v m k l
          o (omega (arith, t)) r in
      let fd = filled i p s content u in
      let free = (filled-IsReady end last now i p sent content s u d w r).free in
      let g =
        if_true c.final (complete max_upload digest same (well now p) i c p s content fd)
          (fd, ok tt) (same_number (offset + length part) total t)
        ∙ ap
            (λ (x : Result (Unit {0})).
              when_checked max_upload digest same (well now p) i c p s content x fd)
            (passes now c p content fd whole h free) in
      subst (HasArrived p content total)
        (sym (f ∙ ap (λ (x : Uploads × Result (Unit {0})). answered (offset + length part) x) g))
        (
          ap (λ (x : ℕ). ok x) t,
          at_own p.target (regular content) (delete p.temp fd.files),
          gone p.target p.temp (regular content) fd.files (apart p.target p.temp d),
        )

  -- The parts that are left.
  arrives :
      (end last now : ℕ) (p : Places) (id sha : Text) (total : ℕ) (calls : List (ℕ × Text))
      (part sent : Text) (offset : ℕ) (u : Uploads)
      → InTime end last ((now, part) ∷ calls)
      → valid_session_id (trim_space id) ≡ true
      → total ≤ max_upload
      → p.target == p.temp ≡ false
      → AllFit ((now, part) ∷ calls)
      → offset ≡ length sent
      → offset + length (concat ((now, part) ∷ calls)) ≡ total
      → (sha == []) || same sha (digest (sent ++ concat ((now, part) ∷ calls))) ≡ true
      → IsReady end last (trim_space id) p sent u
      → HasArrived p
          (sent ++ concat ((now, part) ∷ calls))
          total
          (send_all p id total sha offset ((now, part) ∷ calls) u)
  unfolding send_all
  arrives end last now p id sha total [] part sent offset u (i1, i2, i3) v m d (k, l, rest) o t h
        r =
      let z : part ++ [] ≡ part = append_nil part in
      let t' : offset + length part ≡ total = ap (λ (x : Text). offset + length x) (sym z) ∙ t in
      let h' : (sha == []) || same sha (digest (sent ++ part)) ≡ true =
        subst (λ (x : Text). (sha == []) || same sha (digest (sent ++ x)) ≡ true) z h in
      let y =
        upload_chunk max_upload digest same (well now p) (chunk_of id total sha offset part) u in
      let (a, b, c) =
        arrives_last end last now p id sha part sent total offset u i1 i2 v m d k l o t' h' r in
      let end : Uploads × Result ℕ = (y.0, ok (offset + length part)) in
      subst (λ (x : Text). HasArrived p (sent ++ x) total (on_ok y.1 y.0 end)) (sym z)
        (subst (HasArrived p (sent ++ part) total) (sym (ap (λ (x : Result ℕ). on_ok x y.0 end) a))
          (ap (λ (x : ℕ). ok x) t', b, c))
  arrives end last now p id sha total ((later, next) ∷ more) part sent offset u (i1, i2, i3) v m d
        (k, l, fits) o t h r =
      let i = trim_space id in
      let c = chunk_of id total sha offset part in
      let content = sent ++ part in
      let left = concat ((later, next) ∷ more) in
      let n = length-append part left in
      let n' = length-append next (concat more) in
      let (s, f, w) =
        reaches max_upload digest same end last now p id sha part sent total offset u i1 i2 v m k l
          o (omega (arith, t, n)) r in
      let fd = filled i p s content u in
      let g =
        if_false c.final (complete max_upload digest same (well now p) i c p s content fd)
          (fd, ok tt)
          (other_number (offset + length part) total (omega (arith, t, n, n', fits.0))) in
      let e = f ∙ ap (λ (x : Uploads × Result (Unit {0})). answered (offset + length part) x) g in
      let q = length-append sent part in
      let assoc = append_assoc sent part left in
      let h' : (sha == []) || same sha (digest (content ++ left)) ≡ true =
        subst (λ (x : Text). (sha == []) || same sha (digest x) ≡ true) (sym assoc) h in
      let ready = filled-IsReady end last now i p sent content s u d w r in
      let further =
        arrives end now later p id sha total more next content (offset + length part) fd i3 v m d
          fits (omega (arith, o, q)) (omega (arith, t, n)) h' ready in
      subst
        (λ (x : Text).
          HasArrived p x total
            (send_all p id total sha offset ((now, part) ∷ (later, next) ∷ more) u))
        assoc
        (subst (HasArrived p (content ++ left) total)
          (sym (
            ap
              (λ (x : Uploads × Result ℕ).
                on_ok x.1 x.0
                  (send_all p id total sha (offset + length part) ((later, next) ∷ more) x.0))
              e))
          further)

  -- A new file that is sent in parts, none of them empty or longer than a chunk may be, with no
  -- failure, the calls at different times, each within the lifetime of a session after the one before
  -- it: where the file is not too large, the id is valid, the digest is right, no session that is
  -- there expires before a time that no call comes after, and nothing is there under the id, at the
  -- target or at the temporary path, every call succeeds, and the target then has exactly the parts in
  -- their order, with nothing left at the temporary path.
  pub send_all_arrives :
      (end now : ℕ) (p : Places) (id sha part : Text) (calls : List (ℕ × Text)) (u : Uploads)
      → now ≤ end
      → InTime end now calls
      → valid_session_id (trim_space id) ≡ true
      → length (concat ((now, part) ∷ calls)) ≤ max_upload
      → p.target == p.temp ≡ false
      → AllFit ((now, part) ∷ calls)
      → (sha == []) || same sha (digest (concat ((now, part) ∷ calls))) ≡ true
      → lookup (trim_space id) u.sessions ≡ none
      → lookup p.temp u.files ≡ none
      → lookup p.target u.files ≡ none
      → AllRecent end u.sessions
      → HasArrived p
          (concat ((now, part) ∷ calls))
          (length (concat ((now, part) ∷ calls)))
          (send_all p id (length (concat ((now, part) ∷ calls))) sha 0 ((now, part) ∷ calls) u)
  send_all_arrives end now p id sha part calls u t0 ts v m d fits h none_yet no_temp no_target
        recent =
      arrives end now now p id sha (length (concat ((now, part) ∷ calls))) calls part [] 0 u
        (t0, omega arith, ts) v m d fits refl (omega arith) h
        (record {
          kept = ap (λ (o : Option Node). content_of o) no_temp;
          free = no_target;
          waiting = inl none_yet;
          lasting = new-LastsFrom end now (trim_space id) u.sessions none_yet recent;
        })
