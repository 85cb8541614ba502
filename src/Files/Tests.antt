-- ===== src/Files/Tests.antt =====
-- An upload in two parts.
use prism_panel.Common.{
  ℕ, ◌≡◌, refl, Bool, true, false, ◌||◌, List, [], ◌∷◌, ◌++◌, none, length, ◌==◌, text_eq, nat_eq,
  arith, if◌then◌else◌,
}
use prism_panel.Common.Text.{
  Text, codes, trim_space, trim_left, is_space, has_prefix, split, join, push_char,
}
use prism_panel.Common.Dict.{lookup, insert, delete}
use prism_panel.Common.Error.{ok}
use prism_panel.Ticket.Path.{slashed, path_clean, clean_parts, clean_part, climb}
use prism_panel.Files.Path.{
  System, directory, missing, normalize_relative, is_recycle_path, walk, secure_path,
}
use prism_panel.Files.Path.Inside.{IsSecure, secure_path-IsSecure}
use prism_panel.Files.Upload.{
  Uploads, Places, Chunk, upload_chunk, take_in, valid_session_id, clean_up, receive, limit_read,
  in_session, check_whole, new_session, regular,
}
use prism_panel.Files.Upload.Whole.{well, chunk_of, concat}
use prism_panel.Files.Upload.Arrives.{HasArrived, send_all, send_all_arrives}
use prism_panel.Files.Upload.Complete.{AnswersFor, upload_chunk_final}
use prism_panel.Files.Upload.Cancel
use prism_panel.Files.Upload.Cancel.{
  session_status, no_status, cancel_upload, IsUntouched, cancel_upload_untrimmed,
}
use prism_panel.Files.Upload.Retry.{zeros, take_in_short}

abbrev nothing : Uploads
nothing = record { sessions = []; files = [] }

abbrev places : Places
places = record { target = codes "/srv/world.zip"; temp = codes "/srv/.prism-upload-a1" }

-- The second part comes nineteen minutes after the first.
abbrev parts_sent : List (ℕ × Text)
parts_sent = (7, codes "abc") ∷ (1_140_000_000_007, codes "de") ∷ []

-- A digest and a comparison of digests, as far as the test needs them.
abbrev plain : Text → Text
plain text = text

abbrev alike : Text → Text → Bool
alike x y = x == y

a1_valid : valid_session_id (trim_space (codes "a1")) ≡ true
unfolding valid_session_id trim_space trim_left is_space text_eq nat_eq
a1_valid = refl

apart : places.target == places.temp ≡ false
unfolding text_eq
apart = refl

digest_right : (codes "abcde" == []) || alike (codes "abcde") (plain (concat parts_sent)) ≡ true
unfolding text_eq
digest_right = refl

nothing_there : (id : Text) → lookup id nothing.sessions ≡ none
unfolding lookup
nothing_there id = refl

no_file : (path : Text) → lookup path nothing.files ≡ none
unfolding lookup
no_file path = refl

send_all_arrives_example :
    HasArrived 100 plain alike places
      (concat parts_sent)
      5
      (send_all 100 plain alike places (codes "a1") 5 (codes "abcde") 0 parts_sent nothing)
send_all_arrives_example =
    send_all_arrives 100 plain alike 1_140_000_000_007 7 places (codes "a1") (codes "abcde")
      (codes "abc") ((1_140_000_000_007, codes "de") ∷ []) nothing (omega arith)
      (omega arith, omega arith, tt) a1_valid (omega arith) apart
      (omega arith, omega arith, (omega arith, omega arith, tt)) digest_right
      (nothing_there (trim_space (codes "a1"))) (no_file places.temp) (no_file places.target) tt

-- A file in one chunk.
abbrev in_one : Chunk
in_one = chunk_of (codes "a1") 3 (codes "abc") 0 (codes "abc")

in_one_accepted : (upload_chunk 100 plain alike (well 7 places) in_one nothing).1 ≡ ok 3
unfolding upload_chunk receive limit_read valid_session_id trim_space trim_left is_space text_eq
    nat_eq clean_up lookup insert delete in_session take_in check_whole
in_one_accepted = refl

upload_chunk_final_example :
    AnswersFor 100 plain alike
      (well 7 places)
      in_one
      (clean_up 7 nothing)
      (upload_chunk 100 plain alike (well 7 places) in_one nothing).0
    × (3 ≡ in_one.expected_size)
unfolding nat_eq
upload_chunk_final_example =
    upload_chunk_final 100 plain alike (well 7 places) in_one nothing 3 refl in_one_accepted

take_in_short_example :
    take_in
      (well 7 places)
      (codes "de" ++ zeros 2)
      (length (codes "abc"))
      (codes "abc" ++ codes "de")
    ≡ (codes "abc" ++ codes "de", ok tt)
take_in_short_example = take_in_short 7 places (codes "abc") (codes "de") 2 (omega arith)

-- A system where /srv has a directory plugins.
abbrev plugins_only : System
plugins_only = record {
  is_absolute = λ path. false;
  abs = λ path. ok path;
  join = λ base part. base ++ codes "/" ++ part;
  leaves = λ root path. false;
  lstat = λ path.
      if (path == codes "/srv") || (path == codes "/srv/plugins") then directory else missing;
}

secure_path-IsSecure_example :
    IsSecure plugins_only (codes "/srv") (codes "plugins/./a.jar") true (codes "/srv/plugins/a.jar")
unfolding secure_path normalize_relative slashed path_clean clean_parts clean_part climb split join
    push_char has_prefix trim_space trim_left is_space is_recycle_path walk nat_eq text_eq
secure_path-IsSecure_example =
    secure_path-IsSecure plugins_only (codes "/srv") (codes "plugins/./a.jar") true
      (codes "/srv/plugins/a.jar") refl

-- An upload under way, of which " a1" is asked to be cancelled.
abbrev under_way : Uploads
under_way = record {
  sessions = (codes "a1", new_session places.temp 7) ∷ [];
  files = (places.temp, regular (codes "abc")) ∷ [];
}

abbrev spaced_places : Places
spaced_places = record { target = places.target; temp = codes "/srv/.prism-upload- a1" }

abbrev by_id : Cancel.Answers
by_id = record {
  located = λ id. ok (if id == codes "a1" then places else spaced_places);
  stat_error = none;
  other_size = 0;
  admitted = ok tt;
  remove_error = none;
}

cancel_upload_untrimmed_example :
    ((cancel_upload by_id (codes " a1") under_way).1 ≡ ok no_status)
    × IsUntouched (codes "a1") places.temp under_way (cancel_upload by_id (codes " a1") under_way).0
unfolding session_status valid_session_id trim_space trim_left is_space lookup nat_eq text_eq
cancel_upload_untrimmed_example =
    cancel_upload_untrimmed by_id (codes " a1") places spaced_places 3 under_way refl refl refl refl
      refl refl refl
